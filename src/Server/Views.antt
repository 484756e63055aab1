-- ===== src/Server/Views.antt =====
-- What the management host of cmd/mygrokd shows to an admin: the values that the JSON answers and the
-- pages of admin.go and auth.go are made of. The text around the values, with its escaping, and the
-- format of a time are left out.
pub mod Shown
pub mod Overview
use mygrok.Base.{
  ℕ, Bool, true, false, not, List, [], ◌∷◌, ◌++◌, Option, none, some, Bytes, codes, ◌==◌,
  if◌then◌else◌, length, member, keep,
}
use mygrok.Base.Order.{is_some}
use mygrok.Base.Dict.{Dict, insert}
use mygrok.Base.Sort.{sort}
use mygrok.Server.Registry.{Registry, get, active_subdomains}
use mygrok.Server.Acl.{
  Net, Entry, Bucket, Acl, snapshot_global, snapshot_tunnel, tunnels_configured,
}
use mygrok.Server.Locks.{Locks, is_locked, allows_user, allowed_users, locked_subdomains}
use mygrok.Server.Passkeys.{WebAuthn, UserRecord, StoredCredential, PasskeyStore}
use mygrok.Server.Passkeys.Store.{find_user, list_users, list_credentials}
use mygrok.Server.Invites.{Invite, InviteStore, list_invites}

-- One entry of the list of credentials.
pub record CredentialRow : Type 0 where
  pub id : Bytes
  pub user_id : Bytes
  pub label : Bytes
  pub created : ℕ
  pub last_used : ℕ

pub record UserRow : Type 0 where
  pub id : Bytes
  pub name : Bytes
  pub created : ℕ
  pub credentials : ℕ
  pub tunnels : List Bytes

pub record InviteRow : Type 0 where
  pub url : Bytes
  pub invite : Invite

pub record StateView (N : Net) : Type 0 where
  pub public_host : Bytes
  pub global : Bucket N
  pub tunnels_configured : Dict (Bucket N)
  pub tunnels_live : List Bytes

pub record AllowedUser : Type 0 where
  pub id : Bytes
  pub name : Bytes

pub record TunnelView (N : Net) : Type 0 where
  pub scope : Bytes
  pub live : Bool
  pub require_passkey : Bool
  pub allowed_users : List AllowedUser
  pub allowed : List (Entry N)
  pub blocked : List (Entry N)

-- A line of the overview; the numbers of rules, if there are any.
pub record OverviewRow : Type 0 where
  pub subdomain : Bytes
  pub live : Bool
  pub rules : Option (ℕ × ℕ)

-- The users on the list of a tunnel, and those that the form offers.
pub record TunnelPage : Type 0 where
  pub live : Bool
  pub locked : Bool
  pub listed : List AllowedUser
  pub offered : List UserRecord

-- The subdomains on whose lists a user is.
unfoldable pub tunnels_of : Locks → Bytes → List Bytes
tunnels_of l uid = keep (λ sub. allows_user l sub uid) (locked_subdomains l)

-- One loop of `mergeSorted`: `out` holds exactly what has been seen.
unfoldable pub add_unseen : List Bytes → List Bytes → List Bytes
add_unseen out [] = out
add_unseen out (s ∷ ss) = add_unseen (if member s out then out else out ++ s ∷ []) ss

unfoldable pub merge_sorted : List Bytes → List Bytes → List Bytes
unfolding add_unseen
merge_sorted a b = sort (add_unseen (add_unseen [] a) b)

unfoldable pub invite_url : Bytes → Bytes → Bytes
invite_url public_host token =
    codes "https://tunnel." ++ (public_host ++ (codes "/invite/" ++ token))

unfoldable pub invite_rows : Bytes → List Invite → List InviteRow
unfolding invite_url
invite_rows public_host [] = []
invite_rows public_host (r ∷ rs) =
    record { url = invite_url public_host r.token; invite = r } ∷ invite_rows public_host rs

unfoldable pub invites_view : Bytes → InviteStore → List InviteRow
unfolding invite_rows
invites_view public_host s = invite_rows public_host (list_invites s true)

-- The two tables of the page: the pending invites and the used ones.
unfoldable pub invites_page : InviteStore → List Invite × List Invite
invites_page s =
    let all = list_invites s true in (keep (λ r. not r.consumed) all, keep (λ r. r.consumed) all)

module _ (W : WebAuthn) where
  unfoldable pub credential_rows : List (StoredCredential W) → List CredentialRow
  credential_rows [] = []
  credential_rows (c ∷ cs) =
      record {
        id = c.id;
        user_id = c.user_id;
        label = c.label;
        created = c.created;
        last_used = c.last_used;
      }
      ∷ credential_rows cs

  unfoldable pub credentials_view : PasskeyStore W → List CredentialRow
  unfolding credential_rows
  credentials_view s = credential_rows (list_credentials W s [])

  unfoldable pub user_row : PasskeyStore W → Locks → UserRecord → UserRow
  unfolding tunnels_of
  user_row s l u = record {
    id = u.id;
    name = u.name;
    created = u.created;
    credentials = length (list_credentials W s u.id);
    tunnels = tunnels_of l u.id;
  }

  unfoldable pub user_rows : PasskeyStore W → Locks → List UserRecord → List UserRow
  user_rows s l [] = []
  user_rows s l (u ∷ us) = user_row s l u ∷ user_rows s l us

  unfoldable pub users_view : PasskeyStore W → Locks → List UserRow
  unfolding user_rows
  users_view s l = user_rows s l (list_users W s)

  -- The names of the users on a list; `missing` is the name of a user whom the store does not know.
  unfoldable pub name_users : PasskeyStore W → (Bytes → Bytes) → List Bytes → List AllowedUser
  name_users s missing [] = []
  name_users s missing (uid ∷ uids) =
      record {
        id = uid;
        name = elim (find_user W s uid) as (λ _. Bytes) [ none ↦ missing uid | some u ↦ u.name ];
      }
      ∷ name_users s missing uids

  unfoldable pub tunnel_page : Registry → Locks → PasskeyStore W → Bytes → TunnelPage
  unfolding name_users
  tunnel_page r l s sub = record {
    live = is_some (get r sub);
    locked = is_locked l sub;
    listed = name_users s (λ uid. uid) (allowed_users l sub);
    offered = keep (λ u. not (member u.id (allowed_users l sub))) (list_users W s);
  }

module _ (N : Net) where
  unfoldable pub configured_rows : Acl N → List Bytes → Dict (Bucket N) → Dict (Bucket N)
  configured_rows a [] out = out
  configured_rows a (sub ∷ subs) out =
      configured_rows a subs (insert sub (snapshot_tunnel N a sub) out)

  unfoldable pub state_view : Bytes → Acl N → Registry → StateView N
  unfolding configured_rows
  state_view public_host a r = record {
    public_host = public_host;
    global = snapshot_global N a;
    tunnels_configured = configured_rows a (tunnels_configured N a) [];
    tunnels_live = active_subdomains r;
  }

  unfoldable pub tunnel_view :
      (W : WebAuthn) → Acl N → Registry → Locks → PasskeyStore W → Bytes → TunnelView N
  unfolding name_users
  tunnel_view W a r l s sub = record {
    scope = sub;
    live = is_some (get r sub);
    require_passkey = is_locked l sub;
    allowed_users = name_users W s (λ uid. []) (allowed_users l sub);
    allowed = (snapshot_tunnel N a sub).allowed;
    blocked = (snapshot_tunnel N a sub).blocked;
  }

  unfoldable pub overview_row : Acl N → List Bytes → List Bytes → Bytes → OverviewRow
  overview_row a live configured sub = record {
    subdomain = sub;
    live = member sub live;
    rules =
        if member sub configured
        then some
            (length (snapshot_tunnel N a sub).allowed, length (snapshot_tunnel N a sub).blocked)
        else none;
  }

  unfoldable pub overview_rows : Acl N → List Bytes → List Bytes → List Bytes → List OverviewRow
  unfolding overview_row
  overview_rows a live configured [] = []
  overview_rows a live configured (sub ∷ subs) =
      overview_row a live configured sub ∷ overview_rows a live configured subs

  unfoldable pub overview : Acl N → Registry → List OverviewRow
  unfolding overview_rows merge_sorted
  overview a r =
      overview_rows a (active_subdomains r) (tunnels_configured N a)
        (merge_sorted (active_subdomains r) (tunnels_configured N a))
