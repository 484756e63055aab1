-- ===== src/Tests/Visitors.antt =====
-- Visitors of the management host: logins, invites and the account page, and the lock of a tunnel.
use mygrok.Base.{
  ◌≡◌, refl, subst, true, false, not, ◌&&◌, ◌||◌, [], ◌∷◌, ◌++◌, codes, ◌==◌, some, none, Bytes,
  to_lower, trim_space, has_prefix, cut, split, hex_encode, Option-cases, inl, inr, arith,
}
use mygrok.Base.Dict.{lookup}
use mygrok.Server.Disk.{save_file}
use mygrok.Server.Names.{looks_like_subdomain, label_bytes}
use mygrok.Server.Headers.{crlf, split_at, read_cookie_from_headers}
use mygrok.Server.Locks.{is_locked, allows_user}
use mygrok.Server.Passkeys.Store.{
  save, has_user, has_credential, find_id, owner_of, credential_user_id, user_by_id,
  replace_credential, update_credential, add_credential,
}
use mygrok.Server.Passkeys.Sessions.{consume_login, consume_registration, issue_auth_session}
use mygrok.Server.Invites.{
  Invite, save as save_invites, invite, already_used, lookup_invite, mark_consumed,
}
use mygrok.Server.Manage.{Host, Request, failed, in_invites, signed_in}
use mygrok.Server.Manage.People.{lock_all}
use mygrok.Server.Manage.Account.{credential_of, passkey_label}
use mygrok.Server.Manage.Login.{safe_return_url, identify, sign_in, finish_with, serve_auth_finish}
use mygrok.Server.Manage.Redeem.{
  invite_path, invitee, stashed, join_user, commit_invite, finish_invite, serve_invite_finish,
  serve_invite_begin, serve_stage, serve_invite,
}
use mygrok.Server.Manage.Locking.{named, nobody, is_locked-lock_all}
use mygrok.Server.Manage.Returning.{IsSafeReturn, safe_return_url-IsSafeReturn}
use mygrok.Server.Manage.Joined.{IsJoined, serve_invite-IsJoined, commit_invite_late}
use mygrok.Server.Manage.Entry.{Asks, IsEntered, serve_auth_finish-IsEntered}
use mygrok.Tests.Data.{two_ips, texts}
use mygrok.Tests.Passkeys.{store}
use mygrok.Tests.Manage.{go, flags, office, moment, trusting}

-- Locking the shop for Ann.
valid_sub : looks_like_subdomain (codes "shop") ≡ true
unfolding looks_like_subdomain label_bytes
valid_sub = refl

all_named : named store.users ≡ true
unfolding ◌==◌
all_named = refl

ann : (codes "u1" == []) ≡ false
unfolding ◌==◌
ann = refl

is_locked-lock_all_example :
    (allows_user (lock_all office (codes "shop") moment) (codes "shop") (codes "u1") ≡ (
      ((codes "shop" == codes "shop") && has_user (codes "u1") store.users)
      || allows_user office.locks (codes "shop") (codes "u1")))
    × (is_locked (lock_all office (codes "shop") moment) (codes "shop") ≡ (
        ((codes "shop" == codes "shop") && not (nobody store.users))
        || is_locked office.locks (codes "shop")))
is_locked-lock_all_example =
    is_locked-lock_all office (codes "shop") moment (codes "shop") (codes "u1") valid_sub all_named
      ann

safe_return_url-IsSafeReturn_example :
    IsSafeReturn go (codes "tun.io") (safe_return_url go (codes " /admin ") (codes "tun.io"))
safe_return_url-IsSafeReturn_example =
    safe_return_url-IsSafeReturn go (codes " /admin ") (codes "tun.io")

-- Bob registers with an invite, and Carl is late with the same one.
abbrev bob_invite : Invite
bob_invite = invite (codes "Bob") (codes "t1") 5 6

abbrev inviting : Host two_ips texts
inviting = record office {
  invites = record { path = []; by_token = (codes "t1", bob_invite) ∷ []; disk = none };
  passkeys = record store {
    reg_sessions =
        (
          codes "r9",
          record {
            session_data = codes "s";
            expires = 100;
            return_url = [];
            invite_token = codes "t1|u3";
          },
        )
        ∷ [];
  };
}

abbrev with_cookie : Bytes → Bytes → Request
with_cookie path cookie = record {
  method = codes "POST";
  path = path;
  raw_query = [];
  raw = codes "POST / HTTP/1.1" ++ (crlf ++ (codes "Cookie: " ++ (cookie ++ (crlf ++ crlf))));
  left = codes "k3";
}

abbrev redeems : Request
redeems = with_cookie (codes "/invite/t1/finish") (codes "mygrok_pk_reg=r9")

random_named : (codes "r1" == []) ≡ false
unfolding ◌==◌
random_named = refl

redeemed : (serve_invite trusting inviting redeems moment).1 ≡ signed_in (codes "r1") []
unfolding serve_invite serve_stage serve_invite_begin serve_invite_finish finish_invite
    commit_invite join_user invite_path invitee stashed credential_of passkey_label
    consume_registration add_credential save save_file save_invites issue_auth_session lookup_invite
    mark_consumed lookup read_cookie_from_headers split_at split cut has_prefix to_lower trim_space
    hex_encode ◌==◌
redeemed = refl

serve_invite-IsJoined_example :
    (rec : Invite) × (lookup_invite inviting.invites (invite_path redeems.path).0 9 ≡ some rec)
    × (rec.consumed ≡ false)
    × IsJoined trusting inviting
        (serve_invite trusting inviting redeems moment).0
        rec
        redeems
        moment
serve_invite-IsJoined_example =
    serve_invite-IsJoined trusting inviting redeems moment random_named redeemed

abbrev used_invite : Invite
used_invite = record bob_invite { consumed = true }

abbrev after_bob : Host two_ips texts
after_bob = record office {
  invites = record { path = []; by_token = (codes "t1", used_invite) ∷ []; disk = none };
}

used_up : lookup (codes "t1") after_bob.invites.by_token ≡ some used_invite
unfolding lookup ◌==◌
used_up = refl

new_key : has_credential texts (hex_encode (codes "k4")) store.credentials ≡ false
unfolding hex_encode ◌==◌
new_key = refl

commit_invite_late_example :
    let r =
      commit_invite trusting after_bob bob_invite
        (codes "u4")
        (codes "s")
        (codes "phone", codes "k4")
        moment in
    (r.1 ≡ failed (in_invites already_used))
    × (r.0.passkeys.auth_sessions ≡ store.auth_sessions)
    × (has_user (codes "u4") r.0.passkeys.users ≡ true)
    × (credential_user_id texts r.0.passkeys (codes "k4") ≡ codes "u4")
    × (r.0.invites ≡ after_bob.invites)
commit_invite_late_example =
    commit_invite_late trusting after_bob bob_invite used_invite (codes "u4") (codes "s")
      (codes "phone") (codes "k4") moment used_up refl new_key refl

-- Ann logs in.
abbrev pending : Host two_ips texts
pending = record office {
  passkeys = record store {
    login_sessions =
        (
          codes "l1",
          record {
            session_data = codes "s";
            expires = 100;
            return_url = codes "/a";
            invite_token = [];
          },
        )
        ∷ [];
  };
}

abbrev returns : Request
returns = with_cookie (codes "/auth/finish") (codes "mygrok_pk_login=l1")

entered :
    (serve_auth_finish go trusting flags pending returns moment).1
    ≡ signed_in (codes "r1") (codes "/a")
unfolding serve_auth_finish finish_with sign_in identify safe_return_url consume_login lookup
    credential_user_id owner_of user_by_id find_id update_credential replace_credential save
    save_file issue_auth_session read_cookie_from_headers split_at split cut has_prefix to_lower
    trim_space hex_encode ◌==◌
entered = refl

-- The answers of the browser name no user.
abbrev no_handle : Bytes → Bytes → Bytes
no_handle raw left = []

trusting-Asks : Asks trusting no_handle
trusting-Asks who sess raw left cred e = elim (Option-cases (who (codes "k1") [])) [
  | inl p ↦ absurd (ground arith)
  | inr (u, p) ↦
      let same : codes "k1" ≡ cred = ground (arith, p) in (u, subst (λ c. who c [] ≡ some u) same p)
]

serve_auth_finish-IsEntered_example :
    IsEntered go trusting no_handle flags pending
      (serve_auth_finish go trusting flags pending returns moment).0
      returns
      moment
      (codes "/a")
serve_auth_finish-IsEntered_example =
    serve_auth_finish-IsEntered go trusting flags no_handle pending returns moment trusting-Asks
      random_named entered
