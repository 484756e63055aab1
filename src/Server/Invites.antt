-- ===== src/Server/Invites.antt =====
-- The one-shot invites of cmd/mygrokd/invites.go: `inviteStore` and its methods. Each method holds
-- the mutex throughout, so it is one function of the state; the file at `path` is part of the state.
-- The random token and the readings of the clock are arguments.
pub mod Once
use mygrok.Base.{
  ℕ, ◌+◌, ◌*◌, Bool, true, false, not, ◌&&◌, ◌||◌, List, [], ◌∷◌, Option, none, some, Bytes, ◌==◌,
  leb, ltb, if◌then◌else◌, trim_space, to_lower,
}
use mygrok.Base.Error.{Result, ok, err}
use mygrok.Base.Dict.{Dict, lookup, insert, erase}
use mygrok.Server.Disk.{Io, SaveError, save_file}
use mygrok.Server.Passkeys.{second}

abbrev pub invite_default_ttl : ℕ
invite_default_ttl = 7 * 24 * 3600 * second

pub record Invite : Type 0 where
  pub token : Bytes
  pub name : Bytes
  pub user_id : Bytes
  pub created : ℕ
  pub expires : ℕ
  pub consumed : Bool
  pub consumed_at : ℕ

pub record InviteStore : Type 0 where
  pub path : Bytes
  pub by_token : Dict Invite
  pub disk : Option (List Invite)

pub data InviteError : Type 0 where
  name_required unknown_invite already_used no_invite : InviteError
  not_saved : SaveError → InviteError

-- Insertion by creation time, for sort.Slice.
insert_invite : Invite → List Invite → List Invite
insert_invite r [] = r ∷ []
insert_invite r (s ∷ ss) =
    let rest = insert_invite r ss in if leb r.created s.created then r ∷ s ∷ ss else s ∷ rest

sort_invites : List Invite → List Invite
unfolding insert_invite
sort_invites [] = []
sort_invites (r ∷ rs) = insert_invite r (sort_invites rs)

-- The loop over the map of `saveLocked` and `List`.
collect : Bool → Dict Invite → List Invite
collect include_consumed [] = []
collect include_consumed ((token, r) ∷ m) =
    let rest = collect include_consumed m in
    if not include_consumed && r.consumed then rest else r ∷ rest

unfoldable pub save : InviteStore → Io → InviteStore × Option InviteError
unfolding sort_invites collect
save s io =
    let (disk, e) = save_file s.path io (sort_invites (collect true s.by_token)) s.disk in
    (record s { disk = disk }, elim e [ none ↦ none | some d ↦ some (not_saved d) ])

load_invites : Dict Invite → List Invite → Dict Invite
load_invites m [] = m
load_invites m (r ∷ rs) = load_invites (insert r.token r m) rs

-- `newInviteStore`: `none` is a file that does not exist.
unfoldable pub new_invite_store : Bytes → Option (List Invite) → InviteStore
unfolding load_invites
new_invite_store path none = record { path = path; by_token = []; disk = none }
new_invite_store path (some f) = record { path = path; by_token = load_invites [] f; disk = some f }

-- The invite that `Issue` makes; the clock is read twice.
abbrev pub invite : Bytes → Bytes → ℕ → ℕ → Invite
invite name token now then_now = record {
  token = token;
  name = trim_space name;
  user_id = [];
  created = now;
  expires = then_now + invite_default_ttl;
  consumed = false;
  consumed_at = 0;
}

unfoldable pub issue :
    InviteStore → Bytes → Bytes → ℕ → ℕ → Io → InviteStore × Result InviteError Invite
issue s name token now then_now io =
    let rec = invite name token now then_now in
    let (saved, e) = save (record s { by_token = insert token rec s.by_token }) io in
    if trim_space name == [] then (s, err name_required) else elim e [
      | some d ↦ (record saved { by_token = erase token saved.by_token }, err d)
      | none ↦ (saved, ok rec)
    ]

-- `Lookup` of the source
unfoldable pub lookup_invite : InviteStore → Bytes → ℕ → Option Invite
lookup_invite s token now = elim (lookup token s.by_token) [
  | none ↦ none
  | some rec ↦ if ltb rec.expires now then none else some rec
]

unfoldable pub mark_consumed :
    InviteStore → Bytes → Bytes → ℕ → Io → InviteStore × Option InviteError
mark_consumed s token user_id now io = elim (lookup token s.by_token) [
  | none ↦ (s, some unknown_invite)
  | some rec ↦
      if rec.consumed
      then (s, some already_used)
      else let used : Invite = record rec {
        consumed = true;
        consumed_at = now;
        user_id = user_id;
      } in
        save (record s { by_token = insert token used s.by_token }) io
]

-- `Delete` of the source
unfoldable pub delete_invite : InviteStore → Bytes → Io → InviteStore × Option InviteError
delete_invite s token io = elim (lookup token s.by_token) [
  | none ↦ (s, some no_invite)
  | some rec ↦ save (record s { by_token = erase token s.by_token }) io
]

-- `List` of the source
unfoldable pub list_invites : InviteStore → Bool → List Invite
unfolding sort_invites collect
list_invites s include_consumed = sort_invites (collect include_consumed s.by_token)

-- The loop of `PendingForName`.
find_pending : Bytes → ℕ → Dict Invite → Option Invite
find_pending target now [] = none
find_pending target now ((token, r) ∷ m) =
    let rest = find_pending target now m in
    if r.consumed || ltb r.expires now
    then rest
    else if to_lower r.name == target
    then some r
    else rest

unfoldable pending_for_name : InviteStore → Bytes → ℕ → Option Invite
unfolding find_pending
pending_for_name s name now = find_pending (to_lower (trim_space name)) now s.by_token
