-- ===== src/Server/System.antt =====
-- The server of cmd/mygrokd as a whole: the changes that its requests make to the tables that `main`
-- shares among them, as sequences of calls of the components' methods.
pub mod Admins
pub mod Visitors
pub mod Requests
pub mod Connections
pub mod Kept
pub mod Gone
pub mod Permanent
pub mod Deleted
use mygrok.Base.{
  ℕ, ◌≡◌, refl, ◌⊎◌, Bool, true, false, if◌then◌else◌, List, [], ◌∷◌, ◌++◌, Option, some, Bytes,
}
use mygrok.Server.Disk.{Io}
use mygrok.Server.Registry.{Registry}
use mygrok.Server.Registry.Reach as Tunnels
use mygrok.Server.Acl.{Net, Acl}
use mygrok.Server.Acl.Sound as Rules
use mygrok.Server.Locks.{Locks, grant, revoke, unlock, revoke_user_across_tunnels}
use mygrok.Server.Passkeys.{WebAuthn, UserRecord, PasskeyStore}
use mygrok.Server.Passkeys.Store.{
  has_user, create_user, delete_user, add_credential, delete_credential, update_credential,
  credential_user_id,
}
use mygrok.Server.Passkeys.Sessions.{
  issue_registration, consume_registration, issue_login, consume_login, issue_auth_session,
  session_user, revoke_session, revoke_user_sessions,
}
use mygrok.Server.Invites.{Invite, InviteStore, issue, mark_consumed, delete_invite}
use mygrok.Server.Admin.{GoLib, Flags, AdminSessions, admin_auth_ok, issue as start_session}
use mygrok.Server.Manage.{Host, Moment, Reply}
use mygrok.Server.Manage.Ceremony.{Ceremony}
use mygrok.Server.Manage.People.{drop_empty_user}
use mygrok.Server.Manage.Redeem.{stashed, join_user}

-- The text that a registration keeps: none, or the token of an invite with the id of a new user.
abbrev pub IsStash : (Bytes → Type 0) → Bytes → Type 0
IsStash Fresh stash =
    (stash ≡ []) ⊎ ((token : Bytes) × (id : Bytes) × (stash ≡ token ++ b'|' ∷ id) × Fresh id)

-- The calls on the passkey store. `Fresh` is what the random ids of new users satisfy.
pub data StoreCall {W : WebAuthn} (C : Ceremony W) (Fresh : Bytes → Type 0) (s : PasskeyStore W)
    : PasskeyStore W → Type 0 where
  creates :
      (name id : Bytes) (now : ℕ) (io : Io)
      → Fresh id
      → StoreCall C Fresh s (create_user W s name id now io).0
  deletes : (uid : Bytes) (io : Io) → StoreCall C Fresh s (delete_user W s uid io).0
  adds :
      (uid label : Bytes) (c : W.Credential) (now : ℕ) (io : Io)
      → StoreCall C Fresh s (add_credential W s uid label c now io).0
  drops : (id : Bytes) (io : Io) → StoreCall C Fresh s (delete_credential W s id io).0
  updates :
      (c : W.Credential) (now : ℕ) (io : Io) → StoreCall C Fresh s (update_credential W s c now io)
  begins :
      (d : W.SessionData) (stash sid : Bytes) (now : ℕ)
      → IsStash Fresh stash
      → StoreCall C Fresh s (issue_registration W s d stash sid now)
  consumes : (sid : Bytes) (now : ℕ) → StoreCall C Fresh s (consume_registration W s sid now).0
  joins :
      (rec : Invite) (sid id stash : Bytes) (d : W.SessionData) (now : ℕ) (t : Moment)
      → (consume_registration W s sid now).1 ≡ some (d, stash)
      → stashed rec stash ≡ some id
      → StoreCall C Fresh s (join_user C (consume_registration W s sid now).0 rec id d t)
  begins_login :
      (d : W.SessionData) (return_url sid : Bytes) (now : ℕ)
      → StoreCall C Fresh s (issue_login W s d return_url sid now)
  consumes_login : (sid : Bytes) (now : ℕ) → StoreCall C Fresh s (consume_login W s sid now).0
  enters :
      (raw sid : Bytes) (now : ℕ)
      → StoreCall C Fresh s (issue_auth_session W s (credential_user_id W s raw) sid now)
  welcomes :
      (uid sid : Bytes) (now : ℕ)
      → has_user uid s.users ≡ true
      → StoreCall C Fresh s (issue_auth_session W s uid sid now)
  reads : (sid : Bytes) (now : ℕ) → StoreCall C Fresh s (session_user W s sid now).0
  leaves : (sid : Bytes) → StoreCall C Fresh s (revoke_session W s sid)
  ends : (uid : Bytes) → StoreCall C Fresh s (revoke_user_sessions W s uid)

-- The calls on the passkey lists; only a known user is put on one.
pub data ListCall (us : List UserRecord) (l : Locks) : Locks → Type 0 where
  grants :
      (sub uid : Bytes) (io : Io) → has_user uid us ≡ true → ListCall us l (grant l sub uid io).0
  grants_nobody : (sub : Bytes) (io : Io) → ListCall us l (grant l sub [] io).0
  revokes : (sub uid : Bytes) (io : Io) → ListCall us l (revoke l sub uid io).0
  unlocks : (sub : Bytes) (io : Io) → ListCall us l (unlock l sub io).0
  strips : (uid : Bytes) (io : Io) → ListCall us l (revoke_user_across_tunnels l uid io).0
  tidies : (sub : Bytes) → ListCall us l (drop_empty_user l sub)

-- The calls on the invites.
pub data InviteCall (s : InviteStore) : InviteStore → Type 0 where
  invites :
      (name token : Bytes) (now then_now : ℕ) (io : Io)
      → InviteCall s (issue s name token now then_now io).0
  uses : (token uid : Bytes) (now : ℕ) (io : Io) → InviteCall s (mark_consumed s token uid now io).0
  withdraws : (token : Bytes) (io : Io) → InviteCall s (delete_invite s token io).0

-- The calls on the sessions of admins: the test of a request, and a new session.
pub data AdminCall (a : AdminSessions) : AdminSessions → Type 0 where
  checks :
      (G : GoLib) (cfg : Flags) (raw : Bytes) (now : ℕ)
      → AdminCall a (admin_auth_ok G cfg a raw now).0
  starts :
      (id : Option Bytes) (fallback : Bytes) (now : ℕ)
      → AdminCall a (start_session a id fallback now).0

-- A call on one of the tables.
pub data Call {N : Net} {W : WebAuthn} (C : Ceremony W) (Fresh : Bytes → Type 0) (h : Host N W)
    : Host N W → Type 0 where
  on_tunnels :
      (r : Registry) → Tunnels.Step h.registry r → Call C Fresh h (record h { registry = r })
  on_rules : (a : Acl N) → Rules.Step h.acl a → Call C Fresh h (record h { acl = a })
  on_lists :
      (l : Locks) → ListCall h.passkeys.users h.locks l → Call C Fresh h (record h { locks = l })
  on_store :
      (s : PasskeyStore W)
      → StoreCall C Fresh h.passkeys s
      → Call C Fresh h (record h { passkeys = s })
  on_invites :
      (i : InviteStore) → InviteCall h.invites i → Call C Fresh h (record h { invites = i })
  on_admins : (a : AdminSessions) → AdminCall h.admin a → Call C Fresh h (record h { admin = a })

-- Calls one after another.
pub data Calls {N : Net} {W : WebAuthn} (C : Ceremony W) (Fresh : Bytes → Type 0) (h : Host N W)
    : Host N W → Type 0 where
  nothing : Calls C Fresh h h
  and_then : {k m : Host N W} → Calls C Fresh h k → Call C Fresh k m → Calls C Fresh h m

-- The calls of a handler, with its answer.
pub record Does {N : Net} {W : WebAuthn} (C : Ceremony W) (Fresh : Bytes → Type 0) (h : Host N W)
    (x : Host N W × Reply) : Type 0 where
  pub calls : Calls C Fresh h x.0

module _ {N : Net} {W : WebAuthn} {C : Ceremony W} {Fresh : Bytes → Type 0} where
  pub Calls-append : {h k m : Host N W} → Calls C Fresh h k → Calls C Fresh k m → Calls C Fresh h m
  Calls-append p nothing = p
  Calls-append p (and_then q c) = and_then (Calls-append p q) c

  pub one : {h k : Host N W} → Call C Fresh h k → Calls C Fresh h k
  one c = and_then nothing c

  pub stop : {h : Host N W} (r : Reply) → Does C Fresh h (h, r)
  stop r = record { calls = nothing }

  pub last : {h k : Host N W} {r : Reply} → Call C Fresh h k → Does C Fresh h (k, r)
  last c = record { calls = one c }

  pub before :
      {h k : Host N W} {x : Host N W × Reply}
      → Calls C Fresh h k
      → Does C Fresh k x
      → Does C Fresh h x
  before p d = record { calls = Calls-append p d.calls }

  -- The two branches of a test.
  pub branch :
      {h : Host N W} (b : Bool) {x y : Host N W × Reply}
      → (b ≡ true → Does C Fresh h x)
      → (b ≡ false → Does C Fresh h y)
      → Does C Fresh h (if b then x else y)
  branch true p q = p refl
  branch false p q = q refl

  -- The test that every admin handler starts with.
  pub gate :
      {h : Host N W} {sessions : AdminSessions} {x : Host N W × Reply}
      → AdminCall h.admin sessions
      → (b : Bool) (r : Reply) → Does C Fresh (record h { admin = sessions }) x
      → Does C Fresh h (if b then x else (record h { admin = sessions }, r))
  gate {h} {sessions} c b r d =
      branch b (λ e. before (one (on_admins sessions c)) d) (λ e. last (on_admins sessions c))
