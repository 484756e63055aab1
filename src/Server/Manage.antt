-- ===== src/Server/Manage.antt =====
-- The state of the management host of cmd/mygrokd, a request to it and the answers, for the
-- handlers of admin.go and auth.go in the modules below. The answers leave out the text of pages.
pub mod Rules
pub mod People
pub mod Ceremony
pub mod Login
pub mod Account
pub mod Redeem
pub mod Dispatch
pub mod Guarded
pub mod Removal
pub mod Own
pub mod Locking
pub mod Returning
pub mod Committed
pub mod Joined
pub mod Entry
use mygrok.Base.{ℕ, Bool, true, false, Option, none, some, Bytes, if◌then◌else◌}
use mygrok.Server.Disk.{Io}
use mygrok.Server.Registry.{Registry}
use mygrok.Server.Acl.{Net, Acl, AclError}
use mygrok.Server.Locks.{Locks, LocksError}
use mygrok.Server.Passkeys.{WebAuthn, PasskeyStore, PasskeyError}
use mygrok.Server.Invites.{InviteStore, InviteError}
use mygrok.Server.Admin.{GoLib, Flags, FormError, AdminSessions, admin_auth_ok}

pub record Host (N : Net) (W : WebAuthn) : Type 0 where
  pub registry : Registry
  pub acl : Acl N
  pub locks : Locks
  pub passkeys : PasskeyStore W
  pub invites : InviteStore
  pub admin : AdminSessions

-- A request: the parts of its first line, its headers and what the connection holds after them.
pub record Request : Type 0 where
  pub method : Bytes
  pub path : Bytes
  pub raw_query : Bytes
  pub raw : Bytes
  pub left : Bytes

-- What the machine brings to one request: the clock, read once; how each write to disk ends; the
-- random texts, or none where reading randomness fails.
pub record Moment : Type 0 where
  pub now : ℕ
  pub io : ℕ → Io
  pub random : ℕ → Bytes
  pub random_id : Option Bytes
  pub clock_id : Bytes

pub data Problem : Type 0 where
  in_form : FormError → Problem
  in_acl : AclError → Problem
  in_locks : LocksError → Problem
  in_invites : InviteError → Problem
  in_passkeys : PasskeyError → Problem
  unknown_op : Bytes → Problem
  name_required invalid_subdomain unknown_user no_credentials no_session user_gone : Problem
  begin_failed no_pending bad_request bad_body bad_credential not_verified mismatch last_passkey :
      Problem

-- `mutated` and `shown` say whether the answer is JSON.
pub data Reply : Type 0 where
  unauthorized cross_site done landing installer icon : Reply
  invalid_link gone used wrong_method not_found : Reply
  binary : Bytes → Reply
  redirect : Bytes → Reply
  login : Bytes → Bytes → Reply
  mutated : Bool → Option Problem → Reply
  shown : Bool → Reply
  failed : Problem → Reply
  challenge : Bytes → Reply
  signed_in : Bytes → Bytes → Reply

module _ {N : Net} {W : WebAuthn} (G : GoLib) (cfg : Flags) where
  -- The test that every admin handler starts with.
  abbrev pub as_admin :
      Host N W → Request → Moment → (Host N W → Host N W × Reply) → Host N W × Reply
  as_admin h req t handler =
      let (sessions, fine) = admin_auth_ok G cfg h.admin req.raw t.now in
      if fine
      then handler (record h { admin = sessions })
      else (record h { admin = sessions }, unauthorized)
