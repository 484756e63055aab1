-- ===== src/Server/Passkeys.antt =====
-- Users, credentials and sessions of cmd/mygrokd/passkeys.go: `passkeyStore` and its methods. Each
-- method holds the mutex throughout, so it is one function of the state; the file at `path` is part
-- of the state. Time is a number of nanoseconds and random identifiers are arguments. The types of
-- the webauthn library and its decoder of identifiers are a parameter.
pub mod Store
pub mod Sessions
pub mod Owners
pub mod Deletion
pub mod Expiry
use mygrok.Base.{ℕ, ◌*◌, ◌^◌, Bool, List, Option, none, Bytes, codes}
use mygrok.Base.Dict.{Dict}
use mygrok.Server.Disk.{SaveError}

-- What the store uses of go-webauthn and encoding/base64.
pub record WebAuthn : Type 1 where
  pub Credential : Type 0
  pub SessionData : Type 0
  pub raw_id : Credential → Bytes
  pub decode : Bytes → Option Bytes

pub record UserRecord : Type 0 where
  pub id : Bytes
  pub name : Bytes
  pub created : ℕ

pub record StoredCredential (W : WebAuthn) : Type 0 where
  pub id : Bytes
  pub user_id : Bytes
  pub label : Bytes
  pub created : ℕ
  pub last_used : ℕ
  pub credential : W.Credential

pub record PasskeyFile (W : WebAuthn) : Type 0 where
  pub users : List UserRecord
  pub credentials : List (StoredCredential W)
  pub legacy_user_id : Bytes

pub record AuthSession : Type 0 where
  pub user_id : Bytes
  pub expires : ℕ

-- A pending registration or login.
pub record Pending (W : WebAuthn) : Type 0 where
  pub session_data : W.SessionData
  pub expires : ℕ
  pub return_url : Bytes
  pub invite_token : Bytes

pub record PasskeyStore (W : WebAuthn) : Type 0 where
  pub path : Bytes
  pub users : List UserRecord
  pub credentials : List (StoredCredential W)
  pub reg_sessions : Dict (Pending W)
  pub login_sessions : Dict (Pending W)
  pub auth_sessions : Dict AuthSession
  pub disk : Option (PasskeyFile W)

pub data PasskeyError : Type 0 where
  no_user no_credential unknown_user : Bytes → PasskeyError
  already_registered : PasskeyError
  not_saved : SaveError → PasskeyError

abbrev pub second : ℕ
second = 10 ^ 9

abbrev pub pk_session_ttl : ℕ
pk_session_ttl = 24 * 3600 * second

abbrev pub pk_pending_ttl : ℕ
pk_pending_ttl = 5 * 60 * second

abbrev pub legacy_user_name : Bytes
legacy_user_name = codes "owner"
