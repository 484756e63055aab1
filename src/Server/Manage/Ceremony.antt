-- ===== src/Server/Manage/Ceremony.antt =====
-- What the handlers of cmd/mygrokd/auth.go ask of go-webauthn and of the request parser.
use mygrok.Base.{ℕ, Bool, List, Option, Bytes}
use mygrok.Base.Error.{Result}
use mygrok.Server.Passkeys.{WebAuthn}
use mygrok.Server.Manage.{Problem}

-- `pkUser`: the handle, the name and the credentials.
abbrev pub PkUser : WebAuthn → Type 0
PkUser W = Bytes × Bytes × List W.Credential

-- The challenge of a ceremony is the text that goes to the browser. `read_body` is the parsing of
-- the request and of its JSON, to the label and the text of the credential; `expires` is the field
-- of the session data.
pub record Ceremony (W : WebAuthn) : Type 0 where
  pub begin_login : Option (W.SessionData × Bytes)
  pub begin_registration : Option (PkUser W) → Option (W.SessionData × Bytes)
  pub parses : Bytes → Bytes → Bool
  pub finish_login :
      (Bytes → Bytes → Option (PkUser W)) → W.SessionData → Bytes → Bytes → Option W.Credential
  pub read_body : Bytes → Bytes → Result Problem (Bytes × Bytes)
  pub create_credential : Option (PkUser W) → W.SessionData → Bytes → Result Problem W.Credential
  pub expires : W.SessionData → ℕ
