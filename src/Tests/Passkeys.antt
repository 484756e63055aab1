-- ===== src/Tests/Passkeys.antt =====
-- Sessions and credentials.
use mygrok.Base.{◌≡◌, refl, true, false, [], ◌∷◌, codes, ◌==◌, none}
use mygrok.Server.Passkeys.{PasskeyStore}
use mygrok.Server.Passkeys.Store.{has_user}
use mygrok.Tests.Data.{texts}

-- Ann, with one credential and one login session.
abbrev pub store : PasskeyStore texts
store = record {
  path = [];
  users = record { id = codes "u1"; name = codes "Ann"; created = 0 } ∷ [];
  credentials =
      record {
        id = codes "6b31";
        user_id = codes "u1";
        label = [];
        created = 0;
        last_used = 0;
        credential = codes "k1";
      }
      ∷ [];
  reg_sessions = [];
  login_sessions = [];
  auth_sessions = (codes "s1", record { user_id = codes "u1"; expires = 100 }) ∷ [];
  disk = none;
}

present : (codes "s2" == []) ≡ false
unfolding ◌==◌
present = refl

ann : (codes "u1" == []) ≡ false
unfolding ◌==◌
ann = refl

known : has_user (codes "u1") store.users ≡ true
unfolding ◌==◌
known = refl
