-- ===== src/Client/Config/Trusted.antt =====
-- Where an update comes from, `configIsTrusted` of cmd/mygrok/config.go and `cmdUpdate` of update.go.
use mygrok.Base.{◌≡◌, false, [], Option, none, some, Bytes, ◌==◌, eq_refl, arith}
use mygrok.Client.Config.{Config, Env, UpdateFlags, config_is_trusted, update_url}

-- A configuration file that is neither the one that the user named nor the user's own has no say in
-- where an update is downloaded from: the address is what it would be with no file at all.
pub update_url_untrusted :
    (host_of : Bytes → Bytes) (platform : Bytes) (env : Env) (global path explicit : Bytes)
    (cfg : Option Config) (flags : UpdateFlags)
    → (path == explicit) ≡ false
    → (path == global) ≡ false
    → update_url host_of platform env (some global) path explicit cfg flags
      ≡ update_url host_of platform env (some global) [] explicit none flags
unfolding update_url config_is_trusted
update_url_untrusted host_of platform env global path explicit cfg flags other foreign =
    ground (arith, eq_refl [])
