-- ===== src/Tests/Client.antt =====
-- The client with a token, credentials and a dropped connection.
use mygrok.Base.{
  ◌≡◌, ◌↔◌, ◌*◌, refl, true, false, List, [], ◌∷◌, codes, ◌==◌, none, some, All, arith,
}
use mygrok.Base.Pieces.{lacks}
use mygrok.Client.Mcp.{mcp_gate}
use mygrok.Client.Mcp.Gate.{IsThrough, mcp_gate_iff}
use mygrok.Client.Proxy.{Gates, HttpRequest, Local, proxy_to_local}
use mygrok.Client.Proxy.Served.{IsServed, proxy_to_local-IsServed}
use mygrok.Client.Reconnect.{second, Session, delays}
use mygrok.Client.Reconnect.Delays.{IsDelay, Fits, attempts, delays_bounded}
use mygrok.Client.Config.{Config, Env, UpdateFlags, update_url}
use mygrok.Client.Config.Trusted.{update_url_untrusted}

token : (codes "s3cret" == []) ≡ false
unfolding ◌==◌
token = refl

no_slash : lacks b'/' (codes "s3cret") ≡ true
no_slash = refl

mcp_gate_iff_example :
    (mcp_gate (codes "/s3cret/mcp") (codes "s3cret") ≡ some (codes "/mcp"))
    ↔ IsThrough (codes "/s3cret/mcp") (codes "s3cret") (codes "/mcp")
mcp_gate_iff_example = mcp_gate_iff (codes "/s3cret/mcp") (codes "s3cret") token no_slash

abbrev gates : Gates
gates = record { mcp_secret = codes "s3cret"; mcp_strip = true; basic_auth = [] }

abbrev stream : List (HttpRequest × Local)
stream =
    (
      record {
        path = codes "/s3cret/mcp";
        uri = codes "/s3cret/mcp";
        authorization = [];
        upgrade = false;
      },
      record { dials = true; takes = true; status = some 200; writes = true },
    )
    ∷ (
      record { path = codes "/mcp"; uri = codes "/mcp"; authorization = []; upgrade = false },
      record { dials = true; takes = true; status = some 200; writes = true },
    )
    ∷ []

proxy_to_local-IsServed_example : All (IsServed gates) (proxy_to_local gates stream)
proxy_to_local-IsServed_example = proxy_to_local-IsServed gates stream

abbrev dropped : Session
dropped = record { ran = 5 * second; error = codes "eof"; jitter_short = 7; jitter_long = 9 }

delays_bounded_example :
    All IsDelay (delays 1 (dropped ∷ dropped ∷ [])) × All Fits (attempts 1 (dropped ∷ dropped ∷ []))
delays_bounded_example = delays_bounded (dropped ∷ dropped ∷ []) (omega arith) (
  record { short = omega arith; long = omega arith },
  (record { short = omega arith; long = omega arith }, tt),
)

abbrev env : Env
env = record {
  mygrok_server = [];
  mygrok_authtoken = [];
  token_file = [];
  default_server = codes "tunnel.tun.io:7000";
}

abbrev cloned : Config
cloned = record {
  subdomain = [];
  port = 0;
  host = [];
  server = codes "evil.example:7000";
  auth = [];
}

abbrev no_flags : UpdateFlags
no_flags = record { server = none; from = [] }

not_named : (codes "/src/.mygrok.toml" == []) ≡ false
unfolding ◌==◌
not_named = refl

not_global : (codes "/src/.mygrok.toml" == codes "/home/a/.mygrok/config.toml") ≡ false
unfolding ◌==◌
not_global = refl

update_url_untrusted_example :
    update_url
      (λ s. s)
      (codes "linux-amd64")
      env
      (some (codes "/home/a/.mygrok/config.toml"))
      (codes "/src/.mygrok.toml")
      []
      (some cloned)
      no_flags
    ≡ update_url
        (λ s. s)
        (codes "linux-amd64")
        env
        (some (codes "/home/a/.mygrok/config.toml"))
        []
        []
        none
        no_flags
update_url_untrusted_example =
    update_url_untrusted (λ s. s) (codes "linux-amd64") env (codes "/home/a/.mygrok/config.toml")
      (codes "/src/.mygrok.toml") [] (some cloned) no_flags not_named not_global
