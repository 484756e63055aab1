-- ===== src/Client/Service/Installed.antt =====
-- What holds of every service that `serviceInstall` of cmd/mygrok/service.go installs.
use mygrok.Base.{
  ◌≡◌, Bool, true, false, not, ◌||◌, List, [], Option, some, Bytes, ◌==◌, any, arith, Bool-cases,
  Option-cases, inl, inr,
}
use mygrok.Base.Error.{ok, Result-cases}
use mygrok.Client.Args.{first_positional}
use mygrok.Client.Auth.{parse_basic_auth_flag}
use mygrok.Client.Config.{Config, Env, require_server}
use mygrok.Client.Mcp.{resolve_mcp_secret}
use mygrok.Client.Names.{valid_service_name}
use mygrok.Client.Service.{SvcSpec}
use mygrok.Client.Start.{Libs, port_of}
use mygrok.Client.Start.Gated.{require_server-present, resolve_mcp_secret-present}
use mygrok.Client.Service.Install.{
  ServiceFlags, is_white, service_defaults, checked_basic_auth, checked_lan, checked_secret,
  checked_server, service_name, spec_of, service_install,
}

-- A service that can run: a valid name, no setting missing, basic authentication on one line, and a
-- token where the gate of `mygrok mcp` is on.
pub record IsInstallable (s : SvcSpec) : Type 0 where
  pub name : valid_service_name s.name ≡ true
  pub port : (s.port == []) ≡ false
  pub subdomain : (s.subdomain == []) ≡ false
  pub token : (s.token == []) ≡ false
  pub server : (s.server == []) ≡ false
  pub one_line : any is_white s.basic_auth ≡ false
  pub secret : (not s.mcp || not (s.mcp_secret == [])) ≡ true

checked_server-present :
    (server : Bytes) {s : Bytes} → checked_server server ≡ ok s → (s == []) ≡ false
unfolding checked_server
checked_server-present server {s} e = elim (Option-cases (require_server server)) [
  | inl p ↦ absurd (ground arith)
  | inr (r, p) ↦ let there = require_server-present server p in ground arith
]

checked_secret-present :
    (flags : ServiceFlags) (random : Option Bytes) (writes : Bool) (file : Option Bytes) {s : Bytes}
    → ((r : Bytes) → random ≡ some r → (r == []) ≡ false)
    → checked_secret flags random writes file ≡ ok s
    → (not flags.mcp || not (s == [])) ≡ true
unfolding checked_secret
checked_secret-present flags random writes file {s} h e = elim (Bool-cases flags.mcp) [
  | inr p ↦ ground arith
  | inl p ↦
      elim (Result-cases (resolve_mcp_secret flags.subdomain flags.secret random writes file).1) [
        | inl (d, q) ↦ absurd (ground arith)
        | inr (r, q) ↦
            let there =
              resolve_mcp_secret-present flags.subdomain flags.secret random writes file h q in
            ground arith
      ]
]

module _ (L : Libs) where
  checked_basic_auth-white :
      (flag : Bytes) {b : Bytes} → checked_basic_auth L flag ≡ ok b → any is_white b ≡ false
  unfolding checked_basic_auth
  checked_basic_auth-white flag {b} e = elim (Bool-cases (flag == [])) [
    | inl p ↦ ground arith
    | inr p ↦ elim (Result-cases (parse_basic_auth_flag L.encode flag)) [
      | inl (d, q) ↦ absurd (ground arith)
      | inr (h, q) ↦ ground arith
    ]
  ]

  spec_of-IsInstallable :
      (binary : Bytes) (random : Option Bytes) (writes : Bool) (file : Option Bytes)
      (flags : ServiceFlags) (port : Bytes) {s : SvcSpec}
      → ((r : Bytes) → random ≡ some r → (r == []) ≡ false)
      → (port == []) ≡ false
      → (flags.subdomain == []) ≡ false
      → (flags.auth == []) ≡ false
      → valid_service_name (service_name flags) ≡ true
      → spec_of L binary random writes file flags port ≡ ok s
      → IsInstallable s
  unfolding spec_of
  spec_of-IsInstallable binary random writes file flags port h n d a v e =
      elim (Result-cases (checked_basic_auth L flags.basic_auth)) [
        | inl (x, p) ↦ absurd (ground arith)
        | inr (basic_auth, p) ↦ elim (Result-cases (checked_lan L flags.lan)) [
          | inl (x, q) ↦ absurd (ground arith)
          | inr (lan, q) ↦ elim (Result-cases (checked_secret flags random writes file)) [
            | inl (x, r) ↦ absurd (ground arith)
            | inr (secret, r) ↦ elim (Result-cases (checked_server flags.server)) [
              | inl (x, u) ↦ absurd (ground arith)
              | inr (server, u) ↦
                  let line = checked_basic_auth-white flags.basic_auth p in
                  let gate = checked_secret-present flags random writes file h r in
                  let there = checked_server-present flags.server u in
                  record {
                    name = ground arith;
                    port = ground arith;
                    subdomain = ground arith;
                    token = ground arith;
                    server = ground arith;
                    one_line = ground arith;
                    secret = ground arith;
                  }
            ]
          ]
        ]
      ]

  -- A service that is installed has a valid name, a port, a subdomain, a token and a server, its basic
  -- authentication has no white space, and behind the gate of `mygrok mcp` it has a token; new tokens
  -- are not empty.
  pub service_install-IsInstallable :
      (parse : ServiceFlags → List Bytes → Option ServiceFlags) (env : Env) (cfg : Option Config)
      (binary : Bytes) (random : Option Bytes) (writes : Bool) (file : Option Bytes)
      (args : List Bytes) {s : SvcSpec}
      → ((r : Bytes) → random ≡ some r → (r == []) ≡ false)
      → service_install L parse env cfg binary random writes file args ≡ ok s
      → IsInstallable s
  unfolding service_install
  service_install-IsInstallable parse env cfg binary random writes file args h e =
      let (port, rest) = first_positional args [] in
      elim (Option-cases (parse (service_defaults env cfg) rest)) [
        | inl p ↦ absurd (ground arith)
        | inr (flags, p) ↦
            spec_of-IsInstallable binary random writes file flags (port_of L cfg port) h
              (ground arith) (ground arith) (ground arith) (ground arith) (ground arith)
      ]
