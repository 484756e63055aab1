-- ===== src/Client/Start/Gated.antt =====
-- What holds of every tunnel that the client starts.
use mygrok.Base.{
  ◌≡◌, refl, Bool, true, false, ◌&&◌, ◌||◌, List, [], Option, none, some, Bytes, codes, ◌==◌, arith,
  Bool-cases, Option-cases, inl, inr,
}
use mygrok.Base.Error.{ok, Result-cases}
use mygrok.Client.Args.{extract_flag, extract_bool_flag, first_positional}
use mygrok.Client.Auth.{check_lan_compatibility}
use mygrok.Client.Config.{Config, Env, require_server}
use mygrok.Client.Mcp.{write_secret, fresh_secret, resolve_mcp_secret}
use mygrok.Client.Start.{
  HttpFlags, Libs, Tunnelling, default_flags, resolve_lan_flag, port_of, expected_of, tunnelling,
  cmd_http, McpTunnel, mcp_subdomain, cmd_mcp,
}

-- A tunnel with a server, a token and a name; where visitors of the own network may come directly,
-- neither gate is set.
pub record IsGuarded (mcp : Bytes) (t : Tunnelling) : Type 0 where
  pub server : (t.server == []) ≡ false
  pub token : (t.token == []) ≡ false
  pub subdomain : (t.subdomain == []) ≡ false
  pub direct : ((t.lan_ip == []) || ((t.basic_auth == []) && (mcp == []))) ≡ true

check_lan_compatibility-none :
    (lan_ip expected mcp : Bytes)
    → check_lan_compatibility lan_ip expected mcp ≡ none
    → ((lan_ip == []) || ((expected == []) && (mcp == []))) ≡ true
unfolding check_lan_compatibility
check_lan_compatibility-none lan_ip expected mcp e = ground arith

pub require_server-present :
    (server : Bytes) {s : Bytes} → require_server server ≡ some s → (s == []) ≡ false
unfolding require_server
require_server-present server e = ground arith

module _ (L : Libs) where
  tunnelling-IsGuarded :
      (basic_env mcp : Bytes) (flags : HttpFlags) (port : Bytes) {t : Tunnelling}
      → (flags.subdomain == []) ≡ false
      → (flags.auth == []) ≡ false
      → tunnelling L basic_env mcp flags port ≡ ok t
      → IsGuarded mcp t
  unfolding tunnelling
  tunnelling-IsGuarded basic_env mcp flags port n a e =
      elim (Result-cases (expected_of L flags.basic_auth basic_env)) [
        | inl (d, p) ↦ absurd (ground arith)
        | inr (expected, p) ↦ elim (Result-cases (resolve_lan_flag L flags.lan)) [
          | inl (d, q) ↦ absurd (ground arith)
          | inr (lan_ip, q) ↦ elim (Option-cases (check_lan_compatibility lan_ip expected mcp)) [
            | inr (d, u) ↦ absurd (ground arith)
            | inl u ↦ elim (Option-cases (require_server flags.server)) [
              | inl v ↦ absurd (ground arith)
              | inr (server, v) ↦
                  let apart = check_lan_compatibility-none lan_ip expected mcp u in
                  let there = require_server-present flags.server v in
                  record {
                    server = ground arith;
                    token = ground arith;
                    subdomain = ground arith;
                    direct = ground arith;
                  }
            ]
          ]
        ]
      ]

  -- A tunnel that `mygrok http` starts has a server, a token and a subdomain, and where it opens a
  -- listener for the own network, neither basic authentication nor a token of `mygrok mcp` is asked
  -- for.
  pub cmd_http-IsGuarded :
      (env : Env) (cfg : Option Config) (basic_env mcp : Bytes) (args : List Bytes) {t : Tunnelling}
      → cmd_http L env cfg basic_env mcp args ≡ ok t
      → IsGuarded mcp t
  unfolding cmd_http
  cmd_http-IsGuarded env cfg basic_env mcp args e =
      let (port, rest) = first_positional args [] in
      elim (Option-cases (L.parse_flags (default_flags env cfg) rest)) [
        | inl p ↦ absurd (ground arith)
        | inr (flags, p) ↦
            tunnelling-IsGuarded basic_env mcp flags (port_of L cfg port) (ground arith)
              (ground arith) (ground arith)
      ]

write_secret_back :
    (writes : Bool) (x : Bytes) (file : Option Bytes) {s : Bytes}
    → (write_secret writes x file).1 ≡ ok s
    → s ≡ x
unfolding write_secret
write_secret_back writes x file e = ground arith

fresh_secret-present :
    (writes : Bool) (random file : Option Bytes) {s : Bytes}
    → ((r : Bytes) → random ≡ some r → (r == []) ≡ false)
    → (fresh_secret writes random file).1 ≡ ok s
    → (s == []) ≡ false
unfolding fresh_secret
fresh_secret-present writes none file h e = absurd (ground arith)
fresh_secret-present writes (some r) file h e =
    ground (arith, h r refl, write_secret_back writes r file e)

-- A token that is settled is not empty.
pub resolve_mcp_secret-present :
    (sub explicit : Bytes) (random : Option Bytes) (writes : Bool) (file : Option Bytes) {s : Bytes}
    → ((r : Bytes) → random ≡ some r → (r == []) ≡ false)
    → (resolve_mcp_secret sub explicit random writes file).1 ≡ ok s
    → (s == []) ≡ false
unfolding resolve_mcp_secret
resolve_mcp_secret-present sub explicit random writes file {s} h e =
    let given = write_secret_back writes explicit file {s = s} in
    let drawn = fresh_secret-present writes random file {s = s} h in ground (arith, given, drawn)

-- A tunnel behind a token, and not open to the own network.
pub record IsTokenGated (m : McpTunnel) : Type 0 where
  pub secret : (m.secret == []) ≡ false
  pub closed : (m.tunnel.lan_ip == []) ≡ true
  pub guarded : IsGuarded m.secret m.tunnel

module _ (L : Libs) where
  -- A tunnel that `mygrok mcp` starts has a token that is not empty and no listener for the own
  -- network, whatever the flags, the file and the environment say; new tokens are not empty.
  pub cmd_mcp-IsTokenGated :
      (env : Env) (cfg : Option Config) (basic_env : Bytes) (random : Option Bytes) (writes : Bool)
      (file : Option Bytes) (args : List Bytes) {m : McpTunnel}
      → ((r : Bytes) → random ≡ some r → (r == []) ≡ false)
      → (cmd_mcp L env cfg basic_env random writes file args).1 ≡ ok m
      → IsTokenGated m
  unfolding cmd_mcp
  cmd_mcp-IsTokenGated env cfg basic_env random writes file args {m} h e =
      let (explicit, rest) = extract_flag args (codes "--secret") [] in
      let rest2 = (extract_bool_flag rest (codes "--no-strip") false).1 in
      let rest3 = (extract_flag rest2 (codes "--path") []).1 in
      let sub = mcp_subdomain cfg rest3 in
      elim (Bool-cases (sub == [])) [
        | inl p ↦ absurd (ground arith)
        | inr p ↦ elim (Result-cases (resolve_mcp_secret sub explicit random writes file).1) [
          | inl (d, q) ↦ absurd (ground arith)
          | inr (secret, q) ↦ elim (Result-cases (cmd_http L env cfg basic_env secret rest3)) [
            | inl (d, u) ↦ absurd (ground arith)
            | inr (t, u) ↦
                let there = resolve_mcp_secret-present sub explicit random writes file h q in
                let held = cmd_http-IsGuarded L env cfg basic_env secret rest3 u in
                let same : m.secret ≡ secret = ground arith in
                let begun : m.tunnel ≡ t = ground arith in
                record {
                  secret = rw same there;
                  closed = rw begun (ground (arith, there, held.direct));
                  guarded = rw (same, begun) held;
                }
          ]
        ]
      ]
