-- ===== src/Client/Start.antt =====
-- What a tunnel of the client is started with: `cmdHTTP` and `resolveLANFlag` of cmd/mygrok/main.go
-- and `cmdMCP` of cmd/mygrok/mcp.go, up to the first dial. Package flag, net and strconv and the
-- network interfaces are the parameter `Libs`.
pub mod Gated
use mygrok.Base.{
  ℕ, Bool, true, false, not, List, [], ◌∷◌, ◌++◌, Option, none, some, Bytes, codes, ◌==◌, eqb,
  if◌then◌else◌, trim_space, has_prefix,
}
use mygrok.Base.Error.{Result, ok, err, ◌>>=◌}
use mygrok.Client.Args.{scan_flag, extract_flag, extract_bool_flag, split_csv, first_positional}
use mygrok.Client.Auth.{
  AuthError, resolve_basic_auth, parse_basic_auth_flag, LanConflict, check_lan_compatibility,
}
use mygrok.Client.Config.{Config, Env, resolve_server, resolve_auth, require_server}
use mygrok.Client.Mcp.{SecretError, resolve_mcp_secret}

-- The flags of `mygrok http`.
pub record HttpFlags : Type 0 where
  pub subdomain : Bytes
  pub server : Bytes
  pub auth : Bytes
  pub host : Bytes
  pub basic_auth : Bytes
  pub hostnames : Bytes
  pub lan : Bytes
  pub lan_port : ℕ

-- An address: To4() is not nil, IsPrivate() and String().
pub record LanAddr : Type 0 where
  pub is4 : Bool
  pub is_private : Bool
  pub text : Bytes

-- `parse_flags` takes the defaults; `pick_lan_ip` is empty where no interface fits.
pub record Libs : Type 0 where
  pub parse_flags : HttpFlags → List Bytes → Option HttpFlags
  pub itoa : ℕ → Bytes
  pub encode : Bytes → Bytes
  pub parse_ip : Bytes → Option LanAddr
  pub pick_lan_ip : Bytes
  pub join_host_port : Bytes → Bytes → Bytes

pub data StartFault : Type 0 where
  bad_flags no_port no_subdomain no_token no_server : StartFault
  no_lan_ip lan_not_ipv4 lan_not_private : StartFault
  bad_basic_auth : AuthError → StartFault
  conflict : LanConflict → StartFault
  bad_secret : SecretError → StartFault

-- The arguments of `runReconnectLoop`, with the header that the gate expects.
pub record Tunnelling : Type 0 where
  pub server : Bytes
  pub token : Bytes
  pub subdomain : Bytes
  pub target : Bytes
  pub hostnames : List Bytes
  pub lan_ip : Bytes
  pub lan_port : ℕ
  pub basic_auth : Bytes

abbrev pub loopback : Bytes
loopback = codes "127.0.0.1"

-- The defaults of the flags, from the file and the environment.
unfoldable pub default_flags : Env → Option Config → HttpFlags
default_flags env cfg = record {
  subdomain = elim cfg as (λ _. Bytes) [ none ↦ [] | some c ↦ c.subdomain ];
  server = resolve_server env cfg;
  auth = resolve_auth env cfg;
  host = elim cfg as (λ _. Bytes) [
    | none ↦ loopback
    | some c ↦ if c.host == [] then loopback else c.host
  ];
  basic_auth = [];
  hostnames = [];
  lan = [];
  lan_port = 8443;
}

module _ (L : Libs) where
  unfoldable pub resolve_lan_flag : Bytes → Result StartFault Bytes
  resolve_lan_flag flag =
      let v = trim_space flag in
      if v == []
      then ok []
      else if v == codes "auto"
      then if L.pick_lan_ip == [] then err no_lan_ip else ok L.pick_lan_ip
      else elim (L.parse_ip v) [
        | none ↦ err lan_not_ipv4
        | some a ↦
            if not a.is4
            then err lan_not_ipv4
            else if a.is_private
            then ok a.text
            else err lan_not_private
      ]

  -- The port of the arguments, or that of the file.
  unfoldable pub port_of : Option Config → Bytes → Bytes
  port_of cfg port = elim cfg as (λ _. Bytes) [
    | none ↦ port
    | some c ↦ if port == [] then (if eqb c.port 0 then [] else L.itoa c.port) else port
  ]

  -- The header that basic authentication expects.
  unfoldable pub expected_of : Bytes → Bytes → Result StartFault Bytes
  expected_of flag env = elim (parse_basic_auth_flag L.encode (resolve_basic_auth flag env)) [
    | err e ↦ err (bad_basic_auth e)
    | ok h ↦ ok h
  ]

  -- The end of `cmdHTTP`, from the basic authentication on.
  unfoldable pub tunnelling : Bytes → Bytes → HttpFlags → Bytes → Result StartFault Tunnelling
  tunnelling basic_env mcp flags port = do
    expected ← expected_of flags.basic_auth basic_env
    lan_ip ← resolve_lan_flag flags.lan
    elim (check_lan_compatibility lan_ip expected mcp) [
      | some e ↦ err (conflict e)
      | none ↦ elim (require_server flags.server) [
        | none ↦ err no_server
        | some server ↦ ok (record {
          server = server;
          token = flags.auth;
          subdomain = flags.subdomain;
          target = L.join_host_port flags.host port;
          hostnames = split_csv flags.hostnames;
          lan_ip = lan_ip;
          lan_port = flags.lan_port;
          basic_auth = expected;
        })
      ]
    ]

  -- `cmdHTTP`; `basic_env` is MYGROK_BASIC_AUTH, and `mcp` the token that `cmdMCP` has set.
  unfoldable pub cmd_http :
      Env → Option Config → Bytes → Bytes → List Bytes → Result StartFault Tunnelling
  unfolding port_of tunnelling
  cmd_http env cfg basic_env mcp args =
      let (port, rest) = first_positional args [] in
      elim (L.parse_flags (default_flags env cfg) rest) [
        | none ↦ err bad_flags
        | some flags ↦
            if port_of cfg port == []
            then err no_port
            else if flags.subdomain == []
            then err no_subdomain
            else if flags.auth == []
            then err no_token
            else tunnelling basic_env mcp flags (port_of cfg port)
      ]

-- A tunnel with the gate of `mygrok mcp`.
pub record McpTunnel : Type 0 where
  pub secret : Bytes
  pub strip : Bool
  pub connector_path : Bytes
  pub tunnel : Tunnelling

abbrev pub mcp_path : Bytes → Bytes
mcp_path path =
    if path == []
    then codes "/mcp"
    else if has_prefix path (codes "/")
    then path
    else codes "/" ++ path

-- The subdomain whose token is used: the argument, or that of the file.
unfoldable pub mcp_subdomain : Option Config → List Bytes → Bytes
mcp_subdomain cfg args =
    let given = scan_flag args (codes "--subdomain") in
    if given == [] then (elim cfg as (λ _. Bytes) [ none ↦ [] | some c ↦ c.subdomain ]) else given

module _ (L : Libs) where
  -- `cmdMCP`: the file of the token afterwards, and what is started. `random`, `writes` and `file` are
  -- those of `resolveMCPSecret`.
  unfoldable pub cmd_mcp :
      Env
      → Option Config
      → Bytes
      → Option Bytes
      → Bool
      → Option Bytes
      → List Bytes
      → Option Bytes × Result StartFault McpTunnel
  cmd_mcp env cfg basic_env random writes file args =
      let (explicit, rest) = extract_flag args (codes "--secret") [] in
      let (no_strip, rest2) = extract_bool_flag rest (codes "--no-strip") false in
      let (path, rest3) = extract_flag rest2 (codes "--path") [] in
      let sub = mcp_subdomain cfg rest3 in
      let (kept, r) = resolve_mcp_secret sub explicit random writes file in
      if sub == [] then (file, err no_subdomain) else elim r [
        | err e ↦ (kept, err (bad_secret e))
        | ok secret ↦ elim (cmd_http L env cfg basic_env secret rest3) [
          | err e ↦ (kept, err e)
          | ok t ↦ (
            kept,
            ok (record {
              secret = secret;
              strip = not no_strip;
              connector_path = codes "/" ++ (secret ++ mcp_path path);
              tunnel = t;
            }),
          )
        ]
      ]
