-- ===== src/Client/Service/Install.antt =====
-- `serviceInstall` of cmd/mygrok/service.go up to the files, with the URLs that it prints.
use mygrok.Base.{
  ℕ, Bool, false, not, ◌||◌, List, [], ◌∷◌, ◌++◌, Option, none, some, Bytes, codes, ◌==◌, eqb, any,
  if◌then◌else◌,
}
use mygrok.Base.Error.{Result, ok, err, ◌>>=◌}
use mygrok.Client.Args.{first_positional}
use mygrok.Client.Auth.{AuthError, parse_basic_auth_flag}
use mygrok.Client.Config.{Config, Env, require_server, public_host_for}
use mygrok.Client.Mcp.{SecretError, resolve_mcp_secret}
use mygrok.Client.Names.{valid_service_name}
use mygrok.Client.Service.{SvcSpec}
use mygrok.Client.Start.{Libs, StartFault, default_flags, resolve_lan_flag, port_of}

-- The flags of `mygrok service install`.
pub record ServiceFlags : Type 0 where
  pub subdomain : Bytes
  pub name : Bytes
  pub server : Bytes
  pub auth : Bytes
  pub host : Bytes
  pub basic_auth : Bytes
  pub hostnames : Bytes
  pub lan : Bytes
  pub lan_port : ℕ
  pub mcp : Bool
  pub secret : Bytes
  pub no_strip : Bool
  pub path : Bytes

pub data InstallFault : Type 0 where
  bad_flags no_port no_subdomain no_token no_server whitespace only_with_mcp : InstallFault
  bad_name : Bytes → InstallFault
  bad_basic_auth : AuthError → InstallFault
  bad_lan : StartFault → InstallFault
  bad_secret : SecretError → InstallFault

-- The bytes of " \t\n\r".
unfoldable pub is_white : ℕ → Bool
is_white c = eqb c 32 || (eqb c 9 || (eqb c 10 || eqb c 13))

-- The defaults of the flags, those of `mygrok http` and the fixed ones.
unfoldable pub service_defaults : Env → Option Config → ServiceFlags
unfolding default_flags
service_defaults env cfg =
    let d = default_flags env cfg in
    record {
      subdomain = d.subdomain;
      name = [];
      server = d.server;
      auth = d.auth;
      host = d.host;
      basic_auth = [];
      hostnames = [];
      lan = [];
      lan_port = 8443;
      mcp = false;
      secret = [];
      no_strip = false;
      path = codes "/mcp";
    }

module _ (L : Libs) where
  unfoldable pub checked_basic_auth : Bytes → Result InstallFault Bytes
  checked_basic_auth flag =
      if flag == [] then ok [] else elim (parse_basic_auth_flag L.encode flag) [
        | err e ↦ err (bad_basic_auth e)
        | ok h ↦ if any is_white flag then err whitespace else ok flag
      ]

  unfoldable pub checked_lan : Bytes → Result InstallFault Bytes
  checked_lan flag = elim (resolve_lan_flag L flag) [ err e ↦ err (bad_lan e) | ok ip ↦ ok ip ]

-- The token of `mygrok mcp`, empty without `--mcp`.
unfoldable pub checked_secret :
    ServiceFlags → Option Bytes → Bool → Option Bytes → Result InstallFault Bytes
checked_secret flags random writes file =
    if flags.mcp
    then elim (resolve_mcp_secret flags.subdomain flags.secret random writes file).1 [
      | err e ↦ err (bad_secret e)
      | ok s ↦ ok s
    ]
    else if not (flags.secret == []) || flags.no_strip
    then err only_with_mcp
    else ok []

unfoldable pub checked_server : Bytes → Result InstallFault Bytes
checked_server server = elim (require_server server) [ none ↦ err no_server | some s ↦ ok s ]

abbrev pub service_name : ServiceFlags → Bytes
service_name flags = if flags.name == [] then flags.subdomain else flags.name

module _ (L : Libs) where
  -- From the basic authentication on.
  unfoldable pub spec_of :
      Bytes
      → Option Bytes
      → Bool
      → Option Bytes
      → ServiceFlags
      → Bytes
      → Result InstallFault SvcSpec
  spec_of binary random writes file flags port = do
    basic_auth ← checked_basic_auth L flags.basic_auth
    lan ← checked_lan L flags.lan
    secret ← checked_secret flags random writes file
    server ← checked_server flags.server
    ok (record {
      name = service_name flags;
      subdomain = flags.subdomain;
      port = port;
      server = server;
      token = flags.auth;
      binary = binary;
      local_host = flags.host;
      basic_auth = basic_auth;
      hostnames = flags.hostnames;
      lan = lan;
      lan_port = flags.lan_port;
      mcp = flags.mcp;
      mcp_secret = secret;
      mcp_no_strip = flags.no_strip;
      mcp_path = flags.path;
    })

  -- `serviceInstall`; `parse` is package flag and `binary` the path of the program.
  unfoldable pub service_install :
      (ServiceFlags → List Bytes → Option ServiceFlags)
      → Env
      → Option Config
      → Bytes
      → Option Bytes
      → Bool
      → Option Bytes
      → List Bytes
      → Result InstallFault SvcSpec
  service_install parse env cfg binary random writes file args =
      let (port, rest) = first_positional args [] in
      elim (parse (service_defaults env cfg) rest) [
        | none ↦ err bad_flags
        | some flags ↦
            if port_of L cfg port == []
            then err no_port
            else if flags.subdomain == []
            then err no_subdomain
            else if flags.auth == []
            then err no_token
            else if not (valid_service_name (service_name flags))
            then err (bad_name (service_name flags))
            else spec_of binary random writes file flags (port_of L cfg port)
      ]

-- `publicURL` and the URL of `printMCPConnectorURL`.
unfoldable pub public_url : (Bytes → Option Bytes) → (Bytes → Bool) → SvcSpec → Bytes
public_url split_host_port is_ip s =
    let zone = public_host_for split_host_port is_ip s.server in
    codes "https://"
    ++ (s.subdomain ++ (if zone == [] then codes ".<your-domain>" else b'.' ∷ zone))

unfoldable pub mcp_connector_url : (Bytes → Option Bytes) → (Bytes → Bool) → SvcSpec → Option Bytes
unfolding public_url
mcp_connector_url split_host_port is_ip s =
    if not s.mcp || (s.mcp_secret == [])
    then none
    else some (
        public_url split_host_port is_ip s
        ++ b'/' ∷ s.mcp_secret
        ++ (if s.mcp_path == [] then codes "/mcp" else s.mcp_path))
