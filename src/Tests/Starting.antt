-- ===== src/Tests/Starting.antt =====
-- A tunnel with a token, and services of it.
use mygrok.Base.{
  ◌≡◌, refl, true, false, ◌||◌, List, [], ◌∷◌, ◌++◌, none, some, Bytes, codes, ◌==◌, if◌then◌else◌,
  trim_space, has_prefix, append_assoc, append-nil,
}
use mygrok.Base.Error.{ok}
use mygrok.Base.Dict.{lookup}
use mygrok.Client.Args.{
  scan_flag, extract_flag, extract_bool_flag, trim_prefix, split_csv, first_positional,
}
use mygrok.Client.Auth.{resolve_basic_auth, parse_basic_auth_flag, check_lan_compatibility}
use mygrok.Client.Config.{Config, Env, resolve_server, resolve_auth, require_server}
use mygrok.Client.Mcp.{resolve_mcp_secret, write_secret, is_barred}
use mygrok.Client.Names.{valid_service_name, name_bytes}
use mygrok.Client.Start.{
  Libs, Tunnelling, McpTunnel, default_flags, resolve_lan_flag, port_of, expected_of, tunnelling,
  cmd_http, mcp_subdomain, cmd_mcp,
}
use mygrok.Client.Start.Gated.{IsTokenGated, cmd_mcp-IsTokenGated}
use mygrok.Client.Service.{
  SvcSpec, Os, systemd_files, systemd_unit_path, systemd_env_path, place, uninstall_systemd,
  install_launchd, find_launchd_plist,
}
use mygrok.Client.Service.Install.{
  service_defaults, checked_basic_auth, checked_lan, checked_secret, checked_server, spec_of,
  service_install,
}
use mygrok.Client.Service.Installed.{IsInstallable, service_install-IsInstallable}
use mygrok.Client.Service.Launchd.{install_launchd-missing}
use mygrok.Client.Service.Secrets.{uninstall_systemd-place}

abbrev libs : Libs
libs = record {
  parse_flags = λ d args. some d;
  itoa = λ n. codes "9";
  encode = λ s. s;
  parse_ip = λ s. none;
  pick_lan_ip = [];
  join_host_port = λ h p. h ++ b':' ∷ p;
}

abbrev env : Env
env = record {
  mygrok_server = [];
  mygrok_authtoken = codes "secret";
  token_file = [];
  default_server = [];
}

abbrev file : Config
file = record {
  subdomain = codes "tools";
  port = 0;
  host = [];
  server = codes "tunnel.tun.io:7000";
  auth = [];
}

abbrev args : List Bytes
args = codes "3000" ∷ codes "--secret" ∷ codes "s3cret" ∷ []

abbrev tools : Tunnelling
tools = record {
  server = codes "tunnel.tun.io:7000";
  token = codes "secret";
  subdomain = codes "tools";
  target = codes "127.0.0.1:3000";
  hostnames = [];
  lan_ip = [];
  lan_port = 8443;
  basic_auth = [];
}

abbrev gated : McpTunnel
gated = record {
  secret = codes "s3cret";
  strip = true;
  connector_path = codes "/s3cret/mcp";
  tunnel = tools;
}

not_random : (r : Bytes) → none ≡ some r → (r == []) ≡ false
not_random r e = cc

starts : (cmd_mcp libs env (some file) [] none true none args).1 ≡ ok gated
unfolding cmd_mcp cmd_http tunnelling expected_of resolve_lan_flag port_of default_flags
    mcp_subdomain extract_flag extract_bool_flag scan_flag trim_prefix first_positional split_csv
    resolve_mcp_secret write_secret is_barred valid_service_name resolve_server resolve_auth
    require_server resolve_basic_auth parse_basic_auth_flag check_lan_compatibility ◌==◌ trim_space
    has_prefix name_bytes
starts = refl

cmd_mcp-IsTokenGated_example : IsTokenGated gated
cmd_mcp-IsTokenGated_example =
    cmd_mcp-IsTokenGated libs env (some file) [] none true none args not_random starts

abbrev service : SvcSpec
service = record {
  name = codes "tools";
  subdomain = codes "tools";
  port = codes "3000";
  server = codes "tunnel.tun.io:7000";
  token = codes "secret";
  binary = codes "/bin/mygrok";
  local_host = codes "127.0.0.1";
  basic_auth = [];
  hostnames = [];
  lan = [];
  lan_port = 8443;
  mcp = false;
  mcp_secret = [];
  mcp_no_strip = false;
  mcp_path = codes "/mcp";
}

installs :
    service_install libs
      (λ d rest. some d)
      env
      (some file)
      (codes "/bin/mygrok")
      none
      true
      none
      (codes "3000" ∷ [])
    ≡ ok service
unfolding service_install spec_of service_defaults default_flags checked_basic_auth checked_lan
    checked_secret checked_server resolve_lan_flag port_of first_positional valid_service_name
    resolve_server resolve_auth require_server ◌==◌ trim_space has_prefix name_bytes
installs = refl

service_install-IsInstallable_example : IsInstallable service
service_install-IsInstallable_example =
    service_install-IsInstallable libs (λ d rest. some d) env (some file) (codes "/bin/mygrok") none
      true none (codes "3000" ∷ []) not_random installs

-- Paths joined by slashes.
abbrev slashed : List Bytes → Bytes
slashed [] = []
slashed (a ∷ more) = b'/' ∷ a ++ slashed more

abbrev slashed_tail : Bytes → List Bytes → Bytes
slashed_tail a more = a ++ slashed more

abbrev join : List Bytes → Bytes
join [] = []
join (a ∷ more) = slashed_tail a more

abbrev os : Os
os = record { home = codes "/u"; join = join; itoa = λ n. codes "9" }

joined : (a b c : Bytes) → join (join (a ∷ b ∷ []) ∷ c ∷ []) ≡ join (a ∷ b ∷ c ∷ [])
joined a b c = simp (append_assoc, append-nil)

install_launchd-missing_example :
    ((install_launchd os (codes "tools") (codes "<plist>") []).1 ≡ none)
    × (find_launchd_plist os
          (codes "tools")
          (install_launchd os (codes "tools") (codes "<plist>") []).0
        ≡ none)
install_launchd-missing_example =
    install_launchd-missing os (codes "tools") (codes "<plist>") [] joined

uninstall_systemd-place_example :
    lookup (codes "/etc/hosts") (
      uninstall_systemd
        (codes "tools")
        (place (systemd_files os [] service) ((codes "/etc/hosts", []) ∷ [])))
    ≡ (if (systemd_unit_path (codes "tools") == codes "/etc/hosts")
          || (systemd_env_path (codes "tools") == codes "/etc/hosts")
        then none
        else lookup (codes "/etc/hosts") ((codes "/etc/hosts", []) ∷ []))
uninstall_systemd-place_example =
    uninstall_systemd-place os [] service ((codes "/etc/hosts", []) ∷ []) (codes "/etc/hosts")
