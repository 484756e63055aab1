-- ===== src/Client/Service.antt =====
-- The services of cmd/mygrok/service.go: the files that an installation writes and what becomes of
-- them. The files of the machine are a map of paths; `Os` is filepath.Join with the home directory,
-- and strconv. What launchctl, systemctl and sudo do besides moving files is left out.
pub mod Install
pub mod Installed
pub mod Secrets
pub mod Launchd
use mygrok.Base.{
  ℕ, Bool, true, false, not, ◌&&◌, ◌||◌, List, [], ◌∷◌, ◌++◌, Option, none, some, Bytes, codes,
  ◌==◌, eqb, if◌then◌else◌,
}
use mygrok.Base.Dict.{Dict, lookup, insert, erase}

pub record SvcSpec : Type 0 where
  pub name : Bytes
  pub subdomain : Bytes
  pub port : Bytes
  pub server : Bytes
  pub token : Bytes
  pub binary : Bytes
  pub local_host : Bytes
  pub basic_auth : Bytes
  pub hostnames : Bytes
  pub lan : Bytes
  pub lan_port : ℕ
  pub mcp : Bool
  pub mcp_secret : Bytes
  pub mcp_no_strip : Bool
  pub mcp_path : Bytes

pub record Os : Type 0 where
  pub home : Bytes
  pub join : List Bytes → Bytes
  pub itoa : ℕ → Bytes

unfoldable pub subcommand : SvcSpec → Bytes
subcommand s = if s.mcp then codes "mcp" else codes "http"

abbrev pub newline : Bytes
newline = 10 ∷ []

-- Lines, each with its end.
unfoldable pub lines : List Bytes → Bytes
lines [] = []
lines (l ∷ ls) = l ++ (newline ++ lines ls)

-- A text that is added where a setting is not empty.
abbrev pub when : Bool → Bytes → Bytes
when b text = if b then text else []

abbrev pub given : Bytes → Bool
given s = not (s == [])

abbrev pub other_path : SvcSpec → Bool
other_path s = given s.mcp_path && not (s.mcp_path == codes "/mcp")

module _ (O : Os) where
  -- The flags after those of every service, in the line of a unit.
  unfoldable pub systemd_args : SvcSpec → Bytes
  systemd_args s =
      when (given s.hostnames) (codes " --hostname=" ++ s.hostnames)
      ++ (when (given s.lan) (
            codes " --lan="
            ++ (s.lan ++ when (not (eqb s.lan_port 0)) (codes " --lan-port=" ++ O.itoa s.lan_port)))
          ++ when s.mcp (
              when s.mcp_no_strip (codes " --no-strip")
              ++ when (other_path s) (codes " --path=" ++ s.mcp_path)))

unfoldable pub systemd_unit_path : Bytes → Bytes
systemd_unit_path name = codes "/etc/systemd/system/mygrok-" ++ (name ++ codes ".service")

unfoldable pub systemd_env_path : Bytes → Bytes
systemd_env_path name = codes "/etc/mygrok/" ++ (name ++ codes ".env")

-- A file that root owns, and its mode.
pub data Mode : Type 0 where
  everyone owner_only : Mode

pub record RootFile : Type 0 where
  pub path : Bytes
  pub content : Bytes
  pub mode : Mode

module _ (O : Os) where
  -- `systemdUnitTemplate` filled in.
  unfoldable pub systemd_unit : Bytes → SvcSpec → Bytes
  unfolding lines
  systemd_unit user s = lines (
      codes "[Unit]"
      ∷ (codes "Description=mygrok tunnel: "
          ++ (s.subdomain ++ (codes " -> " ++ (s.local_host ++ (codes ":" ++ s.port)))))
      ∷ codes "After=network-online.target"
      ∷ codes "Wants=network-online.target"
      ∷ []
      ∷ codes "[Service]"
      ∷ codes "Type=simple"
      ∷ (codes "EnvironmentFile=" ++ systemd_env_path s.name)
      ∷ (codes "ExecStart="
          ++ (s.binary
              ++ (codes " "
                  ++ (subcommand s
                      ++ (codes " "
                          ++ (s.port
                              ++ (codes " --subdomain="
                                  ++ (s.subdomain
                                      ++ (codes " --server="
                                          ++ (s.server
                                              ++ (codes " --host="
                                                  ++ (s.local_host ++ systemd_args O s))))))))))))
      ∷ codes "Restart=always"
      ∷ codes "RestartSec=5"
      ∷ (codes "User=" ++ user)
      ∷ []
      ∷ codes "[Install]"
      ∷ codes "WantedBy=multi-user.target"
      ∷ [])

  unfoldable pub systemd_env : SvcSpec → Bytes
  unfolding lines
  systemd_env s =
      lines ((codes "MYGROK_AUTHTOKEN=" ++ s.token) ∷ [])
      ++ when (given s.basic_auth) (lines ((codes "MYGROK_BASIC_AUTH=" ++ s.basic_auth) ∷ []))

  -- `installSystemd`: the files in the order in which install(1) places them.
  unfoldable pub systemd_files : Bytes → SvcSpec → List RootFile
  systemd_files user s =
      record {
        path = systemd_unit_path s.name;
        content = systemd_unit (if user == [] then codes "root" else user) s;
        mode = everyone;
      }
      ∷ record { path = systemd_env_path s.name; content = systemd_env s; mode = owner_only }
      ∷ []

-- `installRootFile` for each file.
unfoldable pub place : List RootFile → Dict Bytes → Dict Bytes
place [] disk = disk
place (f ∷ fs) disk = place fs (insert f.path f.content disk)

-- The files after `uninstallSystemd`.
unfoldable pub uninstall_systemd : Bytes → Dict Bytes → Dict Bytes
uninstall_systemd name disk = erase (systemd_env_path name) (erase (systemd_unit_path name) disk)

-- `launchdLabelPrefixes`
abbrev pub launchd_label_prefixes : List Bytes
launchd_label_prefixes = codes "dev.mygrok.agent." ∷ codes "cloud.schappi.mygrok." ∷ []

module _ (O : Os) where
  abbrev pub agents_dir : Bytes
  agents_dir = O.join (O.home ∷ codes "Library/LaunchAgents" ∷ [])

  unfoldable pub launchd_plist_path : Bytes → Bytes
  launchd_plist_path name = O.join (
      O.home
      ∷ codes "Library/LaunchAgents"
      ∷ (codes "dev.mygrok.agent." ++ (name ++ codes ".plist"))
      ∷ [])

  -- The loop over the prefixes of `findLaunchdPlist`: the path and the label.
  unfoldable pub find_plist : List Bytes → Bytes → Dict Bytes → Option (Bytes × Bytes)
  find_plist [] name disk = none
  find_plist (prefix ∷ ps) name disk =
      let p = O.join (agents_dir ∷ (prefix ++ (name ++ codes ".plist")) ∷ []) in
      let rest = find_plist ps name disk in
      elim (lookup p disk) [ none ↦ rest | some body ↦ some (p, prefix ++ name) ]

  unfoldable pub find_launchd_plist : Bytes → Dict Bytes → Option (Bytes × Bytes)
  unfolding find_plist
  find_launchd_plist name disk = find_plist launchd_label_prefixes name disk

  -- The loop of `unloadAllLaunchd`: the files that are left, and the labels that were removed.
  unfoldable pub unload_plists : List Bytes → Bytes → Dict Bytes → Dict Bytes × List Bytes
  unload_plists [] name disk = (disk, [])
  unload_plists (prefix ∷ ps) name disk =
      let p = O.join (agents_dir ∷ (prefix ++ (name ++ codes ".plist")) ∷ []) in
      let skipped = unload_plists ps name disk in
      let (left, removed) = unload_plists ps name (erase p disk) in
      elim (lookup p disk) [ none ↦ skipped | some body ↦ (left, (prefix ++ name) ∷ removed) ]

  unfoldable pub unload_all_launchd : Bytes → Dict Bytes → Dict Bytes × List Bytes
  unfolding unload_plists
  unload_all_launchd name disk = unload_plists launchd_label_prefixes name disk

  -- `installLaunchd` with the text of the plist: the files afterwards, and what launchctl is given to
  -- load, if there is a file.
  unfoldable pub install_launchd : Bytes → Bytes → Dict Bytes → Dict Bytes × Option Bytes
  unfolding unload_all_launchd launchd_plist_path
  install_launchd name body disk =
      let plist = launchd_plist_path name in
      let left = (unload_all_launchd name (insert plist body disk)).0 in (left, lookup plist left)

  -- `none` where there is no such service.
  unfoldable pub uninstall_launchd : Bytes → Dict Bytes → Option (Dict Bytes × List Bytes)
  uninstall_launchd name disk = elim (unload_all_launchd name disk).1 [
    | [] ↦ none
    | label ∷ labels ↦ some ((unload_all_launchd name disk).0, label ∷ labels)
  ]
