-- ===== src/Client/Config.antt =====
-- Which settings hold: cmd/mygrok/config.go, the defaults of cmd/mygrok/admin.go and the choice of
-- the source of an update in cmd/mygrok/update.go. The parsed file, the environment and package
-- filepath are arguments; the directories above the working directory are given as a list.
pub mod Trusted
use mygrok.Base.Dots.{trim_dots}
use mygrok.Base.{
  ℕ, Bool, true, false, not, ◌&&◌, ◌||◌, List, [], ◌∷◌, ◌++◌, Option, none, some, Bytes, codes,
  ◌==◌, eqb, if◌then◌else◌, trim_space, to_lower, has_prefix, contains, drop,
}

pub record Config : Type 0 where
  pub subdomain : Bytes
  pub port : ℕ
  pub host : Bytes
  pub server : Bytes
  pub auth : Bytes

-- os.Getenv of the two variables, the token file, trimmed, and the address stamped into the build;
-- all empty where they are missing.
pub record Env : Type 0 where
  pub mygrok_server : Bytes
  pub mygrok_authtoken : Bytes
  pub token_file : Bytes
  pub default_server : Bytes

-- The first candidate that is a file.
unfoldable pub first_file : (Bytes → Bool) → List Bytes → Option Bytes
first_file is_file [] = none
first_file is_file (p ∷ ps) = let rest = first_file is_file ps in if is_file p then some p else rest

-- The candidates in a directory; `join` is filepath.Join.
unfoldable pub candidates : (Bytes → Bytes → Bytes) → List Bytes → List Bytes
candidates join [] = []
candidates join (dir ∷ dirs) =
    join dir (codes ".mygrok.toml") ∷ join dir (codes ".mygrok") ∷ candidates join dirs

-- `global` is the path of the user's own file, if there is a home directory.
unfoldable pub find_config :
    (Bytes → Bytes → Bytes) → (Bytes → Bool) → List Bytes → Option Bytes → Bytes
find_config join is_file dirs global = elim (first_file is_file (candidates join dirs)) [
  | some p ↦ p
  | none ↦ elim global [ none ↦ [] | some g ↦ if is_file g then g else [] ]
]

-- The path that `loadConfig` reads, the empty one for no file.
unfoldable pub config_path :
    (Bytes → Bytes → Bytes) → (Bytes → Bool) → List Bytes → Option Bytes → Bytes → Bytes
config_path join is_file dirs global explicit =
    if explicit == [] then find_config join is_file dirs global else explicit

unfoldable pub config_is_trusted : Option Bytes → Bytes → Bytes → Bool
config_is_trusted global path explicit =
    if path == []
    then false
    else if not (explicit == []) && (path == explicit)
    then true
    else elim global [ none ↦ false | some g ↦ not (g == []) && (path == g) ]

unfoldable pub resolve_server : Env → Option Config → Bytes
resolve_server env cfg =
    let stamped = env.default_server in
    let def = elim cfg as (λ _. Bytes) [
      | none ↦ stamped
      | some c ↦ if c.server == [] then stamped else c.server
    ] in
    if env.mygrok_server == [] then def else env.mygrok_server

-- `defaultAdminAuth`, and the same lines of `cmdHTTP`.
unfoldable pub resolve_auth : Env → Option Config → Bytes
resolve_auth env cfg =
    let given = elim cfg as (λ _. Bytes) [ none ↦ [] | some c ↦ c.auth ] in
    let def = if env.mygrok_authtoken == [] then given else env.mygrok_authtoken in
    if def == [] then env.token_file else def

-- `none` is an exit with instructions.
unfoldable pub require_server : Bytes → Option Bytes
require_server server = if trim_space server == [] then none else some (trim_space server)

-- The flags of `mygrok update`, if they are given.
pub record UpdateFlags : Type 0 where
  pub server : Option Bytes
  pub from : Bytes

-- The URL of `cmdUpdate`: `host_of` drops the port, and `platform` is the name of the binary.
unfoldable pub update_url :
    (Bytes → Bytes)
    → Bytes
    → Env
    → Option Bytes
    → Bytes
    → Bytes
    → Option Config
    → UpdateFlags
    → Option Bytes
update_url host_of platform env global path explicit cfg flags =
    let trusted = if config_is_trusted global path explicit then cfg else none in
    let server = elim flags.server as (λ _. Bytes) [
      | none ↦ resolve_server env trusted
      | some s ↦ s
    ] in
    if not (flags.from == []) then some flags.from else elim (require_server server) [
      | none ↦ none
      | some h ↦ some (codes "https://" ++ (host_of h ++ (codes "/dl/mygrok-" ++ platform)))
    ]

-- The host of `host:port`, or none, and the test for an address, are of package net.
unfoldable pub public_host_for : (Bytes → Option Bytes) → (Bytes → Bool) → Bytes → Bytes
public_host_for split_host_port is_ip server =
    let h = trim_space server in
    let host = elim (split_host_port h) as (λ _. Bytes) [ none ↦ h | some x ↦ x ] in
    let bare = trim_dots (to_lower host) in
    if h == []
    then []
    else if is_ip bare || not (contains bare (codes "."))
    then bare
    else if has_prefix bare (codes "tunnel.") && contains (drop 7 bare) (codes ".")
    then drop 7 bare
    else bare
