-- ===== src/Client/Serve.antt =====
-- `mygrok serve` of cmd/mygrok/serve.go: the meaning of the positional arguments, the choice of the
-- file for a request, and the recorded status. Package filepath and the disk are arguments.
use mygrok.Base.{
  ℕ, Bool, true, not, ◌&&◌, ◌||◌, List, [], ◌∷◌, Bytes, codes, ◌==◌, if◌then◌else◌, has_suffix,
}
use mygrok.Client.Names.{looks_like_subdomain}

-- What is served: a directory, at a subdomain or, with the empty one, locally only.
pub record Target : Type 0 where
  pub subdomain : Bytes
  pub dir : Bytes

unfoldable dir_or_here : List Bytes → Bytes
dir_or_here [] = codes "."
dir_or_here (dir ∷ args) = dir

-- `subdomain` is the one of the flag or the configuration, `random` a new one.
unfoldable serve_target : Bytes → List Bytes → Bytes → Target
serve_target subdomain [] random = record {
  subdomain = if subdomain == [] then random else subdomain;
  dir = codes ".";
}
serve_target subdomain (a ∷ args) random =
    if not (subdomain == [])
    then record { subdomain = subdomain; dir = a }
    else if looks_like_subdomain a
    then record { subdomain = a; dir = dir_or_here args }
    else record { subdomain = []; dir = a }

pub data Served : Type 0 where
  index_file : Bytes → Served
  own_favicon file_server : Served

-- `is_file` tells of a path whether it is a file and not a directory; `join` is filepath.Join.
unfoldable disk_has_favicon : (Bytes → Bytes → Bytes) → (Bytes → Bool) → Bytes → Bool
disk_has_favicon join is_file root =
    is_file (join root (codes "favicon.ico")) || is_file (join root (codes "favicon.svg"))

unfoldable favicon_or_file : (Bytes → Bytes → Bytes) → (Bytes → Bool) → Bytes → Bytes → Served
favicon_or_file join is_file root path =
    if (path == codes "/favicon.ico") || (path == codes "/favicon.svg")
    then if not (disk_has_favicon join is_file root) then own_favicon else file_server
    else file_server

unfoldable static_handler :
    (Bytes → Bytes → Bytes) → (Bytes → Bool) → Bytes → Bytes → Bytes → Served
static_handler join is_file root index_name path =
    let custom = not (index_name == []) && not (index_name == codes "index.html") in
    let candidate = join (join root path) index_name in
    let other = favicon_or_file join is_file root path in
    if custom && has_suffix path (codes "/")
    then if is_file candidate then index_file candidate else other
    else other

-- `statusRecorder`: the first status counts.
pub record StatusRecorder : Type 0 where
  pub status : ℕ
  pub wrote_header : Bool

unfoldable write_header : StatusRecorder → ℕ → StatusRecorder
write_header r code =
    if not r.wrote_header then record { status = code; wrote_header = true } else r
