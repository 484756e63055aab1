-- ===== src/Server/Locks.antt =====
-- The per-tunnel passkey lists of cmd/mygrokd/tunnellocks.go: `tunnelLocks` and its methods. Each
-- method holds the mutex throughout, so it is one function of the state; the file at `path` is part
-- of the state. A `map[string]bool` that only ever holds true is the list of its keys.
pub mod Access
pub mod Occupied
use mygrok.Base.{
  ℕ, Bool, true, false, not, ◌&&◌, ◌||◌, List, [], ◌∷◌, ◌++◌, Option, none, some, Bytes, codes,
  ◌==◌, if◌then◌else◌, any, keep, member,
}
use mygrok.Base.Dict.{Dict, lookup, insert, erase, keys}
use mygrok.Base.Sort.{sort}
use mygrok.Server.Disk.{Io, SaveError, save_file}
use mygrok.Server.Names.{looks_like_subdomain}

pub record LocksFile : Type 0 where
  pub tunnels : Dict (List Bytes)
  legacy_locked : List Bytes

pub record Locks : Type 0 where
  pub path : Bytes
  pub allowed : Dict (List Bytes)
  pub disk : Option LocksFile

pub data LocksError : Type 0 where
  invalid_subdomain user_required : LocksError
  not_locked : Bytes → LocksError
  not_on_list : Bytes → Bytes → LocksError
  not_saved : SaveError → LocksError

abbrev pub is_empty : List Bytes → Bool
is_empty [] = true
is_empty (u ∷ us) = false

-- `set[u] = true` and `delete(set, u)`
abbrev pub with_user : Bytes → List Bytes → List Bytes
with_user u set = if member u set then set else set ++ u ∷ []

abbrev pub without_user : Bytes → List Bytes → List Bytes
without_user u = keep (λ v. not (v == u))

store_sets : Dict (List Bytes) → Dict (List Bytes)
store_sets [] = []
store_sets ((sub, set) ∷ m) = (sub, sort set) ∷ store_sets m

unfoldable pub to_file : Locks → LocksFile
unfolding store_sets
to_file l = record { tunnels = store_sets l.allowed; legacy_locked = [] }

unfoldable pub save : Locks → Io → Locks × Option LocksError
save l io =
    let (disk, e) = save_file l.path io (to_file l) l.disk in
    (record l { disk = disk }, elim e [ none ↦ none | some d ↦ some (not_saved d) ])

collect_users : List Bytes → List Bytes → List Bytes
collect_users set [] = set
collect_users set (u ∷ us) = collect_users (with_user u set) us

load_sets : Dict (List Bytes) → Dict (List Bytes) → Dict (List Bytes)
unfolding collect_users
load_sets out [] = out
load_sets out ((sub, users) ∷ m) = load_sets (insert sub (collect_users [] users) out) m

-- A legacy lock that has no list yet gets an empty one.
load_legacy : Dict (List Bytes) → List Bytes → Dict (List Bytes)
load_legacy out [] = out
load_legacy out (sub ∷ subs) = elim (lookup sub out) [
  | some set ↦ load_legacy out subs
  | none ↦ load_legacy (insert sub [] out) subs
]

-- `newTunnelLocks`: `none` is a file that does not exist.
unfoldable pub new_tunnel_locks : Bytes → Option LocksFile → Io → Locks
unfolding load_sets load_legacy
new_tunnel_locks path none io = record { path = path; allowed = []; disk = none }
new_tunnel_locks path (some f) io =
    let l : Locks = record {
      path = path;
      allowed = load_legacy (load_sets [] f.tunnels) f.legacy_locked;
      disk = some f;
    } in
    if is_empty f.legacy_locked then l else (save l io).0

unfoldable pub is_locked : Locks → Bytes → Bool
is_locked l sub = elim (lookup sub l.allowed) [ none ↦ false | some set ↦ true ]

unfoldable pub allows_user : Locks → Bytes → Bytes → Bool
allows_user l sub user_id = elim (lookup sub l.allowed) [
  | none ↦ false
  | some set ↦ member user_id set
]

unfoldable pub allowed_users : Locks → Bytes → List Bytes
allowed_users l sub = elim (lookup sub l.allowed) [ none ↦ [] | some set ↦ sort set ]

-- The list of a tunnel after a grant; a missing list is made first.
abbrev pub granted : Option (List Bytes) → Bytes → List Bytes
granted none u = with_user u []
granted (some set) u = with_user u set

unfoldable pub grant : Locks → Bytes → Bytes → Io → Locks × Option LocksError
grant l sub user_id io =
    if not (looks_like_subdomain sub)
    then (l, some invalid_subdomain)
    else if user_id == []
    then (l, some user_required)
    else save (record l { allowed = insert sub (granted (lookup sub l.allowed) user_id) l.allowed })
        io

-- The lists after a user has been dropped from that of a tunnel.
abbrev pub shrink : Bytes → List Bytes → Dict (List Bytes) → Dict (List Bytes)
shrink sub set m = if is_empty set then erase sub m else insert sub set m

unfoldable pub revoke : Locks → Bytes → Bytes → Io → Locks × Option LocksError
revoke l sub user_id io = elim (lookup sub l.allowed) [
  | none ↦ (l, some (not_locked sub))
  | some set ↦
      if member user_id set
      then save (record l { allowed = shrink sub (without_user user_id set) l.allowed }) io
      else (l, some (not_on_list user_id sub))
]

unfoldable pub unlock : Locks → Bytes → Io → Locks × Option LocksError
unlock l sub io = elim (lookup sub l.allowed) [
  | none ↦ (l, none)
  | some set ↦ save (record l { allowed = erase sub l.allowed }) io
]

-- The loop of `RevokeUserAcrossTunnels` over the lists: what is left, and the subdomains touched.
unfoldable pub strip_user : Bytes → Dict (List Bytes) → Dict (List Bytes) × List Bytes
strip_user u [] = ([], [])
strip_user u ((sub, set) ∷ m) =
    let (rest, touched) = strip_user u m in
    if member u set
    then (
      if is_empty (without_user u set) then rest else (sub, without_user u set) ∷ rest,
      sub ∷ touched,
    )
    else ((sub, set) ∷ rest, touched)

unfoldable pub revoke_user_across_tunnels : Locks → Bytes → Io → Locks × List Bytes
revoke_user_across_tunnels l user_id io =
    let (left, touched) = strip_user user_id l.allowed in
    let l' : Locks = record l { allowed = left } in
    (if is_empty touched then l' else (save l' io).0, touched)

unfoldable pub locked_subdomains : Locks → List Bytes
locked_subdomains l = sort (keys l.allowed)
