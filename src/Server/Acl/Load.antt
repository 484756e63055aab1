-- ===== src/Server/Acl/Load.antt =====
-- `load` of cmd/mygrokd/ipacl.go: reading the file, and the migration of the flat lists.
use mygrok.Base.{Bool, not, ◌||◌, List, [], ◌∷◌, ◌++◌, Option, none, some, Bytes, if◌then◌else◌}
use mygrok.Base.Error.{Result, ok, err, ◌>>=◌}
use mygrok.Base.Dict.{Dict, insert}
use mygrok.Server.Disk.{Io}
use mygrok.Server.Acl.{
  Net, Entry, Bucket, StoredEntry, StoredBucket, AclFile, Acl, AclError, is_empty, no_rules,
  parse_ip_or_cidr, save, invalid_stored, in_tunnel,
}

module _ (N : Net) where
  unfoldable pub parse_entries : List StoredEntry → Result AclError (List (Entry N))
  parse_entries [] = ok []
  parse_entries (e ∷ es) = elim (parse_ip_or_cidr N e.raw) [
    | err d ↦ err (invalid_stored e.raw d)
    | ok parsed ↦ do out ← parse_entries es; ok (record parsed { note = e.note } ∷ out)
  ]

  unfoldable pub parse_bucket : StoredBucket → Result AclError (Bucket N)
  unfolding parse_entries
  parse_bucket b = do
    allowed ← parse_entries b.allowed
    blocked ← parse_entries b.blocked
    ok (record { allowed = allowed; blocked = blocked })

  has_legacy : AclFile → Bool
  has_legacy f = not (is_empty f.legacy_allowed) || not (is_empty f.legacy_blocked)

  -- The flat lists of an old file are appended to the global ones.
  promote : AclFile → Bucket N → Result AclError (Bucket N)
  unfolding has_legacy parse_entries
  promote f global =
      if has_legacy f
      then (do
        allowed ← parse_entries f.legacy_allowed
        blocked ← parse_entries f.legacy_blocked
        ok (record { allowed = global.allowed ++ allowed; blocked = global.blocked ++ blocked }))
      else ok global

  unfoldable pub parse_tunnels :
      Dict StoredBucket → Dict (Bucket N) → Result AclError (Dict (Bucket N))
  unfolding parse_bucket
  parse_tunnels [] out = ok out
  parse_tunnels ((sub, b) ∷ m) out = elim (parse_bucket b) [
    | err e ↦ err (in_tunnel sub e)
    | ok parsed ↦ parse_tunnels m (insert sub parsed out)
  ]

  -- `newIPACL` with `load`: `none` on disk is a file that does not exist, which is no error.
  unfoldable pub load : Bytes → Option AclFile → Io → Result AclError (Acl N)
  unfolding parse_bucket promote parse_tunnels has_legacy save
  load path none io = ok (record { path = path; global = no_rules N; tunnels = []; disk = none })
  load path (some f) io = do
    parsed ← parse_bucket f.global
    global ← promote f parsed
    tunnels ← parse_tunnels f.tunnels []
    let l : Acl N = record { path = path; global = global; tunnels = tunnels; disk = some f }
    ok (if has_legacy f then (save N l io).0 else l)
