-- ===== src/Server/Acl/Edit.antt =====
-- `Add` and `Remove` of cmd/mygrokd/ipacl.go, with `bucketLocked`, `writeBucketLocked` and
-- `bucketSlice`. The pointer that `bucketLocked` returns is the bucket's value, which
-- `writeBucketLocked` writes back.
use mygrok.Base.{
  Bool, true, false, not, ◌&&◌, ◌||◌, List, [], ◌∷◌, ◌++◌, Option, none, some, Bytes, codes, ◌==◌,
  if◌then◌else◌, any, keep, trim_space,
}
use mygrok.Base.Error.{ok, err}
use mygrok.Base.Dict.{lookup, insert, erase}
use mygrok.Server.Disk.{Io}
use mygrok.Server.Names.{looks_like_subdomain}
use mygrok.Server.Acl.{
  Net, Entry, Bucket, Acl, AclError, is_empty, no_rules, parse_ip_or_cidr, save, invalid_scope,
  unknown_list, already_in, nothing_configured, not_in,
}

pub data Side : Type 0 where
  allow block : Side

-- `bucketSlice`: the list that a name means.
unfoldable pub bucket_slice : Bytes → Option Side
bucket_slice list =
    if (list == codes "allow") || ((list == codes "allowed") || (list == codes "allowlist"))
    then some allow
    else if (list == codes "block")
        || ((list == codes "blocked") || ((list == codes "blocklist") || (list == codes "deny")))
    then some block
    else none

abbrev pub is_global : Bytes → Bool
is_global scope = (scope == codes "global") || (scope == [])

module _ {N : Net} where
  abbrev pub read_side : Side → Bucket N → List (Entry N)
  read_side allow b = b.allowed
  read_side block b = b.blocked

  abbrev pub write_side : Side → List (Entry N) → Bucket N → Bucket N
  write_side allow es b = record b { allowed = es }
  write_side block es b = record b { blocked = es }

  abbrev pub has_raw : Bytes → List (Entry N) → Bool
  has_raw raw = any (λ e. e.raw == raw)

module _ (N : Net) where
  unfoldable pub bucket_locked : Acl N → Bytes → Bool → Acl N × Option (Bucket N)
  bucket_locked l scope create_missing =
      if is_global scope
      then (l, some l.global)
      else if not (looks_like_subdomain scope)
      then (l, none)
      else elim (lookup scope l.tunnels) [
        | some b ↦ (l, some b)
        | none ↦
            if create_missing
            then (record l { tunnels = insert scope (no_rules N) l.tunnels }, some (no_rules N))
            else (l, none)
      ]

  unfoldable pub write_bucket : Acl N → Bytes → Bucket N → Acl N
  write_bucket l scope b =
      if is_global scope
      then record l { global = b }
      else if is_empty b.allowed && is_empty b.blocked
      then record l { tunnels = erase scope l.tunnels }
      else record l { tunnels = insert scope b l.tunnels }

  -- `Add` behind the parsing of its argument.
  unfoldable pub add_entry : Acl N → Bytes → Bytes → Entry N → Io → Acl N × Option AclError
  add_entry l scope list entry io =
      let (l', found) = bucket_locked l scope true in
      elim found [
        | none ↦ (l', some (invalid_scope scope))
        | some bucket ↦ elim (bucket_slice list) [
          | none ↦ (l', some (unknown_list list))
          | some side ↦
              let target = read_side side bucket in
              if has_raw entry.raw target
              then (l', some (already_in entry.raw scope list))
              else save N (write_bucket l' scope (write_side side (target ++ entry ∷ []) bucket)) io
        ]
      ]

  unfoldable pub add : Acl N → Bytes → Bytes → Bytes → Bytes → Io → Acl N × Option AclError
  add l scope list raw note io = elim (parse_ip_or_cidr N raw) [
    | err e ↦ (l, some e)
    | ok entry ↦ add_entry l scope list (record entry { note = trim_space note }) io
  ]

  -- `Remove` behind the parsing of its argument. The entries that stay are moved up in place, which
  -- leaves the array as it was where none is dropped.
  unfoldable pub remove_raw : Acl N → Bytes → Bytes → Bytes → Io → Acl N × Option AclError
  remove_raw l scope list raw io =
      let (l', found) = bucket_locked l scope false in
      elim found [
        | none ↦ (l', some (nothing_configured scope))
        | some bucket ↦ elim (bucket_slice list) [
          | none ↦ (l', some (unknown_list list))
          | some side ↦
              let target = read_side side bucket in
              if has_raw raw target
              then save N
                  (write_bucket l' scope
                    (write_side side (keep (λ e. not (e.raw == raw)) target) bucket))
                  io
              else (l', some (not_in raw scope list))
        ]
      ]

  unfoldable pub remove : Acl N → Bytes → Bytes → Bytes → Io → Acl N × Option AclError
  remove l scope list raw io = elim (parse_ip_or_cidr N raw) [
    | err e ↦ (l, some e)
    | ok entry ↦ remove_raw l scope list entry.raw io
  ]
