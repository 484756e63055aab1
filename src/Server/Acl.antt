-- ===== src/Server/Acl.antt =====
-- The IP rules of cmd/mygrokd/ipacl.go: `ipEntry`, `ipBucket`, `ipACL`, `parseIPOrCIDR`, `Check`,
-- the snapshots, and `saveLocked`. `Add` and `Remove` are in the module Edit below, `load` in Load.
-- Each exported method holds the mutex throughout, so it is one function of the state; the file at
-- `path` is part of the state. The addresses of Go's net package are a parameter.
pub mod Edit
pub mod Load
pub mod Verdict
pub mod Effect
pub mod Answers
pub mod Undo
pub mod Restart
pub mod Ruled
pub mod Canonical
pub mod Sound
use mygrok.Base.{
  ℕ, Bool, true, false, not, ◌&&◌, ◌||◌, List, [], ◌∷◌, ◌++◌, Option, none, some, Bytes, codes,
  ◌==◌, if◌then◌else◌, any, trim_space, contains,
}
use mygrok.Base.Error.{Result, ok, err, ◌>>=◌}
use mygrok.Base.Dict.{Dict, lookup}
use mygrok.Base.Sort.{sort}
use mygrok.Server.Disk.{Io, SaveError, save_file}

-- What the program calls of package net.
pub record Net : Type 1 where
  pub Ip : Type 0
  pub IpNet : Type 0
  pub parse_ip : Bytes → Option Ip
  pub parse_cidr : Bytes → Option IpNet
  pub ip_string : Ip → Bytes
  pub net_string : IpNet → Bytes
  pub net_contains : IpNet → Ip → Bool
  pub ip_equal : Ip → Ip → Bool

pub record Entry (N : Net) : Type 0 where
  pub raw : Bytes
  pub net : Option N.IpNet
  pub ip : Option N.Ip
  pub note : Bytes

pub record Bucket (N : Net) : Type 0 where
  pub allowed : List (Entry N)
  pub blocked : List (Entry N)

-- An entry on disk: the parsed forms are left out of the JSON.
pub record StoredEntry : Type 0 where
  pub raw : Bytes
  pub note : Bytes

pub record StoredBucket : Type 0 where
  pub allowed : List StoredEntry
  pub blocked : List StoredEntry

pub record AclFile : Type 0 where
  pub global : StoredBucket
  pub tunnels : Dict StoredBucket
  pub legacy_allowed : List StoredEntry
  pub legacy_blocked : List StoredEntry

pub record Acl (N : Net) : Type 0 where
  pub path : Bytes
  pub global : Bucket N
  pub tunnels : Dict (Bucket N)
  pub disk : Option AclFile

pub data AclError : Type 0 where
  empty : AclError
  invalid_cidr invalid_ip invalid_scope unknown_list nothing_configured : Bytes → AclError
  already_in not_in : Bytes → Bytes → Bytes → AclError
  invalid_stored : Bytes → AclError → AclError
  in_tunnel : Bytes → AclError → AclError
  not_saved : SaveError → AclError

abbrev pub is_empty {ℓ} : {A : Type ℓ} → List A → Bool
is_empty [] = true
is_empty (x ∷ xs) = false

module _ (N : Net) where
  open N use {Ip, IpNet, parse_ip, parse_cidr, ip_string, net_string, net_contains, ip_equal}

  abbrev pub no_rules : Bucket N
  no_rules = record { allowed = []; blocked = [] }

  -- `contains` of the source
  unfoldable pub matches : Ip → Entry N → Bool
  matches a e = elim e.net [
    | some n ↦ net_contains n a
    | none ↦ elim e.ip [ some b ↦ ip_equal b a | none ↦ false ]
  ]

  unfoldable pub parse_ip_or_cidr : Bytes → Result AclError (Entry N)
  parse_ip_or_cidr text =
      let s = trim_space text in
      if s == []
      then err empty
      else if contains s (codes "/")
      then elim (parse_cidr s) [
        | none ↦ err (invalid_cidr s)
        | some n ↦ ok (record { raw = net_string n; net = some n; ip = none; note = [] })
      ]
      else elim (parse_ip s) [
        | none ↦ err (invalid_ip s)
        | some a ↦ ok (record { raw = ip_string a; net = none; ip = some a; note = [] })
      ]

  -- What the rules of a tunnel say, `none` where the global allow list decides.
  unfoldable pub tunnel_verdict : Bucket N → Ip → Option Bool
  tunnel_verdict t a =
      if any (matches a) t.blocked
      then some false
      else if is_empty t.allowed
      then none
      else if any (matches a) t.allowed
      then some true
      else some false

  unfoldable pub global_verdict : Bucket N → Ip → Bool
  global_verdict g a =
      if is_empty g.allowed then true else if any (matches a) g.allowed then true else false

  unfoldable pub check : Acl N → Bytes → Option Ip → Bool
  check l subdomain none = true
  check l subdomain (some a) =
      if any (matches a) l.global.blocked
      then false
      else if subdomain == []
      then global_verdict l.global a
      else elim (lookup subdomain l.tunnels) [
        | none ↦ global_verdict l.global a
        | some t ↦ elim (tunnel_verdict t a) [ some v ↦ v | none ↦ global_verdict l.global a ]
      ]

  unfoldable pub clone : Bucket N → Bucket N
  clone b = record { allowed = [] ++ b.allowed; blocked = [] ++ b.blocked }

  unfoldable pub snapshot_global : Acl N → Bucket N
  unfolding clone
  snapshot_global l = clone l.global

  -- A missing key reads as the empty bucket.
  unfoldable pub snapshot_tunnel : Acl N → Bytes → Bucket N
  unfolding clone
  snapshot_tunnel l sub = elim (lookup sub l.tunnels) [ none ↦ clone no_rules | some b ↦ clone b ]

  unfoldable pub configured : Dict (Bucket N) → List Bytes
  configured [] = []
  configured ((sub, b) ∷ m) =
      let rest = configured m in
      if not (is_empty b.allowed) || not (is_empty b.blocked) then sub ∷ rest else rest

  unfoldable pub tunnels_configured : Acl N → List Bytes
  unfolding configured
  tunnels_configured l = sort (configured l.tunnels)

  store_entries : List (Entry N) → List StoredEntry
  store_entries [] = []
  store_entries (e ∷ es) = record { raw = e.raw; note = e.note } ∷ store_entries es

  store_bucket : Bucket N → StoredBucket
  unfolding store_entries
  store_bucket b = record { allowed = store_entries b.allowed; blocked = store_entries b.blocked }

  -- Tunnels with no rule are left out of the file.
  store_tunnels : Dict (Bucket N) → Dict StoredBucket
  unfolding store_bucket
  store_tunnels [] = []
  store_tunnels ((sub, b) ∷ m) =
      let rest = store_tunnels m in
      if is_empty b.allowed && is_empty b.blocked then rest else (sub, store_bucket b) ∷ rest

  unfoldable pub to_file : Acl N → AclFile
  unfolding store_tunnels store_bucket
  to_file l = record {
    global = store_bucket l.global;
    tunnels = store_tunnels l.tunnels;
    legacy_allowed = [];
    legacy_blocked = [];
  }

  -- `saveLocked`: the state with its file, and the error.
  unfoldable pub save : Acl N → Io → Acl N × Option AclError
  save l io =
      let (disk, e) = save_file l.path io (to_file l) l.disk in
      (record l { disk = disk }, elim e [ none ↦ none | some d ↦ some (not_saved d) ])
