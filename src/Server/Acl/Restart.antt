-- ===== src/Server/Acl/Restart.antt =====
-- `load` after `saveLocked` of cmd/mygrokd/ipacl.go.
use mygrok.Base.{
  ◌≡◌, refl, ap, ◌∙◌, true, false, ◌&&◌, List, [], ◌∷◌, Option, none, some, Bytes, codes, ◌==◌,
  eq_iff, if◌then◌else◌, All, arith, trim_space, contains,
}
use mygrok.Base.Error.{ok}
use mygrok.Base.Dict.{Dict, lookup, insert, keys, lookup-insert}
use mygrok.Base.Keys.{distinct, lookup_absent}
use mygrok.Server.Disk.{Io, save_file}
use mygrok.Server.Acl.{
  Net, Entry, Bucket, Acl, is_empty, no_rules, check, save, to_file, parse_ip_or_cidr,
  store_entries, store_bucket, store_tunnels,
}
use mygrok.Server.Acl.Load.{parse_entries, parse_bucket, parse_tunnels, load}
use mygrok.Server.Acl.Verdict.{rules}
use mygrok.Server.Acl.Effect.{SameRules}
use mygrok.Server.Acl.Answers.{check-SameRules}

-- A canonical address is not empty and has no white space around it.
pub record IsClean (s : Bytes) : Type 0 where
  pub trimmed : trim_space s ≡ s
  pub present : (s == []) ≡ false

-- What package net documents of the printed forms: each parses back to the value it prints, and
-- only that of a range has a slash.
pub record NetLaws (N : Net) : Type 0 where
  pub ip_back : (s : Bytes) (a : N.Ip) → N.parse_ip s ≡ some a → N.parse_ip (N.ip_string a) ≡ some a
  pub net_back :
      (s : Bytes) (n : N.IpNet) → N.parse_cidr s ≡ some n → N.parse_cidr (N.net_string n) ≡ some n
  pub ip_clean : (a : N.Ip) → IsClean (N.ip_string a)
  pub net_clean : (n : N.IpNet) → IsClean (N.net_string n)
  pub ip_slash : (a : N.Ip) → contains (N.ip_string a) (codes "/") ≡ false
  pub net_slash : (n : N.IpNet) → contains (N.net_string n) (codes "/") ≡ true

module _ {N : Net} where
  -- An entry that its own text parses to.
  abbrev pub Parses : Entry N → Type 0
  Parses e = parse_ip_or_cidr N e.raw ≡ ok (record e { note = [] })

  abbrev pub ParsesBucket : Bucket N → Type 0
  ParsesBucket b = All Parses b.allowed × All Parses b.blocked

  abbrev pub ParsesTunnels : Dict (Bucket N) → Type 0
  ParsesTunnels [] = Unit
  ParsesTunnels ((k, b) ∷ m) = ParsesBucket b × ParsesTunnels m

  pub record IsSound (l : Acl N) : Type 0 where
    pub global : ParsesBucket l.global
    pub tunnels : ParsesTunnels l.tunnels
    pub once : distinct (keys l.tunnels) ≡ true

  parse_entries-store :
      (es : List (Entry N)) → All Parses es → parse_entries N (store_entries N es) ≡ ok es
  unfolding parse_entries store_entries
  parse_entries-store [] h = refl
  parse_entries-store (e ∷ es) h = ground (arith, h.0, parse_entries-store es h.1)

  parse_bucket-store : (b : Bucket N) → ParsesBucket b → parse_bucket N (store_bucket N b) ≡ ok b
  unfolding parse_bucket store_bucket
  parse_bucket-store b h = rw (parse_entries-store b.allowed h.0, parse_entries-store b.blocked h.1)

  -- The map that the loop of `load` builds.
  reinsert : Dict (Bucket N) → Dict (Bucket N) → Dict (Bucket N)
  reinsert [] out = out
  reinsert ((k, b) ∷ m) out =
      reinsert m (if is_empty b.allowed && is_empty b.blocked then out else insert k b out)

  parse_tunnels-store :
      (m out : Dict (Bucket N))
      → ParsesTunnels m
      → parse_tunnels N (store_tunnels N m) out ≡ ok (reinsert m out)
  unfolding parse_tunnels store_tunnels reinsert
  parse_tunnels-store [] out h = refl
  parse_tunnels-store ((k, b) ∷ m) out h = ground (
    arith,
    parse_tunnels-store m out h.1,
    parse_tunnels-store m (insert k b out) h.1,
    parse_bucket-store b h.0,
  )

  -- An empty bucket reads as no bucket.
  kept : Option (Bucket N) → Option (Bucket N) → Option (Bucket N)
  kept none rest = rest
  kept (some b) rest = if is_empty b.allowed && is_empty b.blocked then rest else some b

  lookup-reinsert :
      (m out : Dict (Bucket N)) (s : Bytes)
      → distinct (keys m) ≡ true
      → lookup s (reinsert m out) ≡ kept (lookup s m) (lookup s out)
  unfolding reinsert lookup keys kept
  lookup-reinsert [] out s d = refl
  lookup-reinsert ((k, b) ∷ m) out s d = ground (
    arith,
    lookup-reinsert m out s,
    lookup-reinsert m (insert k b out) s,
    lookup-insert k s b out,
    lookup_absent s m,
    eq_iff k s,
  )

  kept-rules :
      (o : Option (Bucket N))
      → elim (kept o none) [ none ↦ no_rules N | some t ↦ t ]
        ≡ elim o [ none ↦ no_rules N | some t ↦ t ]
  unfolding kept
  kept-rules none = refl
  kept-rules (some b) = ground arith

  reloaded : Acl N → Acl N
  reloaded l = record {
    path = l.path;
    global = l.global;
    tunnels = reinsert l.tunnels [];
    disk = some (to_file N l);
  }

  load-to_file :
      (l : Acl N) (io : Io) → IsSound l → load N l.path (some (to_file N l)) io ≡ ok (reloaded l)
  unfolding load to_file reloaded
  load-to_file l io v =
      rw (parse_bucket-store l.global v.global, parse_tunnels-store l.tunnels [] v.tunnels)

  reloaded-SameRules : (l : Acl N) → IsSound l → SameRules l (reloaded l)
  unfolding reloaded rules lookup
  reloaded-SameRules l v = record {
    global = refl;
    tunnels = λ s.
        ap (λ (o : Option (Bucket N)). elim o [ none ↦ no_rules N | some t ↦ t ])
          (lookup-reinsert l.tunnels [] s v.once)
        ∙ kept-rules (lookup s l.tunnels);
  }

  save_written :
      (l : Acl N) (io : Io)
      → (l.path == []) ≡ false
      → (save N l io).1 ≡ none
      → (save N l io).0 ≡ record l { disk = some (to_file N l) }
  unfolding save save_file
  save_written l io p e = ground arith

  -- A write that succeeded is read back: a server that starts again from the file answers every
  -- request as the server that wrote it. The entries are those that the parser accepts, and package
  -- net is as documented.
  pub load-save :
      (l : Acl N) (io io' : Io)
      → IsSound l
      → (l.path == []) ≡ false
      → (save N l io).1 ≡ none
      → (m : Acl N) × (load N l.path (save N l io).0.disk io' ≡ ok m)
        × ((s : Bytes) (a : Option N.Ip) → check N m s a ≡ check N l s a)
  load-save l io io' v p e = (
    reloaded l,
    ap (λ (m : Acl N). load N l.path m.disk io') (save_written l io p e) ∙ load-to_file l io' v,
    λ s a. check-SameRules s a (reloaded-SameRules l v),
  )
