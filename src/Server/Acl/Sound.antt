-- ===== src/Server/Acl/Sound.antt =====
-- The entries of the rules, over sequences of `Add` and `Remove` of cmd/mygrokd/ipacl.go.
use mygrok.Base.{
  ◌≡◌, refl, sym, subst, Bool, true, false, not, ◌&&◌, List, [], ◌∷◌, ◌++◌, some, Bytes, ◌==◌, All,
  All-append, All-keep, arith, Option-cases, inl, inr, Bool-cases, trim_space,
}
use mygrok.Base.Error.{Result, ok, err}
use mygrok.Base.Dict.{Dict, lookup, insert, erase}
use mygrok.Base.Keys.{distinct-keys-insert, distinct-keys-erase}
use mygrok.Server.Disk.{Io}
use mygrok.Server.Names.{looks_like_subdomain}
use mygrok.Server.Acl.{
  Net, Entry, Bucket, Acl, AclError, is_empty, no_rules, save, parse_ip_or_cidr,
}
use mygrok.Server.Acl.Edit.{
  Side, allow, block, bucket_slice, is_global, read_side, write_side, has_raw, bucket_locked,
  write_bucket, add_entry, remove_raw, add, remove,
}
use mygrok.Server.Acl.Verdict.{rules}
use mygrok.Server.Acl.Undo.{without_raw, remove_raw_present, remove_parsed}
use mygrok.Server.Acl.Effect.{
  scoped, bucket_locked_found, add_entry_invalid, add_entry_unknown, add_entry_known,
}
use mygrok.Server.Acl.Answers.{add_parsed, add_refused}
use mygrok.Server.Acl.Restart.{NetLaws, Parses, ParsesBucket, ParsesTunnels, IsSound}
use mygrok.Server.Acl.Canonical.{noted_Parses}

module _ {N : Net} where
  ParsesTunnels-insert :
      (k : Bytes) (b : Bucket N) (m : Dict (Bucket N))
      → ParsesBucket b
      → ParsesTunnels m
      → ParsesTunnels (insert k b m)
  unfolding insert
  ParsesTunnels-insert k b [] hb hm = (hb, tt)
  ParsesTunnels-insert k b ((j, c) ∷ m) hb hm = elim (Bool-cases (j == k)) [
    | inl e ↦ rw e (hb, hm.1)
    | inr e ↦ rw e (hm.0, ParsesTunnels-insert k b m hb hm.1)
  ]

  ParsesTunnels-erase :
      (k : Bytes) (m : Dict (Bucket N)) → ParsesTunnels m → ParsesTunnels (erase k m)
  unfolding erase
  ParsesTunnels-erase k [] hm = tt
  ParsesTunnels-erase k ((j, c) ∷ m) hm = elim (Bool-cases (j == k)) [
    | inl e ↦ rw e (ParsesTunnels-erase k m hm.1)
    | inr e ↦ rw e (hm.0, ParsesTunnels-erase k m hm.1)
  ]

  ParsesTunnels-lookup :
      (k : Bytes) (m : Dict (Bucket N)) {b : Bucket N}
      → ParsesTunnels m
      → lookup k m ≡ some b
      → ParsesBucket b
  unfolding lookup
  ParsesTunnels-lookup k [] hm e = cc
  ParsesTunnels-lookup k ((j, c) ∷ m) {b} hm e = elim (Bool-cases (j == k)) [
    | inl h ↦ subst ParsesBucket (ground arith) hm.0
    | inr h ↦ ParsesTunnels-lookup k m hm.1 (ground arith)
  ]

  write_bucket-IsSound :
      (l : Acl N) (scope : Bytes) (b : Bucket N)
      → IsSound l
      → ParsesBucket b
      → IsSound (write_bucket N l scope b)
  unfolding write_bucket
  write_bucket-IsSound l scope b v hb = elim (Bool-cases (is_global scope)) [
    | inl g ↦ rw g (record { global = hb; tunnels = v.tunnels; once = v.once })
    | inr g ↦ elim (Bool-cases (is_empty b.allowed && is_empty b.blocked)) [
      | inl z ↦
          rw (g, z)
            (record {
              global = v.global;
              tunnels = ParsesTunnels-erase scope l.tunnels v.tunnels;
              once = distinct-keys-erase scope l.tunnels v.once;
            })
      | inr z ↦
          rw (g, z)
            (record {
              global = v.global;
              tunnels = ParsesTunnels-insert scope b l.tunnels hb v.tunnels;
              once = distinct-keys-insert scope b l.tunnels v.once;
            })
    ]
  ]

  save-IsSound : (l : Acl N) (io : Io) → IsSound l → IsSound (save N l io).0
  unfolding save
  save-IsSound l io v = record { global = v.global; tunnels = v.tunnels; once = v.once }

  bucket_locked-IsSound :
      (l : Acl N) (scope : Bytes) (create : Bool)
      → IsSound l
      → IsSound (bucket_locked N l scope create).0
  unfolding bucket_locked
  bucket_locked-IsSound l scope create v =
      let made : IsSound (record l { tunnels = insert scope (no_rules N) l.tunnels }) = record {
        global = v.global;
        tunnels = ParsesTunnels-insert scope (no_rules N) l.tunnels (tt, tt) v.tunnels;
        once = distinct-keys-insert scope (no_rules N) l.tunnels v.once;
      } in
      elim (Bool-cases (is_global scope)) [
        | inl g ↦ rw g v
        | inr g ↦ elim (Bool-cases (looks_like_subdomain scope)) [
          | inr n ↦ rw (g, n) v
          | inl n ↦ elim (Option-cases (lookup scope l.tunnels)) [
            | inr (b, p) ↦ rw (g, n, p, bucket_locked) v
            | inl p ↦ elim (Bool-cases create) [
              | inl c ↦ rw (g, n, p, c, bucket_locked) made
              | inr c ↦ rw (g, n, p, c, bucket_locked) v
            ]
          ]
        ]
      ]

  rules-ParsesBucket : (l : Acl N) (scope : Bytes) → IsSound l → ParsesBucket (rules l scope)
  unfolding rules
  rules-ParsesBucket l scope v = elim (Option-cases (lookup scope l.tunnels)) [
    | inl p ↦ rw (p, rules) (tt, tt)
    | inr (b, p) ↦ rw (p, rules) (ParsesTunnels-lookup scope l.tunnels v.tunnels p)
  ]

  scoped-ParsesBucket : (l : Acl N) (scope : Bytes) → IsSound l → ParsesBucket (scoped l scope)
  scoped-ParsesBucket l scope v = elim (Bool-cases (is_global scope)) [
    | inl g ↦ rw g v.global
    | inr g ↦ rw g (rules-ParsesBucket l scope v)
  ]

  bucket_locked-ParsesBucket :
      (l : Acl N) (scope : Bytes) (create : Bool) {b : Bucket N}
      → IsSound l
      → (bucket_locked N l scope create).1 ≡ some b
      → ParsesBucket b
  bucket_locked-ParsesBucket l scope create {b} v e =
      subst ParsesBucket (sym (bucket_locked_found l scope create e))
        (scoped-ParsesBucket l scope v)

  write_side-ParsesBucket :
      (side : Side) (es : List (Entry N)) (b : Bucket N)
      → All Parses es
      → ParsesBucket b
      → ParsesBucket (write_side side es b)
  write_side-ParsesBucket allow es b h hb = (h, hb.1)
  write_side-ParsesBucket block es b h hb = (hb.0, h)

  read_side-ParsesBucket :
      (side : Side) (b : Bucket N) → ParsesBucket b → All Parses (read_side side b)
  read_side-ParsesBucket allow b hb = hb.0
  read_side-ParsesBucket block b hb = hb.1

  -- Writing a list of parsed entries keeps the state sound.
  edit-IsSound :
      (l : Acl N) (scope : Bytes) (create : Bool) (side : Side) (es : List (Entry N)) (io : Io)
      {b : Bucket N}
      → IsSound l
      → (bucket_locked N l scope create).1 ≡ some b
      → All Parses es
      → IsSound
          (save N
            (write_bucket N (bucket_locked N l scope create).0 scope (write_side side es b))
            io).0
  edit-IsSound l scope create side es io {b} v p h =
      save-IsSound (write_bucket N (bucket_locked N l scope create).0 scope (write_side side es b))
        io
        (write_bucket-IsSound (bucket_locked N l scope create).0 scope (write_side side es b)
          (bucket_locked-IsSound l scope create v)
          (write_side-ParsesBucket side es b h (bucket_locked-ParsesBucket l scope create v p)))

  add_entry-IsSound :
      (l : Acl N) (scope list : Bytes) (e : Entry N) (io : Io)
      → IsSound l
      → Parses e
      → IsSound (add_entry N l scope list e io).0
  add_entry-IsSound l scope list e io v h =
      let same = bucket_locked-IsSound l scope true v in
      elim (Option-cases (bucket_locked N l scope true).1) [
        | inl p ↦ rw (add_entry_invalid l scope list e io p) same
        | inr (b, p) ↦ elim (Option-cases (bucket_slice list)) [
          | inl q ↦ rw (add_entry_unknown l scope list e io p q) same
          | inr (side, q) ↦ elim (Bool-cases (has_raw e.raw (read_side side b))) [
            | inl dup ↦ rw (add_entry_known l scope list e io p q, dup) same
            | inr fresh ↦
                rw (add_entry_known l scope list e io p q, fresh)
                  (edit-IsSound l scope true side (read_side side b ++ e ∷ []) io v p (
                    All-append Parses (read_side side b) (e ∷ [])
                      (read_side-ParsesBucket side b (bucket_locked-ParsesBucket l scope true v p))
                      (h, tt)))
          ]
        ]
      ]

  remove_raw-IsSound :
      (l : Acl N) (scope list raw : Bytes) (io : Io)
      → IsSound l
      → IsSound (remove_raw N l scope list raw io).0
  unfolding remove_raw
  remove_raw-IsSound l scope list raw io v =
      let same = bucket_locked-IsSound l scope false v in
      elim (Option-cases (bucket_locked N l scope false).1) [
        | inl p ↦ rw (p, remove_raw) same
        | inr (b, p) ↦ elim (Option-cases (bucket_slice list)) [
          | inl q ↦ rw (p, remove_raw) (rw (q, remove_raw) same)
          | inr (side, q) ↦ elim (Bool-cases (has_raw raw (read_side side b))) [
            | inr miss ↦ rw (remove_raw_present l scope list raw io p q, miss) same
            | inl hit ↦
                rw (remove_raw_present l scope list raw io p q, hit)
                  (edit-IsSound l scope false side (without_raw raw (read_side side b)) io v p (
                    All-keep Parses (λ d. not (d.raw == raw)) (read_side side b)
                      (read_side-ParsesBucket side b
                        (bucket_locked-ParsesBucket l scope false v p))))
          ]
        ]
      ]

-- The calls that change the rules.
pub data Step {N : Net} (l : Acl N) : Acl N → Type 0 where
  adds : (scope list raw note : Bytes) (io : Io) → Step l (add N l scope list raw note io).0
  removes : (scope list raw : Bytes) (io : Io) → Step l (remove N l scope list raw io).0

pub data Reach {N : Net} (l : Acl N) : Acl N → Type 0 where
  here : Reach l l
  next : {m n : Acl N} → Reach l m → Step m n → Reach l n

module _ {N : Net} (laws : NetLaws N) where
  add-IsSound :
      (l : Acl N) (scope list raw note : Bytes) (io : Io)
      → IsSound l
      → IsSound (add N l scope list raw note io).0
  add-IsSound l scope list raw note io v = go (parse_ip_or_cidr N raw) refl
    where
      go :
          (r : Result AclError (Entry N))
          → parse_ip_or_cidr N raw ≡ r
          → IsSound (add N l scope list raw note io).0
      go (err d) p = rw (add_refused l scope list raw note io p) v
      go (ok e) p = rw (add_parsed l scope list raw note io p) (
          add_entry-IsSound l scope list (record e { note = trim_space note }) io v
            (noted_Parses laws raw (trim_space note) p))

  remove-IsSound :
      (l : Acl N) (scope list raw : Bytes) (io : Io)
      → IsSound l
      → IsSound (remove N l scope list raw io).0
  remove-IsSound l scope list raw io v = go (parse_ip_or_cidr N raw) refl
    where
      go :
          (r : Result AclError (Entry N))
          → parse_ip_or_cidr N raw ≡ r
          → IsSound (remove N l scope list raw io).0
      go (err d) p = unfold remove in rw (p, remove) v
      go (ok e) p =
          rw (remove_parsed l scope list raw io p) (remove_raw-IsSound l scope list e.raw io v)

  pub Step-IsSound : {l m : Acl N} → Step l m → IsSound l → IsSound m
  Step-IsSound {l} (adds scope list raw note io) v = add-IsSound l scope list raw note io v
  Step-IsSound {l} (removes scope list raw io) v = remove-IsSound l scope list raw io v

  -- Whatever additions and removals follow, failed ones included, from sound rules: every entry
  -- parses from its own text and every subdomain has one bucket.
  pub Reach-IsSound : {l m : Acl N} → IsSound l → Reach l m → IsSound m
  Reach-IsSound v here = v
  Reach-IsSound v (next path step) = Step-IsSound step (Reach-IsSound v path)
