-- ===== src/Server/Acl/Ruled.antt =====
-- One change of a list of rules, `Add` or `Remove` of cmd/mygrokd/ipacl.go, in all its outcomes.
use mygrok.Base.{
  ◌≡◌, refl, Bool, true, false, not, ◌||◌, ◌⊎◌, List, [], ◌∷◌, ◌++◌, Option, none, some, Bytes,
  arith, Bool-cases, Option-cases, inl, inr, trim_space,
}
use mygrok.Base.Error.{ok, err, Result-cases}
use mygrok.Server.Disk.{Io}
use mygrok.Server.Names.{looks_like_subdomain}
use mygrok.Server.Acl.{Net, Entry, Acl, AclError, already_in, not_in, parse_ip_or_cidr}
use mygrok.Server.Acl.Edit.{
  Side, allow, block, is_global, read_side, write_side, has_raw, bucket_slice, bucket_locked,
  write_bucket, add, remove_raw, remove,
}
use mygrok.Server.Acl.Verdict.{rules}
use mygrok.Server.Acl.Effect.{
  scoped, Updates, SameRules, Updates-SameRules, bucket_locked-SameRules, write_bucket-Updates,
  save-SameRules, saved-outcome, is_not_saved, add_entry_known, bucket_locked_found,
}
use mygrok.Server.Acl.Undo.{without_raw, remove_raw_present, remove_parsed, remove_raw-Updates}

module _ {N : Net} where
  -- A list with the entry at its end, or without every entry of the same text.
  abbrev pub revised : Bool → Entry N → Bytes → List (Entry N) → List (Entry N)
  revised true e note es = es ++ record e { note = trim_space note } ∷ []
  revised false e note es = without_raw e.raw es

  -- The outcome `r` of an addition, or else a removal, of the address `raw` on one list of a scope.
  -- An address that does not parse changes nothing. One that is on the list already, or that is to go
  -- and is not on it, is refused and changes no rule. In every other case that list, and no other, is
  -- revised, and the only error is one of the file.
  pub data IsRuled (l : Acl N) (side : Side) (adding : Bool) (scope raw note : Bytes)
      (r : Acl N × Option AclError) : Type 0 where
    unread :
        {d : AclError}
        → parse_ip_or_cidr N raw ≡ err d
        → r ≡ (l, some d)
        → IsRuled l side adding scope raw note r
    refused :
        {e : Entry N} {d : AclError}
        → parse_ip_or_cidr N raw ≡ ok e
        → has_raw e.raw (read_side side (scoped l scope)) ≡ adding
        → r.1 ≡ some d
        → SameRules l r.0
        → IsRuled l side adding scope raw note r
    revises :
        {e : Entry N}
        → parse_ip_or_cidr N raw ≡ ok e
        → has_raw e.raw (read_side side (scoped l scope)) ≡ not adding
        → Updates l scope
            (write_side side
              (revised adding e note (read_side side (scoped l scope)))
              (scoped l scope))
            r.0
        → (r.1 ≡ none) ⊎ (is_not_saved r.1 ≡ true)
        → IsRuled l side adding scope raw note r

  bucket_locked_made :
      (l : Acl N) (scope : Bytes)
      → (is_global scope || looks_like_subdomain scope) ≡ true
      → (bucket_locked N l scope true).1 ≡ some (scoped l scope)
  unfolding bucket_locked rules
  bucket_locked_made l scope named = ground arith

  -- A scope without rules has no entry.
  bucket_locked_missing :
      (l : Acl N) (scope raw : Bytes) (side : Side)
      → (bucket_locked N l scope false).1 ≡ none
      → (is_global scope || looks_like_subdomain scope) ≡ true
      → has_raw raw (read_side side (scoped l scope)) ≡ false
  unfolding bucket_locked rules
  bucket_locked_missing l scope raw allow p named = ground arith
  bucket_locked_missing l scope raw block p named = ground arith

  remove_raw_missing :
      (l : Acl N) (scope list raw : Bytes) (io : Io)
      → (bucket_locked N l scope false).1 ≡ none
      → (d : AclError) × ((remove_raw N l scope list raw io).1 ≡ some d)
        × ((remove_raw N l scope list raw io).0 ≡ (bucket_locked N l scope false).0)
  unfolding remove_raw
  remove_raw_missing l scope list raw io p = rw (p, remove_raw) (_, refl, refl)

module _ {N : Net} (l : Acl N) (scope list raw note : Bytes) (io : Io) {side : Side} where
  pub add-IsRuled :
      (is_global scope || looks_like_subdomain scope) ≡ true
      → bucket_slice list ≡ some side
      → IsRuled l side true scope raw note (add N l scope list raw note io)
  unfolding add
  add-IsRuled named q = elim (Result-cases (parse_ip_or_cidr N raw)) [
    | inl (d, p) ↦ unread p (rw (p, add) refl)
    | inr (e, p) ↦
        let entry : Entry N = record e { note = trim_space note } in
        let b = scoped l scope in
        let l' = (bucket_locked N l scope true).0 in
        let b' = write_side side (read_side side b ++ entry ∷ []) b in
        let run = add_entry_known l scope list entry io (bucket_locked_made l scope named) q in
        elim (Bool-cases (has_raw e.raw (read_side side b))) [
          | inl dup ↦
              refused {d = already_in entry.raw scope list} p dup (rw (p, add) (rw (run, dup) refl))
                (rw (p, add) (rw (run, dup) (bucket_locked-SameRules l scope true)))
          | inr fresh ↦
              revises p fresh
                (rw (p, add)
                  (rw (run, fresh)
                    (Updates-SameRules (bucket_locked-SameRules l scope true)
                      (write_bucket-Updates l' scope b')
                      (save-SameRules (write_bucket N l' scope b') io))))
                (rw (p, add) (rw (run, fresh) (saved-outcome (write_bucket N l' scope b') io)))
        ]
  ]

  pub remove-IsRuled :
      (is_global scope || looks_like_subdomain scope) ≡ true
      → bucket_slice list ≡ some side
      → IsRuled l side false scope raw note (remove N l scope list raw io)
  unfolding remove
  remove-IsRuled named q = elim (Result-cases (parse_ip_or_cidr N raw)) [
    | inl (d, p) ↦ unread p (rw (p, remove) refl)
    | inr (e, p) ↦
        let run = remove_parsed l scope list raw io p in
        let kept = bucket_locked-SameRules l scope false in
        elim (Bool-cases (has_raw e.raw (read_side side (scoped l scope)))) [
          | inl has ↦
              let (w, fine) = remove_raw-Updates l scope list e.raw io side named q has in
              revises p has (rw run w) (rw run fine)
          | inr lacks ↦ elim (Option-cases (bucket_locked N l scope false).1) [
            | inl m ↦
                let (d, is_d, same) = remove_raw_missing l scope list e.raw io m in
                refused {d = d} p lacks (rw run is_d) (rw (run, same) kept)
            | inr (b, m) ↦
                let free : has_raw e.raw (read_side side b) ≡ false =
                  rw (bucket_locked_found l scope false m) lacks in
                let refusal = remove_raw_present l scope list e.raw io m q in
                refused {d = not_in e.raw scope list} p lacks (rw (run, refusal, free) refl)
                  (rw (run, refusal, free) kept)
          ]
        ]
  ]
