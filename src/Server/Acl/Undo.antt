-- ===== src/Server/Acl/Undo.antt =====
-- `Remove` after `Add` of cmd/mygrokd/ipacl.go.
use mygrok.Base.{
  ◌≡◌, refl, ap, ◌∙◌, subst, true, false, not, ◌||◌, List, [], ◌∷◌, ◌++◌, Option, none, some, Bytes,
  ◌==◌, eq_iff, eq_refl, if◌then◌else◌, keep, any-append, keep-append, keep-all, not-any, arith,
  ◌⊎◌, trim_space, append-nil,
}
use mygrok.Base.Error.{ok}
use mygrok.Server.Disk.{Io}
use mygrok.Server.Names.{looks_like_subdomain}
use mygrok.Server.Acl.{Net, Entry, Bucket, Acl, check, save, parse_ip_or_cidr, not_in}
use mygrok.Server.Acl.Edit.{
  Side, allow, block, bucket_slice, is_global, read_side, write_side, has_raw, bucket_locked,
  write_bucket, remove_raw, add, remove,
}
use mygrok.Server.Acl.Verdict.{rules}
use mygrok.Server.Acl.Effect.{
  SameRules, Updates, Added, is_not_saved, scoped, bucket_locked-SameRules, write_bucket-Updates,
  save-SameRules, saved-outcome, Updates-SameRules,
}
use mygrok.Server.Acl.Answers.{add-Added, check-SameRules}

module _ {N : Net} where
  abbrev pub without_raw : Bytes → List (Entry N) → List (Entry N)
  without_raw raw = keep (λ e. not (e.raw == raw))

  -- A scope whose bucket holds something is found.
  bucket_locked_present :
      (l : Acl N) (scope raw : Bytes) (side : Side)
      → (is_global scope || looks_like_subdomain scope) ≡ true
      → has_raw raw (read_side side (scoped l scope)) ≡ true
      → (bucket_locked N l scope false).1 ≡ some (scoped l scope)
  unfolding bucket_locked rules
  bucket_locked_present l scope raw allow named has = ground arith
  bucket_locked_present l scope raw block named has = ground arith

  pub remove_raw_present :
      (l : Acl N) (scope list raw : Bytes) (io : Io) {b : Bucket N} {side : Side}
      → (bucket_locked N l scope false).1 ≡ some b
      → bucket_slice list ≡ some side
      → remove_raw N l scope list raw io ≡ (
          if has_raw raw (read_side side b)
          then save N
              (write_bucket N
                (bucket_locked N l scope false).0
                scope
                (write_side side (without_raw raw (read_side side b)) b))
              io
          else ((bucket_locked N l scope false).0, some (not_in raw scope list)))
  unfolding remove_raw
  remove_raw_present l scope list raw io p q = rw (p, remove_raw) (rw (q, remove_raw))

  -- A removal of an entry that is there drops it from its list, and fails in the save only.
  pub remove_raw-Updates :
      (l : Acl N) (scope list raw : Bytes) (io : Io) (side : Side)
      → (is_global scope || looks_like_subdomain scope) ≡ true
      → bucket_slice list ≡ some side
      → has_raw raw (read_side side (scoped l scope)) ≡ true
      → Updates l scope
          (write_side side (without_raw raw (read_side side (scoped l scope))) (scoped l scope))
          (remove_raw N l scope list raw io).0
        × (((remove_raw N l scope list raw io).1 ≡ none)
            ⊎ (is_not_saved (remove_raw N l scope list raw io).1 ≡ true))
  remove_raw-Updates l scope list raw io side named q has =
      let b = scoped l scope in
      let l' = (bucket_locked N l scope false).0 in
      let b' = write_side side (without_raw raw (read_side side b)) b in
      rw
        (
          remove_raw_present l scope list raw io (bucket_locked_present l scope raw side named has)
              q,
          has,
        )
        (
          Updates-SameRules (bucket_locked-SameRules l scope false)
              (write_bucket-Updates l' scope b') (save-SameRules (write_bucket N l' scope b') io),
          saved-outcome (write_bucket N l' scope b') io,
        )

  without_raw-append :
      (e : Entry N) (es : List (Entry N))
      → has_raw e.raw es ≡ false
      → without_raw e.raw (es ++ e ∷ []) ≡ es
  without_raw-append e es fresh =
      keep-append (λ d. not (d.raw == e.raw)) es (e ∷ [])
      ∙ ground (
        arith,
        keep-all (λ d. not (d.raw == e.raw)) es (not-any (λ d. d.raw == e.raw) es fresh),
        eq_refl e.raw,
        append-nil es,
      )

  read-write_side :
      (side : Side) (es : List (Entry N)) (b : Bucket N)
      → read_side side (write_side side es b) ≡ es
  read-write_side allow es b = refl
  read-write_side block es b = refl

  write-write_side :
      (side : Side) (es : List (Entry N)) (b : Bucket N)
      → write_side side (read_side side b) (write_side side es b) ≡ b
  write-write_side allow es b = refl
  write-write_side block es b = refl

  scoped-Updates :
      (l : Acl N) (scope : Bytes) (b : Bucket N) (m : Acl N)
      → Updates l scope b m
      → scoped m scope ≡ b
  scoped-Updates l scope b m u = ground (arith, u.global, u.tunnels scope, eq_refl scope)

  Updates-back :
      (l : Acl N) (scope : Bytes) (b : Bucket N) (m m' : Acl N)
      → Updates l scope b m
      → Updates m scope (scoped l scope) m'
      → SameRules l m'
  Updates-back l scope b m m' u w = record {
    global = ground (arith, u.global, w.global);
    tunnels = λ s. ground (arith, u.tunnels s, w.tunnels s, eq_iff scope s);
  }

  -- The removal of an entry that has just been added.
  undo :
      (l m : Acl N) (scope list : Bytes) (e : Entry N) (io : Io)
      → Added l scope list e m
      → SameRules l (remove_raw N m scope list e.raw io).0
        × (((remove_raw N m scope list e.raw io).1 ≡ none)
            ⊎ (is_not_saved (remove_raw N m scope list e.raw io).1 ≡ true))
  undo l m scope list e io (side, named, q, fresh, u) =
      let b = scoped l scope in
      let es = read_side side b in
      let b' = write_side side (es ++ e ∷ []) b in
      let now = scoped-Updates l scope b' m u in
      let target : read_side side (scoped m scope) ≡ es ++ e ∷ [] =
        ap (read_side side) now ∙ read-write_side side (es ++ e ∷ []) b in
      let has : has_raw e.raw (read_side side (scoped m scope)) ≡ true =
        ap (has_raw e.raw) target
        ∙ ground (arith, any-append (λ d. d.raw == e.raw) es (e ∷ []), eq_refl e.raw) in
      let (w, fine) = remove_raw-Updates m scope list e.raw io side named q has in
      let back : write_side side (without_raw e.raw (read_side side (scoped m scope)))
            (scoped m scope)
          ≡ b =
        ap (λ (xs : List (Entry N)). write_side side (without_raw e.raw xs) (scoped m scope)) target
        ∙ ap (λ (xs : List (Entry N)). write_side side xs (scoped m scope))
            (without_raw-append e es fresh)
        ∙ ap (write_side side es) now
        ∙ write-write_side side (es ++ e ∷ []) b in
      (
        Updates-back l scope b' m _ u (
            subst (λ (c : Bucket N). Updates m scope c (remove_raw N m scope list e.raw io).0) back
              w),
        fine,
      )

module _ {N : Net} (l : Acl N) (scope list raw : Bytes) (io : Io) where
  pub remove_parsed :
      {e : Entry N}
      → parse_ip_or_cidr N raw ≡ ok e
      → remove N l scope list raw io ≡ remove_raw N l scope list e.raw io
  unfolding remove
  remove_parsed p = rw (p, remove)

-- Removing what has just been added, under the same scope, list and address, succeeds (unless the
-- file cannot be written) and gives back every answer of the rules.
pub remove-add :
    {N : Net} (l : Acl N) (scope list raw note : Bytes) (io io' : Io) {e : Entry N} (s : Bytes)
    (a : Option N.Ip)
    → parse_ip_or_cidr N raw ≡ ok e
    → (add N l scope list raw note io).1 ≡ none
    → let r = remove N (add N l scope list raw note io).0 scope list raw io' in
      (check N r.0 s a ≡ check N l s a) × ((r.1 ≡ none) ⊎ (is_not_saved r.1 ≡ true))
remove-add {N} l scope list raw note io io' {e} s a p success =
    let m = (add N l scope list raw note io).0 in
    let e' : Entry N = record e { note = trim_space note } in
    let (same, fine) = undo l m scope list e' io' (add-Added l scope list raw note io p success) in
    rw (remove_parsed m scope list raw io' p) (check-SameRules s a same, fine)
