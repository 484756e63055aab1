-- ===== src/Server/Acl/Effect.antt =====
-- What `Add` and `Remove` do to the rules.
use mygrok.Base.{
  ◌≡◌, refl, subst, Bool, true, false, ◌&&◌, ◌||◌, [], ◌∷◌, ◌++◌, Option, none, some, Bytes, ◌==◌,
  eq_iff, if◌then◌else◌, arith, Option-cases, inl, inr, Bool-cases, ◌⊎◌,
}
use mygrok.Base.Dict.{lookup-insert, lookup-erase}
use mygrok.Server.Disk.{Io}
use mygrok.Server.Names.{looks_like_subdomain}
use mygrok.Server.Acl.{
  Net, Entry, Bucket, Acl, AclError, is_empty, no_rules, save, not_saved, invalid_scope,
  unknown_list, already_in,
}
use mygrok.Server.Acl.Edit.{
  Side, bucket_slice, is_global, read_side, write_side, has_raw, bucket_locked, write_bucket,
  add_entry,
}
use mygrok.Server.Acl.Verdict.{rules}

-- The error is one of the save, after the rules have been changed.
abbrev pub is_not_saved : Option AclError → Bool
is_not_saved (some (not_saved d)) = true
is_not_saved _ = false

module _ {N : Net} where
  -- The bucket that a scope means.
  abbrev pub scoped : Acl N → Bytes → Bucket N
  scoped l scope = if is_global scope then l.global else rules l scope

  -- The state `m` has the rules of `l`, but for the bucket of `scope`, which is `b`.
  pub record Updates (l : Acl N) (scope : Bytes) (b : Bucket N) (m : Acl N) : Type 0 where
    pub global : m.global ≡ (if is_global scope then b else l.global)
    pub tunnels :
        (s : Bytes)
        → rules m s ≡ (if is_global scope then rules l s else if scope == s then b else rules l s)

  -- The state `m` has the rules of `l`.
  pub record SameRules (l m : Acl N) : Type 0 where
    pub global : m.global ≡ l.global
    pub tunnels : (s : Bytes) → rules m s ≡ rules l s

  pub bucket_locked_found :
      (l : Acl N) (scope : Bytes) (create : Bool) {b : Bucket N}
      → (bucket_locked N l scope create).1 ≡ some b
      → b ≡ scoped l scope
  unfolding bucket_locked rules
  bucket_locked_found l scope create e = ground arith

  bucket_locked_named :
      (l : Acl N) (scope : Bytes) (create : Bool) {b : Bucket N}
      → (bucket_locked N l scope create).1 ≡ some b
      → (is_global scope || looks_like_subdomain scope) ≡ true
  unfolding bucket_locked
  bucket_locked_named l scope create e = ground arith

  bucket_locked-global :
      (l : Acl N) (scope : Bytes) (create : Bool)
      → (bucket_locked N l scope create).0.global ≡ l.global
  unfolding bucket_locked
  bucket_locked-global l scope create = ground arith

  bucket_locked-rules :
      (l : Acl N) (scope : Bytes) (create : Bool) (s : Bytes)
      → rules (bucket_locked N l scope create).0 s ≡ rules l s
  unfolding bucket_locked rules
  bucket_locked-rules l scope create s =
      ground (arith, lookup-insert scope s (no_rules N) l.tunnels, eq_iff scope s)

  pub bucket_locked-SameRules :
      (l : Acl N) (scope : Bytes) (create : Bool) → SameRules l (bucket_locked N l scope create).0
  bucket_locked-SameRules l scope create = record {
    global = bucket_locked-global l scope create;
    tunnels = bucket_locked-rules l scope create;
  }

  empty-no_rules :
      (b : Bucket N) → (is_empty b.allowed && is_empty b.blocked) ≡ true → b ≡ no_rules N
  empty-no_rules b e = ground arith

  pub write_bucket-Updates :
      (l : Acl N) (scope : Bytes) (b : Bucket N) → Updates l scope b (write_bucket N l scope b)
  unfolding write_bucket rules
  write_bucket-Updates l scope b = record {
    global = ground arith;
    tunnels = λ s. ground (
      arith,
      lookup-insert scope s b l.tunnels,
      lookup-erase scope s l.tunnels,
      empty-no_rules b,
    );
  }

  pub save-SameRules : (l : Acl N) (io : Io) → SameRules l (save N l io).0
  unfolding save rules
  save-SameRules l io = record { global = refl; tunnels = λ s. refl }

  pub Updates-SameRules :
      {l l' m m' : Acl N} {scope : Bytes} {b : Bucket N}
      → SameRules l l'
      → Updates l' scope b m
      → SameRules m m'
      → Updates l scope b m'
  Updates-SameRules {scope = scope} p u q = record {
    global = ground (arith, p.global, u.global, q.global);
    tunnels = λ s. ground (arith, p.tunnels s, u.tunnels s, q.tunnels s);
  }

  -- The outcome of an addition that passed every test.
  abbrev pub Added : Acl N → Bytes → Bytes → Entry N → Acl N → Type 0
  Added l scope list e m =
      (side : Side) × ((is_global scope || looks_like_subdomain scope) ≡ true)
      × (bucket_slice list ≡ some side)
      × (has_raw e.raw (read_side side (scoped l scope)) ≡ false)
      × Updates l scope
          (write_side side (read_side side (scoped l scope) ++ e ∷ []) (scoped l scope)) m

  save_error :
      (l : Acl N) (io : Io) {d : AclError} → (save N l io).1 ≡ some d → is_not_saved (some d) ≡ true
  unfolding save
  save_error l io e = ground arith

  -- An addition either fails and keeps the rules, or it has changed exactly one list.
  abbrev pub AddOutcome : Acl N → Bytes → Bytes → Entry N → Acl N × Option AclError → Type 0
  AddOutcome l scope list e r =
      ((d : AclError) × (r.1 ≡ some d) × (is_not_saved (some d) ≡ false) × SameRules l r.0)
      ⊎ (Added l scope list e r.0 × ((r.1 ≡ none) ⊎ (is_not_saved r.1 ≡ true)))

  pub saved-outcome :
      (l : Acl N) (io : Io) → ((save N l io).1 ≡ none) ⊎ (is_not_saved (save N l io).1 ≡ true)
  saved-outcome l io = elim (Option-cases (save N l io).1) [
    | inl p ↦ inl p
    | inr (d, p) ↦ inr (rw p (save_error l io p))
  ]

  added :
      (l : Acl N) (scope list : Bytes) (e : Entry N) (io : Io) (side : Side) (b : Bucket N)
      → (is_global scope || looks_like_subdomain scope) ≡ true
      → bucket_slice list ≡ some side
      → has_raw e.raw (read_side side b) ≡ false
      → b ≡ scoped l scope
      → Added l scope list e
          (save N
            (write_bucket N
              (bucket_locked N l scope true).0
              scope
              (write_side side (read_side side b ++ e ∷ []) b))
            io).0
  added l scope list e io side b named q fresh is_b =
      let l' = (bucket_locked N l scope true).0 in
      let b' = write_side side (read_side side b ++ e ∷ []) b in
      let w =
        Updates-SameRules (bucket_locked-SameRules l scope true) (write_bucket-Updates l' scope b')
          (save-SameRules (write_bucket N l' scope b') io) in
      (
        side,
        named,
        q,
        rw (← is_b) fresh,
        subst
            (λ (c : Bucket N).
              Updates l scope (write_side side (read_side side c ++ e ∷ []) c)
                (save N (write_bucket N l' scope b') io).0)
            is_b w,
      )

  -- The three kinds of run of `add_entry`.
  pub add_entry_invalid :
      (l : Acl N) (scope list : Bytes) (e : Entry N) (io : Io)
      → (bucket_locked N l scope true).1 ≡ none
      → add_entry N l scope list e io
        ≡ ((bucket_locked N l scope true).0, some (invalid_scope scope))
  unfolding add_entry
  add_entry_invalid l scope list e io p = ground arith

  pub add_entry_unknown :
      (l : Acl N) (scope list : Bytes) (e : Entry N) (io : Io) {b : Bucket N}
      → (bucket_locked N l scope true).1 ≡ some b
      → bucket_slice list ≡ none
      → add_entry N l scope list e io ≡ ((bucket_locked N l scope true).0, some (unknown_list list))
  unfolding add_entry
  add_entry_unknown l scope list e io p q = ground arith

  pub add_entry_known :
      (l : Acl N) (scope list : Bytes) (e : Entry N) (io : Io) {b : Bucket N} {side : Side}
      → (bucket_locked N l scope true).1 ≡ some b
      → bucket_slice list ≡ some side
      → add_entry N l scope list e io ≡ (
          if has_raw e.raw (read_side side b)
          then ((bucket_locked N l scope true).0, some (already_in e.raw scope list))
          else save N
              (write_bucket N
                (bucket_locked N l scope true).0
                scope
                (write_side side (read_side side b ++ e ∷ []) b))
              io)
  unfolding add_entry
  add_entry_known l scope list e io p q = rw (p, add_entry) (rw (q, add_entry))

  pub add_entry-outcome :
      (l : Acl N) (scope list : Bytes) (e : Entry N) (io : Io)
      → AddOutcome l scope list e (add_entry N l scope list e io)
  add_entry-outcome l scope list e io =
      let keeps = bucket_locked-SameRules l scope true in
      let l' = (bucket_locked N l scope true).0 in
      elim (Option-cases (bucket_locked N l scope true).1) [
        | inl p ↦ rw (add_entry_invalid l scope list e io p) (inl (_, refl, refl, keeps))
        | inr (b, p) ↦ elim (Option-cases (bucket_slice list)) [
          | inl q ↦ rw (add_entry_unknown l scope list e io p q) (inl (_, refl, refl, keeps))
          | inr (side, q) ↦ elim (Bool-cases (has_raw e.raw (read_side side b))) [
            | inl dup ↦ rw (add_entry_known l scope list e io p q, dup) (inl (_, refl, refl, keeps))
            | inr fresh ↦
                rw (add_entry_known l scope list e io p q, fresh)
                  (inr (
                    added l scope list e io side b (bucket_locked_named l scope true p) q fresh
                        (bucket_locked_found l scope true p),
                    saved-outcome
                        (write_bucket N l' scope (write_side side (read_side side b ++ e ∷ []) b))
                        io,
                  ))
          ]
        ]
      ]
