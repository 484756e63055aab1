-- ===== src/Server/Acl/Answers.antt =====
-- What a change of the rules does to the answers of `Check`.
use mygrok.Base.{
  ◌≡◌, refl, ap, ◌∙◌, true, false, ◌||◌, [], ◌∷◌, ◌++◌, Option, none, some, Bytes, ◌==◌, eq_iff,
  any-append, arith, inl, inr, ◌≢◌, trim_space,
}
use mygrok.Base.Error.{Result, ok, err}
use mygrok.Server.Disk.{Io}
use mygrok.Server.Acl.{Net, Entry, Acl, AclError, matches, check, parse_ip_or_cidr}
use mygrok.Server.Acl.Edit.{
  Side, allow, block, bucket_slice, is_global, read_side, write_side, add_entry, add,
}
use mygrok.Server.Acl.Verdict.{permitted, check-permitted}
use mygrok.Server.Acl.Effect.{
  SameRules, Updates, Added, AddOutcome, is_not_saved, add_entry-outcome, scoped,
}

-- The rules decide, so equal rules give equal answers.
pub check-SameRules :
    {N : Net} {l m : Acl N} (s : Bytes) (a : Option N.Ip)
    → SameRules l m
    → check N m s a ≡ check N l s a
check-SameRules s none e = unfold check in refl
check-SameRules {l = l} {m = m} s (some a) e =
    rw ((check-permitted l s a).0, (check-permitted m s a).0, e.tunnels s, e.global)

module _ {N : Net} (l : Acl N) (scope list raw note : Bytes) (io : Io) where
  -- An addition with a well-formed address.
  pub add_parsed :
      {e : Entry N}
      → parse_ip_or_cidr N raw ≡ ok e
      → add N l scope list raw note io
        ≡ add_entry N l scope list (record e { note = trim_space note }) io
  unfolding add
  add_parsed p = rw (p, add)

  pub add_refused :
      {d : AclError} → parse_ip_or_cidr N raw ≡ err d → add N l scope list raw note io ≡ (l, some d)
  unfolding add
  add_refused p = rw (p, add)

-- An addition that fails before it writes the file, whatever the reason, changes no answer of the
-- rules: not for the scope it names, and not for another.
check-add_failed :
    {N : Net} (l : Acl N) (scope list raw note : Bytes) (io : Io) (s : Bytes) (a : Option N.Ip)
    → (add N l scope list raw note io).1 ≢ none
    → is_not_saved (add N l scope list raw note io).1 ≡ false
    → check N (add N l scope list raw note io).0 s a ≡ check N l s a
check-add_failed {N} l scope list raw note io s a fails unsaved = go (parse_ip_or_cidr N raw) refl
  where
    known :
        (r : Acl N × Option AclError) (e : Entry N)
        → add N l scope list raw note io ≡ r
        → AddOutcome l scope list e r
        → check N (add N l scope list raw note io).0 s a ≡ check N l s a
    known r e p (inl (d, q, _, same)) = rw p (check-SameRules s a same)
    known r e p (inr (_, inl q)) = absurd (fails (rw p q))
    known r e p (inr (_, inr q)) = absurd (ground (arith, p, q, unsaved))

    go :
        (r : Result AclError (Entry N))
        → parse_ip_or_cidr N raw ≡ r
        → check N (add N l scope list raw note io).0 s a ≡ check N l s a
    go (err d) p = rw (add_refused l scope list raw note io p)
    go (ok e) p =
        let e' : Entry N = record e { note = trim_space note } in
        known (add_entry N l scope list e' io) e' (add_parsed l scope list raw note io p)
          (add_entry-outcome l scope list e' io)

-- An addition that succeeded has changed exactly the list that it names.
pub add-Added :
    {N : Net} (l : Acl N) (scope list raw note : Bytes) (io : Io) {e : Entry N}
    → parse_ip_or_cidr N raw ≡ ok e
    → (add N l scope list raw note io).1 ≡ none
    → Added l scope list (record e { note = trim_space note }) (add N l scope list raw note io).0
add-Added {N} l scope list raw note io {e} p success =
    let e' : Entry N = record e { note = trim_space note } in
    elim (add_entry-outcome l scope list e' io) [
      | inl (d, q, _, _) ↦ absurd (
          ground (
            arith,
            ap (λ (r : Acl N × Option AclError). r.1) (add_parsed l scope list raw note io p),
          ))
      | inr (a, _) ↦ rw (add_parsed l scope list raw note io p) a
    ]

-- Once an address range has been added to the block list of a scope, no address of it reaches a
-- tunnel of that scope: the named tunnel, or any tunnel for the global scope.
check-add_block :
    {N : Net} (l : Acl N) (scope list raw note : Bytes) (io : Io) (e : Entry N) (s : Bytes)
    (a : N.Ip)
    → parse_ip_or_cidr N raw ≡ ok e
    → bucket_slice list ≡ some block
    → (add N l scope list raw note io).1 ≡ none
    → matches N a e ≡ true
    → (is_global scope || (scope == s)) ≡ true
    → check N (add N l scope list raw note io).0 s (some a) ≡ false
check-add_block {N} l scope list raw note io e s a p blocks success hit here =
    let (side, _, q, _, u) = add-Added l scope list raw note io p success in
    let m = (add N l scope list raw note io).0 in
    let e' : Entry N = record e { note = trim_space note } in
    let hit' : matches N a e' ≡ true = unfold matches in hit in
    (check-permitted m s a).0 ∙ blocked m side e' hit' q u
  where
    blocked :
        (m : Acl N) (side : Side) (e' : Entry N)
        → matches N a e' ≡ true
        → bucket_slice list ≡ some side
        → Updates l scope
            (write_side side (read_side side (scoped l scope) ++ e' ∷ []) (scoped l scope))
            m
        → permitted m s a ≡ false
    blocked m allow e' h q u = absurd (ground (arith, blocks))
    blocked m block e' h q u = ground (
      arith,
      u.global,
      u.tunnels s,
      any-append (matches N a) (scoped l scope).blocked (e' ∷ []),
      eq_iff scope [],
      eq_iff s [],
      eq_iff scope s,
    )
