-- ===== src/Server/Views/Overview.antt =====
-- The overview of cmd/mygrokd/admin.go: `mergeSorted` and the table of `renderAdminOverview`.
use mygrok.Base.{
  ◌≡◌, refl, ap, ◌∙◌, Bool, true, false, not, ◌||◌, List, [], ◌∷◌, ◌++◌, none, some, Bytes, ◌==◌,
  eq_iff, any-append, All, member, arith, Bool-cases, inl, inr,
}
use mygrok.Base.Order.{is_some, member-sort, distinct-sort, distinct-snoc, member-keys}
use mygrok.Base.Dict.{Dict, lookup, keys}
use mygrok.Base.Keys.{distinct, lookup_absent}
use mygrok.Server.Registry.{Registry, get, active_subdomains}
use mygrok.Server.Acl.{Net, Bucket, Acl, is_empty, tunnels_configured, configured}
use mygrok.Server.Views.{
  OverviewRow, add_unseen, merge_sorted, overview_row, overview_rows, overview,
}

member-add_unseen :
    (k : Bytes) (out ss : List Bytes) → member k (add_unseen out ss) ≡ (member k out || member k ss)
unfolding add_unseen
member-add_unseen k out [] = ground arith
member-add_unseen k out (s ∷ ss) = elim (Bool-cases (member s out)) [
  | inl p ↦ rw p (ground (arith, member-add_unseen k out ss, eq_iff s k))
  | inr p ↦ rw p (
      ground (arith, member-add_unseen k (out ++ s ∷ []) ss, any-append (λ j. j == k) out (s ∷ [])))
]

distinct-add_unseen :
    (out ss : List Bytes) → distinct out ≡ true → distinct (add_unseen out ss) ≡ true
unfolding add_unseen
distinct-add_unseen out [] d = d
distinct-add_unseen out (s ∷ ss) d = elim (Bool-cases (member s out)) [
  | inl p ↦ rw p (distinct-add_unseen out ss d)
  | inr p ↦ rw p (distinct-add_unseen (out ++ s ∷ []) ss (distinct-snoc s out d p))
]

-- The merge of two lists is their union, with no repetition, in the order of sort.Strings.
merge_sorted-union :
    (a b : List Bytes)
    → (distinct (merge_sorted a b) ≡ true)
      × ((k : Bytes) → member k (merge_sorted a b) ≡ (member k a || member k b))
unfolding merge_sorted
merge_sorted-union a b =
    let seen = add_unseen [] a in
    (
      distinct-sort (add_unseen seen b)
          (distinct-add_unseen seen b (distinct-add_unseen [] a refl)),
      λ k. ground (
        arith,
        member-sort k (add_unseen seen b),
        member-add_unseen k seen b,
        member-add_unseen k [] a,
      ),
    )

-- A tunnel has rules of its own.
abbrev pub has_rules : {N : Net} → Acl N → Bytes → Bool
has_rules a sub = elim (lookup sub a.tunnels) [
  | none ↦ false
  | some b ↦ not (is_empty b.allowed) || not (is_empty b.blocked)
]

abbrev pub names : List OverviewRow → List Bytes
names [] = []
names (row ∷ rows) = row.subdomain ∷ names rows

member-active_subdomains :
    (r : Registry) (sub : Bytes) → member sub (active_subdomains r) ≡ is_some (get r sub)
unfolding active_subdomains get
member-active_subdomains r sub = member-sort sub (keys r.tunnels) ∙ member-keys sub r.tunnels

module _ {N : Net} where
  -- A line for every tunnel that is live or has rules, with what is true of it.
  pub record IsOverview (a : Acl N) (r : Registry) (rows : List OverviewRow) : Type 0 where
    pub once : distinct (names rows) ≡ true
    pub listed : (sub : Bytes) → member sub (names rows) ≡ (is_some (get r sub) || has_rules a sub)
    pub exact :
        All
          (λ row.
            (row.live ≡ is_some (get r row.subdomain))
            × (is_some row.rules ≡ has_rules a row.subdomain))
          rows

  member-configured :
      (m : Dict (Bucket N)) (sub : Bytes)
      → distinct (keys m) ≡ true
      → member sub (configured N m) ≡ elim (lookup sub m) as (λ _. Bool) [
        | none ↦ false
        | some b ↦ not (is_empty b.allowed) || not (is_empty b.blocked)
      ]
  unfolding configured lookup keys
  member-configured [] sub d = refl
  member-configured ((j, b) ∷ m) sub d =
      ground (arith, member-configured m sub, lookup_absent sub m, eq_iff j sub)

  member-tunnels_configured :
      (a : Acl N) (sub : Bytes)
      → distinct (keys a.tunnels) ≡ true
      → member sub (tunnels_configured N a) ≡ has_rules a sub
  unfolding tunnels_configured
  member-tunnels_configured a sub d =
      member-sort sub (configured N a.tunnels) ∙ member-configured a.tunnels sub d

  names-overview_rows :
      (a : Acl N) (live configured subs : List Bytes)
      → names (overview_rows N a live configured subs) ≡ subs
  unfolding overview_rows overview_row
  names-overview_rows a live configured [] = refl
  names-overview_rows a live configured (sub ∷ subs) =
      ap (λ ss. sub ∷ ss) (names-overview_rows a live configured subs)

  overview_rows-exact :
      (a : Acl N) (r : Registry) (subs : List Bytes)
      → distinct (keys a.tunnels) ≡ true
      → All
          (λ row.
            (row.live ≡ is_some (get r row.subdomain))
            × (is_some row.rules ≡ has_rules a row.subdomain))
          (overview_rows N a (active_subdomains r) (tunnels_configured N a) subs)
  unfolding overview_rows overview_row
  overview_rows-exact a r [] d = tt
  overview_rows-exact a r (sub ∷ subs) d = (
    (member-active_subdomains r sub, ground (arith, member-tunnels_configured a sub d)),
    overview_rows-exact a r subs d,
  )

  -- The overview has one line for each tunnel that is live or has rules of its own, and no other
  -- line; the line says whether the tunnel is live and whether it has rules. The map of the rules has
  -- no key twice.
  pub overview-IsOverview :
      (a : Acl N) (r : Registry)
      → distinct (keys a.tunnels) ≡ true
      → IsOverview a r (overview N a r)
  unfolding overview
  overview-IsOverview a r d =
      let live = active_subdomains r in
      let ruled = tunnels_configured N a in
      let (once, union) = merge_sorted-union live ruled in
      let same = names-overview_rows a live ruled (merge_sorted live ruled) in
      record {
        once = rw same once;
        listed = λ sub.
            rw (same, union sub)
              (ground (arith, member-active_subdomains r sub, member-tunnels_configured a sub d));
        exact = overview_rows-exact a r (merge_sorted live ruled) d;
      }
