-- ===== src/Server/Acl/Verdict.antt =====
-- `Check` against the rules as docs/access-control.md lists them.
use mygrok.Base.{
  ◌≡◌, refl, Bool, true, not, ◌&&◌, ◌||◌, List, [], none, some, Bytes, ◌==◌, if◌then◌else◌, any,
  arith, Option-cases, inl, inr, Bool-cases,
}
use mygrok.Base.Dict.{lookup}
use mygrok.Server.Acl.{
  Net, Entry, Bucket, Acl, is_empty, no_rules, matches, tunnel_verdict, global_verdict, check,
}

module _ {N : Net} where
  open N use {Ip}

  -- The rules stored for a subdomain.
  unfoldable pub rules : Acl N → Bytes → Bucket N
  rules l sub = elim (lookup sub l.tunnels) [ none ↦ no_rules N | some t ↦ t ]

  -- The rules that apply to a request: none where no tunnel was identified.
  abbrev pub applied : Acl N → Bytes → Bucket N
  applied l sub = if sub == [] then no_rules N else rules l sub

  -- The allow list in force: the tunnel's own if it has one, and the global one otherwise.
  abbrev in_force : Acl N → Bytes → List (Entry N)
  in_force l sub =
      if is_empty (applied l sub).allowed then l.global.allowed else (applied l sub).allowed

  -- Neither block list has the address, and the allow list in force is empty or has it.
  abbrev pub permitted : Acl N → Bytes → Ip → Bool
  permitted l sub a =
      not (any (matches N a) l.global.blocked)
      && (not (any (matches N a) (applied l sub).blocked)
          && (is_empty (in_force l sub) || any (matches N a) (in_force l sub)))

  -- A known address passes exactly if neither block list has it and the allow list in force is empty
  -- or has it; a request with no readable address passes.
  pub check-permitted :
      (l : Acl N) (sub : Bytes) (a : Ip)
      → (check N l sub (some a) ≡ permitted l sub a) × (check N l sub none ≡ true)
  unfolding check tunnel_verdict global_verdict rules
  check-permitted l sub a = (
    elim (Bool-cases (sub == [])) [
      | inl e ↦ ground arith
      | inr e ↦ elim (Option-cases (lookup sub l.tunnels)) [
        | inl p ↦ ground arith
        | inr (t, p) ↦ ground arith
      ]
    ],
    refl,
  )
