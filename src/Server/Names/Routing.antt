-- ===== src/Server/Names/Routing.antt =====
-- Which subdomain a Host header names.
use mygrok.Base.{
  ◌-◌, ◌≡◌, refl, ap, ◌∙◌, ◌≢◌, Bool, true, false, [], ◌∷◌, ◌++◌, none, some, Bytes, ◌==◌, eq→path,
  eqb, length, length-append, take, take-append, any, any-append, to_lower, has_suffix, arith,
  Bool-cases, not, inl, inr,
}
use mygrok.Base.Suffix.{has_suffix-append, has_suffix_split, to_lower-append}
use mygrok.Server.Names.{before_last, strip_port, subdomain_of}

-- The text holds no colon.
abbrev lacks_colon : Bytes → Bool
lacks_colon s = not (any (λ c. eqb c b':') s)

before_last-none : (s : Bytes) → lacks_colon s ≡ true → before_last b':' s ≡ none
unfolding before_last
before_last-none [] h = refl
before_last-none (c ∷ s) h = ground (arith, before_last-none s)

before_last-some :
    (s port : Bytes) → lacks_colon port ≡ true → before_last b':' (s ++ b':' ∷ port) ≡ some s
unfolding before_last
before_last-some [] port h = ground (arith, before_last-none port)
before_last-some (c ∷ s) port h = ground (arith, before_last-some s port)

strip_port_none : (s : Bytes) → lacks_colon s ≡ true → strip_port s ≡ s
unfolding strip_port
strip_port_none s h = ground (arith, before_last-none s)

strip_port_some : (s port : Bytes) → lacks_colon port ≡ true → strip_port (s ++ b':' ∷ port) ≡ s
unfolding strip_port
strip_port_some s port h = ground (arith, before_last-some s port)

lacks_colon-append :
    (s t : Bytes) → lacks_colon s ≡ true → lacks_colon t ≡ true → lacks_colon (s ++ t) ≡ true
lacks_colon-append s t h k = ground (arith, any-append (λ c. eqb c b':') s t)

take_before : (l t : Bytes) → take (length (l ++ t) - length t) (l ++ t) ≡ l
take_before l t =
    let e : length (l ++ t) - length t ≡ length l = omega (arith, length-append l t) in
    rw e (take-append l t)

-- The lower-case host is longer than the zone, so the first test fails.
not-zone : (l base : Bytes) → ((l ++ b'.' ∷ base) == base) ≡ false
not-zone l base = elim (Bool-cases ((l ++ b'.' ∷ base) == base)) [
  | inl e ↦ absurd (omega (arith, ap length (eq→path _ _ e), length-append l (b'.' ∷ base)))
  | inr e ↦ e
]

subdomain_of_stripped :
    (host l base : Bytes)
    → to_lower (strip_port host) ≡ l ++ b'.' ∷ base
    → subdomain_of host base ≡ l
unfolding subdomain_of
subdomain_of_stripped host l base e =
    let n : length (l ++ b'.' ∷ base) - length base - 1
        ≡ length (l ++ b'.' ∷ base) - length (b'.' ∷ base) =
      omega arith in
    rw (e, not-zone l base, has_suffix-append l (b'.' ∷ base), n) (take_before l (b'.' ∷ base))

lower_host :
    (sub base : Bytes)
    → to_lower base ≡ base
    → to_lower (sub ++ b'.' ∷ base) ≡ to_lower sub ++ b'.' ∷ base
lower_host sub base low = rw (to_lower-append sub (b'.' ∷ base)) (unfold to_lower in rw low)

-- A host under the zone, with or without a port and in any case of letters, names its subdomain in
-- lower case. The zone is in lower case, and neither part holds a colon.
subdomain_of-host :
    (sub base port : Bytes)
    → to_lower base ≡ base
    → lacks_colon sub ≡ true
    → lacks_colon base ≡ true
    → lacks_colon port ≡ true
    → (subdomain_of (sub ++ b'.' ∷ base) base ≡ to_lower sub)
      × (subdomain_of ((sub ++ b'.' ∷ base) ++ b':' ∷ port) base ≡ to_lower sub)
subdomain_of-host sub base port low cs cb cp = (
  subdomain_of_stripped _ (to_lower sub) base (
      ap to_lower (strip_port_none _ (lacks_colon-append sub (b'.' ∷ base) cs (ground arith)))
      ∙ lower_host sub base low),
  subdomain_of_stripped _ (to_lower sub) base
      (ap to_lower (strip_port_some (sub ++ b'.' ∷ base) port cp) ∙ lower_host sub base low),
)

-- What is named is what stands before the zone: a host of another zone names no subdomain.
pub subdomain_of_sound :
    (host base : Bytes)
    → subdomain_of host base ≢ []
    → to_lower (strip_port host) ≡ subdomain_of host base ++ b'.' ∷ base
subdomain_of_sound host base h =
    let s = to_lower (strip_port host) in
    elim (Bool-cases (has_suffix s (b'.' ∷ base))) [
      | inl e ↦
          let (l, p) = has_suffix_split s (b'.' ∷ base) e in
          rw (subdomain_of_stripped host l base p) p
      | inr e ↦ absurd (h (unfold subdomain_of in ground arith))
    ]
