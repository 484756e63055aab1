-- ===== src/Server/Headers/Single.antt =====
-- Header texts that hold no line end, and what is cut, trimmed and joined from them.
use mygrok.Base.{
  ℕ, zero, suc, ◌≡◌, refl, sym, subst, Bool, true, false, ◌&&◌, ◌||◌, List, [], ◌∷◌, ◌++◌, Bytes,
  codes, eqb, arith, Bool-cases, inl, inr, contains, has_prefix, All, split, join, trim_space,
  trim_left, trim_right,
}
use mygrok.Base.Trim.{List-cases}
use mygrok.Server.Headers.{crlf, split_skip, split_at}

abbrev at_lf : Bytes → Bool
at_lf [] = false
at_lf (c ∷ s) = eqb c 10

-- The text holds no line end.
abbrev pub IsSingle : Bytes → Type 0
IsSingle s = contains s crlf ≡ false

pub single_step :
    (c : ℕ) (s : Bytes) → contains (c ∷ s) crlf ≡ ((eqb c 13 && at_lf s) || contains s crlf)
unfolding contains has_prefix
single_step c [] = ground arith
single_step c (d ∷ s) = ground arith

IsSingle-nil : IsSingle []
unfolding contains has_prefix
IsSingle-nil = refl

crlf_here : (c : ℕ) (s : Bytes) → has_prefix (c ∷ s) crlf ≡ (eqb c 13 && at_lf s)
unfolding has_prefix
crlf_here c [] = ground arith
crlf_here c (d ∷ s) = ground arith

-- Around a byte that is part of no line end.
pub contains-append :
    (l r : Bytes) (c : ℕ)
    → eqb c 13 ≡ false
    → eqb c 10 ≡ false
    → contains (l ++ c ∷ r) crlf ≡ (contains l crlf || contains r crlf)
contains-append [] r c p q = unfold contains has_prefix in ground (arith, single_step c r)
contains-append (x ∷ []) r c p q =
    ground (arith, single_step x (c ∷ r), single_step c r, single_step x [], contains-append [] r c)
contains-append (x ∷ y ∷ l) r c p q =
    ground (
      arith,
      single_step x (y ∷ l ++ c ∷ r),
      single_step x (y ∷ l),
      contains-append (y ∷ l) r c p q,
    )

trim_left-IsSingle : (s : Bytes) → IsSingle s → IsSingle (trim_left s)
unfolding trim_left
trim_left-IsSingle [] h = h
trim_left-IsSingle (c ∷ s) h = ground (arith, single_step c s, trim_left-IsSingle s)

at_lf-trim_right : (s : Bytes) → at_lf (trim_right s) ≡ true → at_lf s ≡ true
unfolding trim_right
at_lf-trim_right [] h = h
at_lf-trim_right (c ∷ s) h = ground arith

trim_right-IsSingle : (s : Bytes) → IsSingle s → IsSingle (trim_right s)
unfolding trim_right
trim_right-IsSingle [] h = h
trim_right-IsSingle (c ∷ s) h =
    let step = single_step c s in
    let rest = trim_right-IsSingle s (ground (arith, step)) in
    elim (List-cases (trim_right s)) [
      | inl p ↦ ground (arith, p, single_step c [], IsSingle-nil)
      | inr (d, r, p) ↦ ground (arith, p, step, rest, single_step c (d ∷ r), at_lf-trim_right s)
    ]

pub trim_space-IsSingle : (s : Bytes) → IsSingle s → IsSingle (trim_space s)
unfolding trim_space
trim_space-IsSingle s h = trim_right-IsSingle (trim_left s) (trim_left-IsSingle s h)

-- The pieces between two bytes.
pub split-IsSingle :
    (b : ℕ) (s : Bytes)
    → IsSingle s
    → (p : Bytes) × (ps : List Bytes) × (split b s ≡ p ∷ ps)
      × IsSingle p
      × All IsSingle ps
      × (at_lf p ≡ true → at_lf s ≡ true)
unfolding split
split-IsSingle b [] h = ([], [], refl, h, tt, λ e. e)
split-IsSingle b (c ∷ s) h =
    let step = single_step c s in
    let (p, ps, e, one, rest, head) = split-IsSingle b s (ground (arith, step)) in
    elim (Bool-cases (eqb c b)) [
      | inl q ↦ ([], p ∷ ps, ground arith, IsSingle-nil, (one, rest), λ f. ground arith)
      | inr q ↦ (c ∷ p, ps, ground arith, ground (arith, step, single_step c p, head), rest, λ f. f)
    ]

-- The lines of a text.
split_skip-IsSingle :
    (n : ℕ) (s : Bytes)
    → (p : Bytes) × (ps : List Bytes) × (split_skip n crlf s ≡ p ∷ ps)
      × IsSingle p
      × All IsSingle ps
      × (n ≡ 0 → at_lf p ≡ true → at_lf s ≡ true)
unfolding split_skip
split_skip-IsSingle n [] = ([], [], refl, IsSingle-nil, tt, λ z e. e)
split_skip-IsSingle (suc n) (c ∷ s) =
    let (p, ps, e, one, rest, head) = split_skip-IsSingle n s in
    (p, ps, e, one, rest, λ z. absurd (ground arith))
split_skip-IsSingle zero (c ∷ s) = elim (Bool-cases (has_prefix (c ∷ s) crlf)) [
  | inl q ↦
      let (p, ps, e, one, rest, head) = split_skip-IsSingle 1 s in
      ([], p ∷ ps, rw (q, e) refl, IsSingle-nil, (one, rest), λ z f. ground arith)
  | inr q ↦
      let (p, ps, e, one, rest, head) = split_skip-IsSingle 0 s in
      (
        c ∷ p,
        ps,
        rw (q, e) refl,
        ground (arith, single_step c p, one, head refl, crlf_here c s, q),
        rest,
        λ z f. f,
      )
]

pub split_at-IsSingle : (s : Bytes) → All IsSingle (split_at s crlf)
unfolding split_at
split_at-IsSingle s =
    let (p, ps, e, one, rest, head) = split_skip-IsSingle 0 s in
    subst (All IsSingle) (sym e) (one, rest)

pub join-IsSingle :
    (p : Bytes) (ps : List Bytes) → All IsSingle (p ∷ ps) → IsSingle (join (p ∷ ps) (codes "; "))
unfolding join
join-IsSingle p [] h = h.0
join-IsSingle p (q ∷ ps) h = ground (
  arith,
  contains-append p (32 ∷ join (q ∷ ps) (codes "; ")) b';' refl refl,
  single_step 32 (join (q ∷ ps) (codes "; ")),
  join-IsSingle q ps h.1,
  h.0,
)
