-- ===== src/Base/Pieces.antt =====
-- Texts cut and split at a byte.
use mygrok.Base.Tests.{eqb, Bool-cases, Option-cases}
use mygrok.Base.Lists.{any, All}
use Prim.Native.Nat.{ℕ}
use mathlib.Core.Path.{◌≡◌, refl, subst}
use mathlib.Core.Logic.{inl, inr}
use mathlib.Core.Bool.{Bool, true, not}
use mathlib.Core.Option.{some}
use mathlib.Core.List.{List, [], ◌∷◌, ◌++◌}
use native.Mathlib.Omega.{arith}
use mygrok.Base.Text.{Bytes, cut, split}

-- The text does not hold the byte.
abbrev pub lacks : ℕ → Bytes → Bool
lacks b s = not (any (λ c. eqb c b) s)

pub cut_back :
    (b : ℕ) (s : Bytes) {l r : Bytes}
    → cut b s ≡ some (l, r)
    → (s ≡ l ++ b ∷ r) × (lacks b l ≡ true)
unfolding cut
cut_back b [] e = cc
cut_back b (c ∷ s) {l} {r} e = elim (Bool-cases (eqb c b)) [
  | inl p ↦ (ground arith, ground arith)
  | inr p ↦ elim (Option-cases (cut b s)) [
    | inl q ↦ absurd (ground arith)
    | inr ((l', r'), q) ↦
        let (back, free) = cut_back b s q in (ground (arith, back), ground (arith, free))
  ]
]

pub cut_here : (b : ℕ) (l r : Bytes) → lacks b l ≡ true → cut b (l ++ b ∷ r) ≡ some (l, r)
unfolding cut
cut_here b [] r h = ground arith
cut_here b (c ∷ l) r h = ground (arith, cut_here b l r)

pub split_some : (b : ℕ) (s : Bytes) → (p : Bytes) × (ps : List Bytes) × (split b s ≡ p ∷ ps)
unfolding split
split_some b [] = ([], [], refl)
split_some b (c ∷ s) =
    let (p, ps, e) = split_some b s in
    elim (Bool-cases (eqb c b)) [
      | inl h ↦ ([], p ∷ ps, ground arith)
      | inr h ↦ (c ∷ p, ps, ground arith)
    ]

pub split-lacks : (b : ℕ) (s : Bytes) → All (λ p. lacks b p ≡ true) (split b s)
unfolding split
split-lacks b [] = (refl, tt)
split-lacks b (c ∷ s) =
    let (p, ps, e) = split_some b s in
    let (free, rest) = subst (λ qs. All (λ q. lacks b q ≡ true) qs) e (split-lacks b s) in
    elim (Bool-cases (eqb c b)) [
      | inl h ↦ rw (e, h) (refl, (free, rest))
      | inr h ↦ rw (e, h) (ground arith, rest)
    ]

-- Splitting what was joined.
pub split_lacking : (b : ℕ) (p : Bytes) → lacks b p ≡ true → split b p ≡ p ∷ []
unfolding split
split_lacking b [] h = refl
split_lacking b (c ∷ p) h = ground (arith, split_lacking b p)

pub split-append : (b : ℕ) (p s : Bytes) → lacks b p ≡ true → split b (p ++ b ∷ s) ≡ p ∷ split b s
unfolding split
split-append b [] s h = let (p, ps, e) = split_some b s in ground arith
split-append b (c ∷ p) s h = ground (arith, split-append b p s)
