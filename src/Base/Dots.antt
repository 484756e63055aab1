-- ===== src/Base/Dots.antt =====
-- strings.Trim with the dot.
use Prim.Native.Nat.{ℕ, ◌≤◌}
use mathlib.Core.Path.{◌≡◌, refl, ap, subst}
use mathlib.Core.Logic.{◌≢◌, inl, inr}
use mathlib.Core.List.{[], ◌∷◌}
use native.Mathlib.Omega.{arith}
use mygrok.Base.Tests.{eqb, if◌then◌else◌, Bool-cases}
use mygrok.Base.Lists.{length}
use mygrok.Base.Text.{Bytes}
use mygrok.Base.Trim.{List-cases}

unfoldable trim_dots_left : Bytes → Bytes
trim_dots_left [] = []
trim_dots_left (c ∷ s) = let rest = trim_dots_left s in if eqb c b'.' then rest else c ∷ s

unfoldable trim_dots_right : Bytes → Bytes
trim_dots_right [] = []
trim_dots_right (c ∷ s) = elim (trim_dots_right s) [
  | [] ↦ if eqb c b'.' then [] else c ∷ []
  | d ∷ r ↦ c ∷ d ∷ r
]

trim_dots_right_idem : (s : Bytes) → trim_dots_right (trim_dots_right s) ≡ trim_dots_right s
unfolding trim_dots_right
trim_dots_right_idem [] = refl
trim_dots_right_idem (c ∷ s) = elim (List-cases (trim_dots_right s)) [
  | inl p ↦ ground (arith, trim_dots_right_idem s)
  | inr (d, r, p) ↦
      let q : trim_dots_right (d ∷ r) ≡ d ∷ r =
        subst (λ t. trim_dots_right t ≡ t) p (trim_dots_right_idem s) in
      ground arith
]

dot_length : (s : Bytes) → length (trim_dots_left s) ≤ length s
unfolding trim_dots_left
dot_length [] = omega arith
dot_length (c ∷ s) = elim (Bool-cases (eqb c b'.')) [
  | inl p ↦ rw p (omega (arith, dot_length s))
  | inr p ↦ rw p (omega arith)
]

dot_shorter : (c : ℕ) (s : Bytes) → trim_dots_left s ≢ c ∷ s
dot_shorter c s e = omega (arith, dot_length s, ap length e)

trim_dots_left_idem : (s : Bytes) → trim_dots_left (trim_dots_left s) ≡ trim_dots_left s
unfolding trim_dots_left
trim_dots_left_idem [] = refl
trim_dots_left_idem (c ∷ s) = ground (arith, trim_dots_left_idem s)

-- A text that starts with no dot starts with none after the dots at its end have gone.
trim_dots_left_right :
    (s : Bytes) → trim_dots_left s ≡ s → trim_dots_left (trim_dots_right s) ≡ trim_dots_right s
unfolding trim_dots_left trim_dots_right
trim_dots_left_right [] h = refl
trim_dots_left_right (c ∷ s) h = elim (Bool-cases (eqb c b'.')) [
  | inl p ↦ absurd (dot_shorter c s (ground arith))
  | inr p ↦ elim (List-cases (trim_dots_right s)) [
    | inl q ↦ ground arith
    | inr (d, r, q) ↦ ground arith
  ]
]

unfoldable pub trim_dots : Bytes → Bytes
unfolding trim_dots_left trim_dots_right
trim_dots s = trim_dots_right (trim_dots_left s)

pub trim_dots_idem : (s : Bytes) → trim_dots (trim_dots s) ≡ trim_dots s
unfolding trim_dots
trim_dots_idem s =
    let plain = trim_dots_left_right (trim_dots_left s) (trim_dots_left_idem s) in
    rw plain (trim_dots_right_idem (trim_dots_left s))
