-- ===== src/Base/Trim.antt =====
-- strings.TrimSpace, applied twice and searched for a byte.
use mygrok.Base.Tests.{Bool-cases}
use mygrok.Base.Lists.{length}
use Prim.Native.Nat.{ℕ, ◌≤◌}
use mathlib.Core.Path.{◌≡◌, refl, ap, ◌∙◌, subst}
use mathlib.Core.Logic.{◌≢◌, ◌⊎◌, inl, inr}
use mathlib.Core.Bool.{true}
use mathlib.Core.List.{List, [], ◌∷◌}
use native.Mathlib.Omega.{arith}
use mygrok.Base.Text.{Bytes, trim_space, trim_left, trim_right, is_space}
use mygrok.Base.Pieces.{lacks}

lacks-trim_left : (b : ℕ) (s : Bytes) → lacks b s ≡ true → lacks b (trim_left s) ≡ true
unfolding trim_left
lacks-trim_left b [] h = refl
lacks-trim_left b (c ∷ s) h = ground (arith, lacks-trim_left b s)

lacks-trim_right : (b : ℕ) (s : Bytes) → lacks b s ≡ true → lacks b (trim_right s) ≡ true
unfolding trim_right
lacks-trim_right b [] h = refl
lacks-trim_right b (c ∷ s) h = ground (arith, lacks-trim_right b s)

pub List-cases {ℓ} : {A : Type ℓ} (s : List A) → (s ≡ []) ⊎ ((d : A) × (r : List A) × (s ≡ d ∷ r))
List-cases [] = inl refl
List-cases (d ∷ r) = inr (d, r, refl)

length-trim_left : (s : Bytes) → length (trim_left s) ≤ length s
unfolding trim_left
length-trim_left [] = omega arith
length-trim_left (c ∷ s) = elim (Bool-cases (is_space c)) [
  | inl p ↦ rw p (omega (arith, length-trim_left s))
  | inr p ↦ rw p (omega arith)
]

shorter : (c : ℕ) (s : Bytes) → trim_left s ≢ c ∷ s
shorter c s e = omega (arith, length-trim_left s, ap length e)

trim_right_idem : (s : Bytes) → trim_right (trim_right s) ≡ trim_right s
unfolding trim_right
trim_right_idem [] = refl
trim_right_idem (c ∷ s) = elim (List-cases (trim_right s)) [
  | inl p ↦ ground (arith, trim_right_idem s)
  | inr (d, r, p) ↦
      let q : trim_right (d ∷ r) ≡ d ∷ r = subst (λ t. trim_right t ≡ t) p (trim_right_idem s) in
      ground (arith, q)
]

trim_left_right : (s : Bytes) → trim_left s ≡ s → trim_left (trim_right s) ≡ trim_right s
unfolding trim_left trim_right
trim_left_right [] h = refl
trim_left_right (c ∷ s) h = elim (Bool-cases (is_space c)) [
  | inl p ↦ absurd (shorter c s (ground arith))
  | inr p ↦ elim (List-cases (trim_right s)) [ inl q ↦ ground arith | inr (d, r, q) ↦ ground arith ]
]

trim_left_idem : (s : Bytes) → trim_left (trim_left s) ≡ trim_left s
unfolding trim_left
trim_left_idem [] = refl
trim_left_idem (c ∷ s) = ground (arith, trim_left_idem s)

pub trim_space_idem : (s : Bytes) → trim_space (trim_space s) ≡ trim_space s
unfolding trim_space
trim_space_idem s =
    ap trim_right (trim_left_right (trim_left s) (trim_left_idem s)) ∙ trim_right_idem (trim_left s)

pub lacks-trim_space : (b : ℕ) (s : Bytes) → lacks b s ≡ true → lacks b (trim_space s) ≡ true
unfolding trim_space
lacks-trim_space b s h = lacks-trim_right b (trim_left s) (lacks-trim_left b s h)
