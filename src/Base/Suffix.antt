-- ===== src/Base/Suffix.antt =====
-- Suffixes of texts, and lower case.
use Prim.Native.Nat.{suc}
use mathlib.Core.Path.{◌≡◌, refl, ap}
use mathlib.Core.Bool.{true}
use mathlib.Core.Logic.{inl, inr}
use mathlib.Core.List.{[], ◌∷◌, ◌++◌}
use native.Mathlib.Omega.{arith}
use mygrok.Base.Tests.{Bool-cases}
use mygrok.Base.Lists.{length}
use mygrok.Base.Text.{Bytes, ◌==◌, eq→path, eq_refl, has_suffix, to_lower}

pub has_suffix-append : (s t : Bytes) → has_suffix (s ++ t) t ≡ true
unfolding has_suffix
has_suffix-append [] [] = unfold ◌==◌ in refl
has_suffix-append [] (c ∷ t) = ground (arith, eq_refl (c ∷ t))
has_suffix-append (c ∷ s) t = ground (arith, has_suffix-append s t)

pub has_suffix_split : (s t : Bytes) → has_suffix s t ≡ true → (l : Bytes) × (s ≡ l ++ t)
unfolding has_suffix
has_suffix_split [] t h = ([], eq→path [] t h)
has_suffix_split (c ∷ s) t h = elim (Bool-cases ((c ∷ s) == t)) [
  | inl e ↦ ([], eq→path (c ∷ s) t e)
  | inr e ↦ let (l, p) = has_suffix_split s t (ground arith) in (c ∷ l, ap (λ r. c ∷ r) p)
]

pub to_lower-append : (s t : Bytes) → to_lower (s ++ t) ≡ to_lower s ++ to_lower t
unfolding to_lower
to_lower-append [] t = refl
to_lower-append (c ∷ s) t = rw (to_lower-append s t)

pub length-to_lower : (s : Bytes) → length (to_lower s) ≡ length s
unfolding to_lower
length-to_lower [] = refl
length-to_lower (c ∷ s) = ap suc (length-to_lower s)
