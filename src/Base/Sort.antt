-- ===== src/Base/Sort.antt =====
-- sort.Strings: texts in the order of their bytes.
use Prim.Native.Nat.{compare, Ordering}
use mathlib.Core.Bool.{Bool, true, false}
use mathlib.Core.List.{List, [], ◌∷◌}
use mygrok.Base.Tests.{if◌then◌else◌}
use mygrok.Base.Text.{Bytes}

unfoldable pub le_bytes : Bytes → Bytes → Bool
le_bytes [] t = true
le_bytes (x ∷ s) [] = false
le_bytes (x ∷ s) (y ∷ t) = elim (compare x y) [
  | Ordering.lt ↦ true
  | Ordering.eq ↦ le_bytes s t
  | Ordering.gt ↦ false
]

unfoldable pub insert_sorted : Bytes → List Bytes → List Bytes
unfolding le_bytes
insert_sorted s [] = s ∷ []
insert_sorted s (t ∷ ts) = if le_bytes s t then s ∷ t ∷ ts else t ∷ insert_sorted s ts

unfoldable pub sort : List Bytes → List Bytes
unfolding insert_sorted
sort [] = []
sort (s ∷ ss) = insert_sorted s (sort ss)
