-- ===== src/Base/Order.antt =====
-- What sort.Strings keeps, and membership after a filter and among the keys of a map.
use mathlib.Core.Path.{◌≡◌, refl}
use mathlib.Core.Bool.{Bool, true, false, ◌&&◌, ◌||◌}
use mathlib.Core.Option.{Option, none, some}
use mathlib.Core.List.{List, [], ◌∷◌, ◌++◌}
use native.Mathlib.Omega.{arith}
use mygrok.Base.Lists.{keep, any-append}
use mygrok.Base.Text.{Bytes, ◌==◌, eq_iff, member}
use mygrok.Base.Dict.{Dict, lookup, keys}
use mygrok.Base.Keys.{distinct}
use mygrok.Base.Sort.{insert_sorted, sort}

abbrev pub is_some {ℓ} : {A : Type ℓ} → Option A → Bool
is_some none = false
is_some (some x) = true

member-insert_sorted :
    (k s : Bytes) (ts : List Bytes) → member k (insert_sorted s ts) ≡ ((s == k) || member k ts)
unfolding insert_sorted
member-insert_sorted k s [] = refl
member-insert_sorted k s (t ∷ ts) = ground (arith, member-insert_sorted k s ts)

pub member-sort : (k : Bytes) (xs : List Bytes) → member k (sort xs) ≡ member k xs
unfolding sort
member-sort k [] = refl
member-sort k (x ∷ xs) = ground (arith, member-sort k xs, member-insert_sorted k x (sort xs))

distinct-insert_sorted :
    (s : Bytes) (ts : List Bytes)
    → distinct ts ≡ true
    → member s ts ≡ false
    → distinct (insert_sorted s ts) ≡ true
unfolding insert_sorted
distinct-insert_sorted s [] d m = refl
distinct-insert_sorted s (t ∷ ts) d m =
    ground (arith, distinct-insert_sorted s ts, member-insert_sorted t s ts, eq_iff s t, eq_iff t s)

pub distinct-sort : (xs : List Bytes) → distinct xs ≡ true → distinct (sort xs) ≡ true
unfolding sort
distinct-sort [] d = refl
distinct-sort (x ∷ xs) d =
    ground (arith, distinct-sort xs, distinct-insert_sorted x (sort xs), member-sort x xs)

pub distinct-snoc :
    (s : Bytes) (xs : List Bytes)
    → distinct xs ≡ true
    → member s xs ≡ false
    → distinct (xs ++ s ∷ []) ≡ true
distinct-snoc s [] d m = refl
distinct-snoc s (x ∷ xs) d m =
    ground (arith, distinct-snoc s xs, any-append (λ j. j == x) xs (s ∷ []), eq_iff x s, eq_iff s x)

pub member-keep :
    (p : Bytes → Bool) (k : Bytes) (xs : List Bytes) → member k (keep p xs) ≡ (p k && member k xs)
member-keep p k [] = ground arith
member-keep p k (x ∷ xs) = ground (arith, member-keep p k xs, eq_iff x k)

pub member-keys {ℓ} :
    {V : Type ℓ} (k : Bytes) (m : Dict V) → member k (keys m) ≡ is_some (lookup k m)
unfolding keys lookup
member-keys k [] = refl
member-keys k ((j, v) ∷ m) = ground (arith, member-keys k m)
