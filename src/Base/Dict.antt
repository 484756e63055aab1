-- ===== src/Base/Dict.antt =====
-- A Go map with string keys, as an association list.
use mathlib.Core.Path.{◌≡◌, refl}
use mathlib.Core.Option.{Option, none, some}
use mathlib.Core.List.{List, [], ◌∷◌}
use native.Mathlib.Omega.{arith}
use mygrok.Base.Tests.{if◌then◌else◌}
use mygrok.Base.Text.{Bytes, ◌==◌, eq_iff, member}

abbrev pub Dict {ℓ} : Type ℓ → Type ℓ
Dict V = List (Bytes × V)

module _ {ℓ} {V : Type ℓ} where
  unfoldable pub lookup : Bytes → Dict V → Option V
  lookup k [] = none
  lookup k ((held, v) ∷ m) = let rest = lookup k m in if held == k then some v else rest

  unfoldable pub insert : Bytes → V → Dict V → Dict V
  insert k v [] = (k, v) ∷ []
  insert k v ((held, old) ∷ m) =
      let rest = insert k v m in if held == k then (k, v) ∷ m else (held, old) ∷ rest

  unfoldable pub erase : Bytes → Dict V → Dict V
  erase k [] = []
  erase k ((j, w) ∷ m) = let rest = erase k m in if j == k then rest else (j, w) ∷ rest

  unfoldable pub keys : Dict V → List Bytes
  keys [] = []
  keys ((j, w) ∷ m) = j ∷ keys m

  pub lookup-insert :
      (k j : Bytes) (v : V) (m : Dict V)
      → lookup j (insert k v m) ≡ (if k == j then some v else lookup j m)
  unfolding lookup insert
  lookup-insert k j v [] = refl
  lookup-insert k j v ((held, old) ∷ m) =
      ground (arith, lookup-insert k j v m, eq_iff held j, eq_iff held k, eq_iff k j)

  pub lookup-erase :
      (k j : Bytes) (m : Dict V) → lookup j (erase k m) ≡ (if k == j then none else lookup j m)
  unfolding lookup erase
  lookup-erase k j [] = ground arith
  lookup-erase k j ((i, w) ∷ m) =
      ground (arith, eq_iff k j, eq_iff i k, eq_iff i j, lookup-erase k j m)

  -- The assignments and deletions of a loop over keys.
  unfoldable pub insert_all : List Bytes → V → Dict V → Dict V
  insert_all [] v m = m
  insert_all (k ∷ ks) v m = insert_all ks v (insert k v m)

  unfoldable pub erase_all : List Bytes → Dict V → Dict V
  erase_all [] m = m
  erase_all (k ∷ ks) m = erase_all ks (erase k m)

  pub lookup-insert_all :
      (ks : List Bytes) (j : Bytes) (v : V) (m : Dict V)
      → lookup j (insert_all ks v m) ≡ (if member j ks then some v else lookup j m)
  unfolding insert_all
  lookup-insert_all [] j v m = refl
  lookup-insert_all (k ∷ ks) j v m =
      ground (arith, lookup-insert_all ks j v (insert k v m), lookup-insert k j v m)

  pub lookup-erase_all :
      (ks : List Bytes) (j : Bytes) (m : Dict V)
      → lookup j (erase_all ks m) ≡ (if member j ks then none else lookup j m)
  unfolding erase_all
  lookup-erase_all [] j m = refl
  lookup-erase_all (k ∷ ks) j m =
      ground (arith, lookup-erase_all ks j (erase k m), lookup-erase k j m)
