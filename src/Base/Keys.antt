-- ===== src/Base/Keys.antt =====
-- The keys of a map.
use mathlib.Core.Path.{◌≡◌, refl}
use mathlib.Core.Bool.{Bool, true, false, not, ◌&&◌, ◌||◌}
use mathlib.Core.Option.{none}
use mathlib.Core.List.{List, [], ◌∷◌}
use native.Mathlib.Omega.{arith}
use mygrok.Base.Text.{Bytes, ◌==◌, eq_iff, member}
use mygrok.Base.Dict.{Dict, lookup, insert, erase, keys}

-- No text stands twice.
abbrev pub distinct : List Bytes → Bool
distinct [] = true
distinct (h ∷ hs) = not (member h hs) && distinct hs

module _ {ℓ} {V : Type ℓ} where
  pub lookup_absent : (k : Bytes) (m : Dict V) → member k (keys m) ≡ false → lookup k m ≡ none
  unfolding lookup keys
  lookup_absent k [] e = refl
  lookup_absent k ((j, v) ∷ m) e = ground (arith, lookup_absent k m)

  member-keys-insert :
      (k j : Bytes) (v : V) (m : Dict V)
      → member j (keys (insert k v m)) ≡ ((k == j) || member j (keys m))
  unfolding keys insert
  member-keys-insert k j v [] = refl
  member-keys-insert k j v ((i, w) ∷ m) =
      ground (arith, member-keys-insert k j v m, eq_iff i k, eq_iff i j, eq_iff k j)

  member-keys-erase :
      (k j : Bytes) (m : Dict V) → member j (keys (erase k m)) ≡ (not (k == j) && member j (keys m))
  unfolding keys erase
  member-keys-erase k j [] = ground arith
  member-keys-erase k j ((i, w) ∷ m) =
      ground (arith, member-keys-erase k j m, eq_iff i k, eq_iff i j, eq_iff k j)

  pub distinct-keys-insert :
      (k : Bytes) (v : V) (m : Dict V)
      → distinct (keys m) ≡ true
      → distinct (keys (insert k v m)) ≡ true
  unfolding keys insert
  distinct-keys-insert k v [] d = refl
  distinct-keys-insert k v ((i, w) ∷ m) d =
      ground (arith, distinct-keys-insert k v m, member-keys-insert k i v m, eq_iff i k, eq_iff k i)

  pub distinct-keys-erase :
      (k : Bytes) (m : Dict V) → distinct (keys m) ≡ true → distinct (keys (erase k m)) ≡ true
  unfolding keys erase
  distinct-keys-erase k [] d = refl
  distinct-keys-erase k ((i, w) ∷ m) d =
      ground (arith, distinct-keys-erase k m, member-keys-erase k i m)
