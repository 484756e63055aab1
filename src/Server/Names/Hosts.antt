-- ===== src/Server/Names/Hosts.antt =====
-- What `normalizeHostnames` returns.
use mygrok.Base.{
  ◌≡◌, refl, sym, ◌∙◌, Bool, true, false, not, ◌||◌, ◌&&◌, List, [], ◌∷◌, ◌++◌, none, Bytes, ◌==◌,
  eq_iff, any-append, member, to_lower, trim_space, has_suffix, arith, ◌⊎◌, subst, Bool-cases, inl,
  inr,
}
use mygrok.Base.Keys.{distinct}
use mygrok.Base.Order.{distinct-snoc}
use mygrok.Base.Error.{ok}
use mygrok.Server.Names.{validate_custom_host, normalize_loop, normalize_hostnames}

-- The form in which a requested name is registered.
abbrev pub canonical : Bytes → Bytes
canonical raw = to_lower (trim_space raw)

-- A name that passes every test: not empty, valid, and outside the zone.
pub record IsCustom (base h : Bytes) : Type 0 where
  pub present : (h == []) ≡ false
  pub valid : validate_custom_host h ≡ none
  pub not_zone : (h == base) ≡ false
  pub outside : has_suffix h (b'.' ∷ base) ≡ false

abbrev Customs : Bytes → List Bytes → Type 0
Customs base [] = Unit
Customs base (h ∷ hs) = IsCustom base h × Customs base hs

Customs-snoc :
    (base h : Bytes) (hs : List Bytes)
    → Customs base hs
    → IsCustom base h
    → Customs base (hs ++ h ∷ [])
Customs-snoc base h [] c k = (k, tt)
Customs-snoc base h (x ∷ hs) c k = (c.0, Customs-snoc base h hs c.1 k)

-- What is asked for, in its registered form and without the empty entries.
abbrev pub requested : List Bytes → Bytes → Bool
requested [] h = false
requested (raw ∷ hosts) h = ((canonical raw == h) && not (canonical raw == [])) || requested hosts h

-- What holds of the list that the loop returns.
pub record IsNormal (base : Bytes) (before hosts out : List Bytes) : Type 0 where
  pub no_repeat : distinct out ≡ true
  pub custom : Customs base out
  pub exact : (h : Bytes) → member h out ≡ (member h before || requested hosts h)

-- What a round that does not fail has found out.
abbrev Round : Bytes → List Bytes → List Bytes → Bytes → List Bytes → List Bytes → Type 0
Round base seen out raw hosts res =
    ((((canonical raw == []) || member (canonical raw) seen) ≡ true)
      × (normalize_loop base seen out hosts ≡ ok res))
    ⊎ (IsCustom base (canonical raw)
        × (member (canonical raw) seen ≡ false)
        × (normalize_loop base (canonical raw ∷ seen) (out ++ canonical raw ∷ []) hosts ≡ ok res))

normalize_loop-Round :
    (base : Bytes) (seen out : List Bytes) (raw : Bytes) (hosts : List Bytes) {res : List Bytes}
    → normalize_loop base seen out (raw ∷ hosts) ≡ ok res
    → Round base seen out raw hosts res
unfolding normalize_loop
normalize_loop-Round base seen out raw hosts e =
    elim (Bool-cases ((canonical raw == []) || member (canonical raw) seen)) [
      | inl skip ↦ inl (skip, ground arith)
      | inr fresh ↦ inr (ground arith, ground arith, ground arith)
    ]

skip-exact :
    (h k : Bytes) (before : List Bytes) (more : Bool)
    → ((h == []) || member h before) ≡ true
    → (member k before || more) ≡ (member k before || (((h == k) && not (h == [])) || more))
skip-exact h k before more e = ground (arith, eq_iff h k)

add-exact :
    (h k : Bytes) (before : List Bytes) (more : Bool)
    → (h == []) ≡ false
    → (member k (before ++ h ∷ []) || more)
      ≡ (member k before || (((h == k) && not (h == [])) || more))
add-exact h k before more e = ground (arith, any-append (λ j. j == k) before (h ∷ []))

loop-IsNormal :
    (base : Bytes) (seen out hosts : List Bytes) {res : List Bytes}
    → ((k : Bytes) → member k seen ≡ member k out)
    → distinct out ≡ true
    → Customs base out
    → normalize_loop base seen out hosts ≡ ok res
    → IsNormal base out hosts res
loop-IsNormal base seen out [] same d c e =
    subst (IsNormal base out []) {x = out} (unfold normalize_loop in cc)
      (record { no_repeat = d; custom = c; exact = λ h. ground arith })
loop-IsNormal base seen out (raw ∷ hosts) same d c e =
    elim (normalize_loop-Round base seen out raw hosts e) [
      | inl (skip, rest) ↦
          let n = loop-IsNormal base seen out hosts same d c rest in
          record {
            no_repeat = n.no_repeat;
            custom = n.custom;
            exact = λ k.
                n.exact k
                ∙ skip-exact (canonical raw) k out (requested hosts k)
                    (ground (arith, same (canonical raw)));
          }
      | inr (k, fresh, rest) ↦
          let h = canonical raw in
          let n =
            loop-IsNormal base (h ∷ seen) (out ++ h ∷ []) hosts
              (λ j. ground (arith, same j, any-append (λ i. i == j) out (h ∷ [])))
              (distinct-snoc h out d (sym (same h) ∙ fresh)) (Customs-snoc base h out c k) rest in
          record {
            no_repeat = n.no_repeat;
            custom = n.custom;
            exact = λ j. n.exact j ∙ add-exact h j out (requested hosts j) k.present;
          }
    ]

-- An accepted request gives, with no repetition, exactly the names asked for in canonical form, and
-- each is a valid name outside the zone.
pub normalize_hostnames-IsNormal :
    (hosts : List Bytes) (base : Bytes) {out : List Bytes}
    → normalize_hostnames hosts base ≡ ok out
    → IsNormal (to_lower base) [] hosts out
unfolding normalize_hostnames
normalize_hostnames-IsNormal [] base e =
    subst (IsNormal (to_lower base) [] []) {x = []} (cc)
      (record { no_repeat = refl; custom = tt; exact = λ h. refl })
normalize_hostnames-IsNormal (h ∷ hosts) base e =
    loop-IsNormal (to_lower base) [] [] (h ∷ hosts) (λ k. refl) refl tt e
