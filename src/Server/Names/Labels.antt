-- ===== src/Server/Names/Labels.antt =====
-- What `validSubdomain` and `looksLikeSubdomain` accept, against a description with no index.
use mygrok.Base.{
  ℕ, suc, ◌+◌, ◌-◌, ◌≤◌, ◌≡◌, refl, ◌↔◌, Bool, true, false, not, ◌&&◌, ◌||◌, [], ◌∷◌, Bytes, ◌==◌,
  eqb, leb, length, all, has_prefix, has_suffix, arith,
}
use mygrok.Server.Names.{label_bytes, valid_subdomain, looks_like_subdomain}

pub is_alnum : ℕ → Bool
is_alnum c = (leb b'a' c && leb c b'z') || (leb b'0' c && leb c b'9')

-- A letter, a digit or a hyphen.
abbrev pub is_ldh : ℕ → Bool
is_ldh c = is_alnum c || eqb c b'-'

-- A DNS label: 1 to 63 letters, digits and hyphens, with no hyphen at either end.
pub record IsLabel (s : Bytes) : Type 0 where
  pub nonempty : 1 ≤ length s
  pub bounded : length s ≤ 63
  pub charset : all is_ldh s ≡ true
  pub no_head : has_prefix s (b'-' ∷ []) ≡ false
  pub no_tail : has_suffix s (b'-' ∷ []) ≡ false

-- One round of the loop.
label_bytes_step :
    (i n c : ℕ) (s : Bytes)
    → label_bytes i n (c ∷ s) ≡ (
        (is_alnum c || (eqb c b'-' && (not (eqb i 0) && not (eqb i (n - 1)))))
        && label_bytes (suc i) n s)
unfolding label_bytes is_alnum
label_bytes_step i n c s = ground arith

alnum-ne-hyphen : (c : ℕ) → is_alnum c ≡ true → eqb c b'-' ≡ false
unfolding is_alnum
alnum-ne-hyphen c h = ground arith

has_suffix_one : (c : ℕ) → has_suffix (c ∷ []) (b'-' ∷ []) ≡ eqb c b'-'
unfolding has_suffix ◌==◌
has_suffix_one c = ground arith

has_suffix_two :
    (c d : ℕ) (s : Bytes) → has_suffix (c ∷ d ∷ s) (b'-' ∷ []) ≡ has_suffix (d ∷ s) (b'-' ∷ [])
unfolding has_suffix ◌==◌
has_suffix_two c d s = ground arith

has_prefix_one : (c : ℕ) (s : Bytes) → has_prefix (c ∷ s) (b'-' ∷ []) ≡ eqb c b'-'
unfolding has_prefix
has_prefix_one c s = ground arith

label_bytes-nil : (i n : ℕ) → label_bytes i n [] ≡ true
unfolding label_bytes
label_bytes-nil i n = refl

-- Behind the first byte only the last hyphen is refused.
label_bytes_tail :
    (i n : ℕ) (s : Bytes)
    → n ≡ suc i + length s
    → 1 ≤ length s
    → label_bytes (suc i) n s ≡ (all is_ldh s && not (has_suffix s (b'-' ∷ [])))
label_bytes_tail i n [] e h = absurd (omega arith)
label_bytes_tail i n (c ∷ []) e h = ground (
  arith,
  label_bytes_step (suc i) n c [],
  label_bytes-nil (suc (suc i)) n,
  has_suffix_one c,
  alnum-ne-hyphen c,
)
label_bytes_tail i n (c ∷ d ∷ s) e h = ground (
  arith,
  label_bytes_step (suc i) n c (d ∷ s),
  has_suffix_two c d s,
  label_bytes_tail (suc i) n (d ∷ s) (omega arith) (omega arith),
)

label_bytes_eq :
    (c : ℕ) (s : Bytes)
    → label_bytes 0 (length (c ∷ s)) (c ∷ s) ≡ (
        all is_ldh (c ∷ s)
        && (not (has_prefix (c ∷ s) (b'-' ∷ [])) && not (has_suffix (c ∷ s) (b'-' ∷ []))))
label_bytes_eq c [] = ground (
  arith,
  label_bytes_step 0 1 c [],
  label_bytes-nil 1 1,
  has_suffix_one c,
  has_prefix_one c [],
  alnum-ne-hyphen c,
)
label_bytes_eq c (d ∷ s) = ground (
  arith,
  label_bytes_step 0 (length (c ∷ d ∷ s)) c (d ∷ s),
  has_suffix_two c d s,
  has_prefix_one c (d ∷ s),
  alnum-ne-hyphen c,
  label_bytes_tail 0 (length (c ∷ d ∷ s)) (d ∷ s) (omega arith) (omega arith),
)

-- A subdomain is accepted exactly if it is a DNS label.
pub valid_subdomain-IsLabel : (s : Bytes) → (valid_subdomain s ≡ true) ↔ IsLabel s
unfolding valid_subdomain
valid_subdomain-IsLabel [] = (λ h. cc, λ l. absurd (omega (arith, l.nonempty)))
valid_subdomain-IsLabel (c ∷ s) = (
  λ h. record {
    nonempty = omega arith;
    bounded = ground arith;
    charset = ground (arith, label_bytes_eq c s);
    no_head = ground (arith, label_bytes_eq c s);
    no_tail = ground (arith, label_bytes_eq c s);
  },
  λ l. ground (arith, label_bytes_eq c s, l.bounded),
)

-- The copy in ipacl.go accepts the same texts.
pub looks_like_subdomain-valid_subdomain : (s : Bytes) → looks_like_subdomain s ≡ valid_subdomain s
unfolding looks_like_subdomain valid_subdomain
looks_like_subdomain-valid_subdomain s = refl
