-- ===== src/Client/Names/Accepted.antt =====
-- The names that the client makes, `looksLikeSubdomain` and `randomSubdomain` of
-- cmd/mygrok/serve.go, before the tests of the server.
use mygrok.Base.{
  ℕ, suc, ◌≡◌, refl, true, false, [], ◌∷◌, some, Bytes, ◌==◌, leb, length, arith, member, codes,
  eq→path, eq_refl, ap, ◌∙◌, inl, inr, Bool-cases, ◌≢◌,
}
use mygrok.Server.Names.{label_bytes, valid_subdomain, reserved}
use mygrok.Client.Names.{name_bytes, looks_like_subdomain, letters, random_subdomain}

name_bytes-label_bytes : (i n : ℕ) (s : Bytes) → name_bytes i n s ≡ label_bytes i n s
unfolding name_bytes label_bytes
name_bytes-label_bytes i n [] = refl
name_bytes-label_bytes i n (c ∷ s) = ground (arith, name_bytes-label_bytes (suc i) n s)

-- What the client takes for a subdomain on its command line the server accepts, if it has no more
-- than 63 bytes, and refuses otherwise.
pub looks_like_subdomain-valid_subdomain :
    (s : Bytes) → looks_like_subdomain s ≡ true → valid_subdomain s ≡ leb (length s) 63
unfolding looks_like_subdomain valid_subdomain
looks_like_subdomain-valid_subdomain [] e = absurd (ground (arith, eq_refl []))
looks_like_subdomain-valid_subdomain (c ∷ s) e =
    ground (arith, name_bytes-label_bytes 0 (length (c ∷ s)) (c ∷ s))

label_bytes-letters : (i n : ℕ) (bs : Bytes) → label_bytes i n (letters bs) ≡ true
unfolding label_bytes letters
label_bytes-letters i n [] = refl
label_bytes-letters i n (b ∷ bs) = ground (arith, label_bytes-letters (suc i) n bs)

length-letters : (bs : Bytes) → length (letters bs) ≡ length bs
unfolding letters
length-letters [] = refl
length-letters (b ∷ bs) = ground (arith, length-letters bs)

other_length : (j s : Bytes) → length j ≢ length s → (j == s) ≡ false
other_length j s d = elim (Bool-cases (j == s)) [
  | inl e ↦ absurd (d (ap length (eq→path j s e)))
  | inr e ↦ e
]

-- A subdomain that the client makes up from six random bytes is valid for the server and is not one
-- of the reserved names.
pub random_subdomain_accepted :
    (bs clock_hex : Bytes)
    → length bs ≡ 6
    → (valid_subdomain (random_subdomain (some bs) clock_hex) ≡ true)
      × (member (random_subdomain (some bs) clock_hex) reserved ≡ false)
unfolding valid_subdomain random_subdomain
random_subdomain_accepted bs clock_hex six =
    let long : (j : Bytes) → length j ≢ 6 → (j == letters bs) ≡ false =
      λ j d. other_length j (letters bs) (λ e. d (e ∙ length-letters bs ∙ six)) in
    (
      ground (arith, length-letters bs, label_bytes-letters 0 (length (letters bs)) bs),
      ground (
        arith,
        long (codes "www") (λ e. ground arith),
        long (codes "api") (λ e. ground arith),
        long (codes "admin") (λ e. ground arith),
        long (codes "mail") (λ e. ground arith),
      ),
    )
