-- ===== src/Client/Names.antt =====
-- Names in the client: `validServiceName` of cmd/mygrok/service.go, and `looksLikeSubdomain` and
-- `randomSubdomain` of serve.go.
pub mod Accepted
use mygrok.Base.{
  ℕ, suc, ◌+◌, ◌-◌, Bool, true, false, not, ◌&&◌, ◌||◌, [], ◌∷◌, Option, none, some, Bytes, codes,
  ◌==◌, eqb, leb, ltb, any, if◌then◌else◌, length,
}
use Prim.Native.Nat.{◌%◌}

-- The loop over the bytes of a name of `n` bytes, at index `i`: letters, digits, and dashes that
-- are neither first nor last.
unfoldable pub name_bytes : ℕ → ℕ → Bytes → Bool
name_bytes i n [] = true
name_bytes i n (c ∷ s) =
    ((leb b'a' c && leb c b'z')
      || ((leb b'0' c && leb c b'9') || (eqb c b'-' && (not (eqb i 0) && not (eqb i (n - 1))))))
    && name_bytes (suc i) n s

unfoldable pub valid_service_name : Bytes → Bool
valid_service_name s = if (s == []) || ltb 64 (length s) then false else name_bytes 0 (length s) s

-- The bytes of "/.\~".
unfoldable pub is_path_byte : ℕ → Bool
is_path_byte c = eqb c b'/' || (eqb c b'.' || (eqb c 92 || eqb c b'~'))

unfoldable pub looks_like_subdomain : Bytes → Bool
looks_like_subdomain s =
    if (s == []) || any is_path_byte s then false else name_bytes 0 (length s) s

-- A letter for each random byte.
unfoldable pub letters : Bytes → Bytes
letters [] = []
letters (b ∷ bs) = (b'a' + b % 26) ∷ letters bs

-- `random` is the six random bytes, or none where reading them fails; `clock_hex` is the time in
-- hexadecimal.
unfoldable pub random_subdomain : Option Bytes → Bytes → Bytes
random_subdomain none clock_hex = b's' ∷ clock_hex
random_subdomain (some bs) clock_hex = letters bs
