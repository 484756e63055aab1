-- ===== src/Client/Mcp/Token.antt =====
-- The token of a subdomain over several starts, `resolveMCPSecret` of cmd/mygrok/mcp.go.
use mygrok.Base.{
  ◌≡◌, refl, sym, ap, ◌∙◌, ◌⊎◌, ◌&&◌, eq_refl, leb, Bool, true, false, ◌||◌, [], ◌∷◌, ◌++◌, Option,
  none, some, Bytes, ◌==◌, eqb, any, trim_space, trim_left, trim_right, is_space, arith,
  Option-cases, Bool-cases, inl, inr,
}
use mygrok.Base.Error.{ok}
use mygrok.Client.Names.{valid_service_name}
use mygrok.Client.Mcp.{is_barred, write_secret, fresh_secret, resolve_mcp_secret}

-- A line end after a text is trimmed away.
trim_right_line : (s : Bytes) → trim_right (s ++ 10 ∷ []) ≡ trim_right s
unfolding trim_right is_space
trim_right_line [] = refl
trim_right_line (c ∷ s) = ground (arith, trim_right_line s)

trim_left_line :
    (s : Bytes)
    → (trim_left (s ++ 10 ∷ []) ≡ trim_left s ++ 10 ∷ [])
      ⊎ ((trim_left (s ++ 10 ∷ []) ≡ []) × (trim_left s ≡ []))
unfolding trim_left is_space
trim_left_line [] = inr (refl, refl)
trim_left_line (c ∷ s) = elim (Bool-cases (eqb c 32 || (leb 9 c && leb c 13))) [
  | inl e ↦ elim (trim_left_line s) [
    | inl p ↦ inl (ground arith)
    | inr p ↦ inr (ground arith, ground arith)
  ]
  | inr e ↦ inl (ground arith)
]

trim_space_line : (s : Bytes) → trim_space (s ++ 10 ∷ []) ≡ trim_space s
unfolding trim_space
trim_space_line s = elim (trim_left_line s) [
  | inl p ↦ ap trim_right p ∙ trim_right_line (trim_left s)
  | inr (p, q) ↦ ap trim_right p ∙ ap trim_right (sym q)
]

written :
    (writes : Bool) (s : Bytes) (file : Option Bytes) {file' : Option Bytes} {r : Bytes}
    → write_secret writes s file ≡ (file', ok r)
    → file' ≡ some (r ++ 10 ∷ [])
unfolding write_secret
written writes s file e = ground arith

fresh_written :
    (writes : Bool) (random file : Option Bytes) {file' : Option Bytes} {r : Bytes}
    → fresh_secret writes random file ≡ (file', ok r)
    → file' ≡ some (r ++ 10 ∷ [])
unfolding fresh_secret
fresh_written writes none file e = absurd (ground arith)
fresh_written writes (some s) file e = written writes s file e

-- The file holds the token that was answered, with a line end or as it stood.
resolved :
    (subdomain explicit : Bytes) (random : Option Bytes) (writes : Bool) (file : Option Bytes)
    {file' : Option Bytes} {s : Bytes}
    → resolve_mcp_secret subdomain explicit random writes file ≡ (file', ok s)
    → (valid_service_name subdomain ≡ true)
      × ((file' ≡ some (s ++ 10 ∷ [])) ⊎ ((b : Bytes) × (file' ≡ some b) × (trim_space b ≡ s)))
unfolding resolve_mcp_secret
resolved subdomain explicit random writes file {file'} {s} e =
    elim (Bool-cases (valid_service_name subdomain)) [
      | inr v ↦ absurd (ground arith)
      | inl v ↦ (
        v,
        elim (Bool-cases (explicit == [])) [
          | inr n ↦ elim (Bool-cases (any is_barred explicit)) [
            | inl b ↦ absurd (ground arith)
            | inr b ↦ inl (written writes explicit file (ground arith))
          ]
          | inl n ↦ elim (Option-cases file) [
            | inl f ↦ inl (fresh_written writes random file (ground (arith, eq_refl [])))
            | inr (b, f) ↦ elim (Bool-cases (trim_space b == [])) [
              | inl m ↦ inl (fresh_written writes random file (ground arith))
              | inr m ↦ inr (b, ground arith, ground arith)
            ]
          ]
        ],
      )
    ]

-- A token that was resolved once is resolved again at the next start with no token given, whatever
-- the source of randomness and the disk do then, and the file stays as it is. The token is not empty
-- and has no white space at its ends.
pub resolve_mcp_secret_stable :
    (subdomain explicit : Bytes) (random random' : Option Bytes) (writes writes' : Bool)
    (file : Option Bytes) {file' : Option Bytes} {s : Bytes}
    → resolve_mcp_secret subdomain explicit random writes file ≡ (file', ok s)
    → trim_space s ≡ s
    → (s == []) ≡ false
    → resolve_mcp_secret subdomain [] random' writes' file' ≡ (file', ok s)
unfolding resolve_mcp_secret
resolve_mcp_secret_stable subdomain explicit random random' writes writes' file {file'} {s} e t n =
    let (v, how) = resolved subdomain explicit random writes file e in
    elim how [
      | inl p ↦ rw (p, v) (ground (arith, trim_space_line s, t, n, eq_refl []))
      | inr (b, p, q) ↦ rw (p, v) (ground (arith, q, n, eq_refl []))
    ]
