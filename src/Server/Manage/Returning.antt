-- ===== src/Server/Manage/Returning.antt =====
-- Where a login sends the visitor, `safeReturnURL` of cmd/mygrokd/auth.go.
use mygrok.Base.{
  ℕ, ◌≡◌, refl, sym, subst, eqb, true, false, ◌||◌, [], ◌∷◌, ◌++◌, Option, none, some, Bytes, codes,
  ◌==◌, ◌⊎◌, arith, trim_space, to_lower, has_prefix, has_suffix, eq→path, inl, inr, Bool-cases,
}
use mygrok.Base.Suffix.{has_suffix_split}
use mygrok.Server.Admin.{GoLib, Url}
use mygrok.Server.Manage.Login.{url_under, safe_return_url}

-- The name is the host or a name below it.
abbrev IsUnder : Bytes → Bytes → Type 0
IsUnder name host = (name ≡ host) ⊎ ((p : Bytes) × (name ≡ p ++ b'.' ∷ host))

-- Nothing; a path whose first slash is not followed by a slash or a backslash; or an https URL whose
-- host is the public host or below it.
pub data IsSafeReturn (G : GoLib) (host : Bytes) : Bytes → Type 0 where
  nowhere : IsSafeReturn G host []
  top : IsSafeReturn G host (b'/' ∷ [])
  path :
      (c : ℕ) (rest : Bytes)
      → eqb c b'/' ≡ false
      → eqb c 92 ≡ false
      → IsSafeReturn G host (b'/' ∷ c ∷ rest)
  below :
      {raw : Bytes} (u : Url)
      → G.parse_url raw ≡ some u
      → u.scheme ≡ codes "https"
      → IsUnder (to_lower u.hostname) (to_lower host)
      → IsSafeReturn G host u.text

slash_path :
    (G : GoLib) (host s : Bytes)
    → has_prefix s (codes "/") ≡ true
    → (has_prefix s (codes "//") || has_prefix s (47 ∷ 92 ∷ [])) ≡ false
    → IsSafeReturn G host s
unfolding has_prefix
slash_path G host [] p q = absurd (ground arith)
slash_path G host (x ∷ []) p q =
    let e : x ≡ b'/' = ground arith in subst (λ y. IsSafeReturn G host (y ∷ [])) (sym e) top
slash_path G host (x ∷ c ∷ rest) p q =
    let e : x ≡ b'/' = ground arith in
    subst (λ y. IsSafeReturn G host (y ∷ c ∷ rest)) (sym e)
      (path c rest (ground arith) (ground arith))

url_under-IsSafeReturn :
    (G : GoLib) (raw host : Bytes) (o : Option Url)
    → G.parse_url raw ≡ o
    → IsSafeReturn G host (url_under o host)
unfolding url_under
url_under-IsSafeReturn G raw host none e = top
url_under-IsSafeReturn G raw host (some u) e =
    let base = to_lower host in
    let name = to_lower u.hostname in
    elim (Bool-cases (u.scheme == codes "https")) [
      | inr p ↦ rw p top
      | inl p ↦ elim (Bool-cases (name == base)) [
        | inl q ↦
            rw (p, q) (below u e (eq→path u.scheme (codes "https") p) (inl (eq→path name base q)))
        | inr q ↦ elim (Bool-cases (has_suffix name (b'.' ∷ base))) [
          | inl r ↦
              rw (p, q, r)
                (below u e (eq→path u.scheme (codes "https") p)
                  (inr (has_suffix_split name (b'.' ∷ base) r)))
          | inr r ↦ rw (p, q, r) top
        ]
      ]
    ]

-- Whatever text a visitor gives as the page to return to, the login sends the visitor nowhere, to a
-- path of one leading slash, or to an https URL at the public host or below it. A backslash after
-- the slash counts as a second slash.
pub safe_return_url-IsSafeReturn :
    (G : GoLib) (text public_host : Bytes)
    → IsSafeReturn G public_host (safe_return_url G text public_host)
unfolding safe_return_url
safe_return_url-IsSafeReturn G text public_host =
    let raw = trim_space text in
    elim (Bool-cases (raw == [])) [
      | inl p ↦ rw p nowhere
      | inr p ↦ elim (Bool-cases (has_prefix raw (codes "//") || has_prefix raw (47 ∷ 92 ∷ []))) [
        | inl q ↦ rw (p, q) top
        | inr q ↦ elim (Bool-cases (has_prefix raw (codes "/"))) [
          | inl r ↦ rw (p, q, r) (slash_path G public_host raw r q)
          | inr r ↦ rw (p, q, r) (url_under-IsSafeReturn G raw public_host (G.parse_url raw) refl)
        ]
      ]
    ]
