-- ===== src/Server/Headers/Reading.antt =====
-- What the header reader takes from the connection.
use mygrok.Base.{
  ℕ, ◌≡◌, refl, sym, ap, ◌∙◌, ◌||◌, [], ◌∷◌, ◌++◌, Bytes, ◌==◌, eqb, ltb, length, append-nil,
  append_assoc, arith, Bool-cases, inl, inr,
}
use mygrok.Base.Error.{ok}
use mygrok.Server.Headers.{
  lf, crlf, Headers, max_headers, read_loop, read_headers_and_host, host_line,
}

snoc-append : (s : Bytes) (c : ℕ) (t : Bytes) → (s ++ c ∷ []) ++ t ≡ s ++ c ∷ t
snoc-append [] c t = refl
snoc-append (d ∷ s) c t = rw (snoc-append s c t)

-- The loop keeps every byte.
read_loop-append :
    (raw part host s : Bytes) {h : Headers}
    → read_loop raw part host s ≡ ok h
    → h.raw ++ h.left ≡ (raw ++ part) ++ s
unfolding read_loop
read_loop-append raw part host [] e = cc
read_loop-append raw part host (c ∷ s) {h} e =
    let line = part ++ c ∷ [] in
    let whole : (raw ++ line) ++ s ≡ (raw ++ part) ++ c ∷ s =
      ap (λ x. x ++ s) (sym (append_assoc raw part (c ∷ []))) ∙ snoc-append (raw ++ part) c s in
    elim (Bool-cases (eqb c 10)) [
      | inr p ↦ read_loop-append raw line host s {h = h} (ground arith) ∙ whole
      | inl p ↦ elim (Bool-cases ((line == crlf) || (line == lf))) [
        | inl q ↦
            let d : record { raw = raw ++ line; host = host; left = s } ≡ h = ground arith in
            ap (λ (x : Headers). x.raw ++ x.left) (sym d) ∙ whole
        | inr q ↦ elim (Bool-cases (ltb max_headers (length (raw ++ line)))) [
          | inl r ↦ absurd (ground arith)
          | inr r ↦
              read_loop-append (raw ++ line) [] (host_line line host) s {h = h} (ground arith)
              ∙ ap (λ x. x ++ s) (append-nil (raw ++ line))
              ∙ whole
        ]
      ]
    ]

-- The headers and what is left to read are together what was sent: no byte is lost or made up.
pub read_headers_and_host-append :
    (s : Bytes) {h : Headers} → read_headers_and_host s ≡ ok h → h.raw ++ h.left ≡ s
unfolding read_headers_and_host
read_headers_and_host-append s e = read_loop-append [] [] [] s e
