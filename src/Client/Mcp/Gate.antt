-- ===== src/Client/Mcp/Gate.antt =====
-- What passes `mcpGate` of cmd/mygrok/mcp.go, and what `mcpRedactPath` shows of it.
use mygrok.Base.{
  ℕ, ◌≡◌, refl, ap, ◌∙◌, ◌↔◌, ◌⊎◌, inl, inr, true, false, [], ◌∷◌, ◌++◌, none, some, Bytes, codes,
  ◌==◌, eqb, Bool-cases, eq→path, eq_refl, if◌then◌else◌, has_prefix, cut, arith, Option-cases,
  append-nil,
}
use mygrok.Base.Pieces.{lacks, cut_back, cut_here}
use mygrok.Client.Mcp.{first_segment, mcp_gate, mcp_redact_path}

-- The path is a slash, the token, and nothing or a path; the backend sees that path, or the root.
pub record IsThrough (path secret rest : Bytes) : Type 0 where
  pub tail : Bytes
  pub whole : path ≡ b'/' ∷ secret ++ tail
  pub seen : ((tail ≡ []) × (rest ≡ codes "/")) ⊎ ((t : Bytes) × (tail ≡ b'/' ∷ t) × (rest ≡ tail))

first_segment_split :
    (s : Bytes)
    → (s ≡ (first_segment s).0 ++ (first_segment s).1)
      × (((first_segment s).1 ≡ []) ⊎ ((t : Bytes) × ((first_segment s).1 ≡ b'/' ∷ t)))
unfolding first_segment
first_segment_split s = elim (Option-cases (cut b'/' s)) [
  | inl p ↦ (ground (arith, append-nil s), inl (ground arith))
  | inr ((l, r), p) ↦
      let (back, free) = cut_back b'/' s p in (ground (arith, back), inr (r, ground arith))
]

first_segment_here :
    (s t : Bytes) → lacks b'/' s ≡ true → first_segment (s ++ b'/' ∷ t) ≡ (s, b'/' ∷ t)
unfolding first_segment
first_segment_here s t free = ground (arith, cut_here b'/' s t free)

cut-none : (b : ℕ) (s : Bytes) → lacks b s ≡ true → cut b s ≡ none
unfolding cut
cut-none b [] free = refl
cut-none b (c ∷ s) free = ground (arith, cut-none b s)

first_segment_whole : (s : Bytes) → lacks b'/' s ≡ true → first_segment s ≡ (s, [])
unfolding first_segment
first_segment_whole s free = ground (arith, cut-none b'/' s free)

gate_passed :
    (c : ℕ) (s secret : Bytes) {rest : Bytes}
    → (secret == []) ≡ false
    → mcp_gate (c ∷ s) secret ≡ some rest
    → (c ≡ b'/')
      × ((first_segment s).0 ≡ secret)
      × (rest ≡ (if (first_segment s).1 == [] then codes "/" else (first_segment s).1))
unfolding mcp_gate has_prefix
gate_passed c s secret n e =
    (ground arith, eq→path (first_segment s).0 secret (ground arith), ground arith)

pub mcp_gate-IsThrough :
    (path secret : Bytes) {rest : Bytes}
    → (secret == []) ≡ false
    → mcp_gate path secret ≡ some rest
    → IsThrough path secret rest
mcp_gate-IsThrough [] secret n e = absurd (unfold mcp_gate has_prefix in ground arith)
mcp_gate-IsThrough (c ∷ s) secret {rest} n e =
    let (slash, token, seen) = gate_passed c s secret n e in
    let (whole, shape) = first_segment_split s in
    record {
      tail = (first_segment s).1;
      whole = ground (arith, slash, token, whole);
      seen = elim shape [
        | inl p ↦ inl (p, ground (arith, seen, p, eq_refl []))
        | inr (t, p) ↦ inr (t, p, unfold ◌==◌ in ground (arith, seen, p))
      ];
    }

IsThrough-mcp_gate :
    (path secret : Bytes) {rest : Bytes}
    → (secret == []) ≡ false
    → lacks b'/' secret ≡ true
    → IsThrough path secret rest
    → mcp_gate path secret ≡ some rest
unfolding mcp_gate has_prefix ◌==◌
IsThrough-mcp_gate path secret {rest} n free h = elim h.seen [
  | inl (p, q) ↦
      let whole : path ≡ b'/' ∷ secret =
        h.whole ∙ ap (λ t. b'/' ∷ secret ++ t) p ∙ ap (λ t. b'/' ∷ t) (append-nil secret) in
      rw (whole, q) (ground (arith, first_segment_whole secret free, eq_refl secret))
  | inr (t, p, q) ↦
      let whole : path ≡ b'/' ∷ secret ++ b'/' ∷ t = h.whole ∙ ap (λ r. b'/' ∷ secret ++ r) p in
      rw (whole, q, p) (ground (arith, first_segment_here secret t free, eq_refl secret))
]

-- A request passes the gate exactly if its path is a slash, the token, and then nothing or a path,
-- which is what the backend sees, with the root for nothing. The token is not empty and holds no
-- slash.
pub mcp_gate_iff :
    (path secret : Bytes) {rest : Bytes}
    → (secret == []) ≡ false
    → lacks b'/' secret ≡ true
    → (mcp_gate path secret ≡ some rest) ↔ IsThrough path secret rest
mcp_gate_iff path secret n free =
    (mcp_gate-IsThrough path secret n, IsThrough-mcp_gate path secret n free)

-- What the log may show of an address: its first segment, up to the next slash, is replaced by a
-- placeholder, and of an address that does not start with a slash nothing else is shown.
pub data IsRedacted (uri shown : Bytes) : Type 0 where
  relative : has_prefix uri (codes "/") ≡ false → shown ≡ codes "/<token>" → IsRedacted uri shown
  whole :
      (seg : Bytes)
      → uri ≡ b'/' ∷ seg
      → lacks b'/' seg ≡ true
      → shown ≡ codes "/<token>"
      → IsRedacted uri shown
  below :
      (seg rest : Bytes)
      → uri ≡ b'/' ∷ seg ++ b'/' ∷ rest
      → lacks b'/' seg ≡ true
      → shown ≡ codes "/<token>" ++ b'/' ∷ rest
      → IsRedacted uri shown

cut_absent : (b : ℕ) (s : Bytes) → cut b s ≡ none → lacks b s ≡ true
unfolding cut
cut_absent b [] e = refl
cut_absent b (c ∷ s) e = ground (arith, cut_absent b s)

pub mcp_redact_path-IsRedacted : (uri : Bytes) → IsRedacted uri (mcp_redact_path uri)
unfolding mcp_redact_path has_prefix
mcp_redact_path-IsRedacted [] = relative refl refl
mcp_redact_path-IsRedacted (c ∷ s) = elim (Bool-cases (eqb c b'/')) [
  | inr p ↦ relative (ground arith) (ground arith)
  | inl p ↦
      let slash : c ≡ b'/' = ground arith in
      elim (Option-cases (cut b'/' s)) [
        | inl q ↦ whole s (ap (λ d. d ∷ s) slash) (cut_absent b'/' s q) (ground (arith, q))
        | inr ((seg, rest), q) ↦
            let (back, free) = cut_back b'/' s q in
            below seg rest (ground (arith, slash, back)) free (ground (arith, q))
      ]
]
