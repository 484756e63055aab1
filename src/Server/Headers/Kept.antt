-- ===== src/Server/Headers/Kept.antt =====
-- Which header lines reach a tunnel.
use mygrok.Base.{
  ℕ, ◌≡◌, refl, sym, ap, ◌∙◌, subst, Bool, true, false, not, ◌||◌, List, [], ◌∷◌, ◌++◌, none, some,
  Bytes, codes, ◌==◌, all, member, to_lower, lower_byte, trim_space, trim_left, is_space, cut,
  split, join, arith, Bool-cases, Option-cases, inl, inr, contains, has_prefix, All,
}
use mygrok.Base.Pieces.{lacks, cut_back, cut_here, split-lacks, split_lacking, split-append}
use mygrok.Base.Trim.{List-cases, trim_space_idem, lacks-trim_space}
use mygrok.Server.Headers.Single.{
  IsSingle, single_step, contains-append, trim_space-IsSingle, split-IsSingle, split_at-IsSingle,
  join-IsSingle,
}
use mygrok.Server.Headers.{
  crlf, before, split_at, trim_blank, inject_with, inject_client_ip, kept_lines, own_lines,
  is_client_ip_line, is_cookie_line, strip_mygrok_cookies, kept_pairs, cookie_key, own_cookies,
}

-- A header name followed by a colon.
has_prefix_colon :
    (m k v : Bytes)
    → lacks b':' m ≡ true
    → lacks b':' k ≡ true
    → has_prefix (m ++ b':' ∷ v) (k ++ b':' ∷ []) ≡ (m == k)
unfolding has_prefix ◌==◌
has_prefix_colon [] [] v h i = refl
has_prefix_colon [] (y ∷ k) v h i = ground arith
has_prefix_colon (x ∷ m) [] v h i = ground arith
has_prefix_colon (x ∷ m) (y ∷ k) v h i = ground (arith, has_prefix_colon m k v)

trim_blank_colon : (l v : Bytes) → trim_blank (l ++ b':' ∷ v) ≡ trim_blank l ++ b':' ∷ v
unfolding trim_blank
trim_blank_colon [] v = refl
trim_blank_colon (c ∷ l) v = ground (arith, trim_blank_colon l v)

lacks-trim_blank : (b : ℕ) (l : Bytes) → lacks b l ≡ true → lacks b (trim_blank l) ≡ true
unfolding trim_blank
lacks-trim_blank b [] h = refl
lacks-trim_blank b (c ∷ l) h = ground (arith, lacks-trim_blank b l)

lacks-to_lower : (l : Bytes) → lacks b':' l ≡ true → lacks b':' (to_lower l) ≡ true
unfolding to_lower lower_byte
lacks-to_lower [] h = refl
lacks-to_lower (c ∷ l) h = ground (arith, lacks-to_lower l)

to_lower_colon : (l v : Bytes) → to_lower (l ++ b':' ∷ v) ≡ to_lower l ++ b':' ∷ to_lower v
unfolding to_lower lower_byte
to_lower_colon [] v = refl
to_lower_colon (c ∷ l) v = rw (to_lower_colon l v)

-- What stands after the colon does not matter to the name of the line.
named_line :
    (l v k : Bytes)
    → lacks b':' l ≡ true
    → lacks b':' k ≡ true
    → has_prefix (to_lower (trim_blank (l ++ b':' ∷ v))) (k ++ b':' ∷ [])
      ≡ (to_lower (trim_blank l) == k)
named_line l v k h i =
    rw (trim_blank_colon l v, to_lower_colon (trim_blank l) v)
      (has_prefix_colon (to_lower (trim_blank l)) k (to_lower v)
        (lacks-to_lower (trim_blank l) (lacks-trim_blank b':' l h)) i)

client_ip_colon :
    (l v w : Bytes)
    → lacks b':' l ≡ true
    → is_client_ip_line (l ++ b':' ∷ v) ≡ is_client_ip_line (l ++ b':' ∷ w)
unfolding is_client_ip_line
client_ip_colon l v w h = ground (
  arith,
  named_line l v (codes "x-forwarded-for") h refl,
  named_line l w (codes "x-forwarded-for") h refl,
  named_line l v (codes "x-real-ip") h refl,
  named_line l w (codes "x-real-ip") h refl,
)

-- The pairs of a line, and whether one is a cookie of the server.
unfoldable pub cookies : Bytes → List Bytes
cookies line = elim (cut b':' line) [ none ↦ [] | some (name, value) ↦ split b';' value ]

abbrev is_own : Bytes → Bool
is_own pair = member (cookie_key (trim_space pair)) own_cookies

-- What the loop over the pairs keeps.
record IsKept (p : Bytes) : Type 0 where
  trimmed : trim_space p ≡ p
  whole : lacks b';' p ≡ true
  foreign : member (cookie_key p) own_cookies ≡ false

kept_pairs-IsKept :
    (ps : List Bytes) → All (λ p. lacks b';' p ≡ true) ps → All IsKept (kept_pairs ps)
unfolding kept_pairs
kept_pairs-IsKept [] h = tt
kept_pairs-IsKept (p ∷ ps) h =
    let rest = kept_pairs-IsKept ps h.1 in
    elim (Bool-cases (trim_space p == [])) [
      | inl e ↦ rw e rest
      | inr e ↦ elim (Bool-cases (member (cookie_key (trim_space p)) own_cookies)) [
        | inl own ↦ rw (e, own) rest
        | inr other ↦
            rw (e, other)
              (
                record {
                  trimmed = trim_space_idem p;
                  whole = lacks-trim_space b';' p h.0;
                  foreign = other;
                },
                rest,
              )
      ]
    ]

kept_pairs-IsSingle : (ps : List Bytes) → All IsSingle ps → All IsSingle (kept_pairs ps)
unfolding kept_pairs
kept_pairs-IsSingle [] h = tt
kept_pairs-IsSingle (p ∷ ps) h =
    let rest = kept_pairs-IsSingle ps h.1 in
    elim (Bool-cases (trim_space p == [])) [
      | inl e ↦ rw e rest
      | inr e ↦ elim (Bool-cases (member (cookie_key (trim_space p)) own_cookies)) [
        | inl own ↦ rw (e, own) rest
        | inr other ↦ rw (e, other) (trim_space-IsSingle p h.0, rest)
      ]
    ]

own_pair : (p : Bytes) → IsKept p → is_own (32 ∷ p) ≡ false
unfolding trim_space trim_left is_space
own_pair p k = ap (λ q. member (cookie_key q) own_cookies) k.trimmed ∙ k.foreign

own_free :
    (p : Bytes) (ps : List Bytes)
    → All IsKept (p ∷ ps)
    → all (λ q. not (is_own q)) (split b';' (32 ∷ join (p ∷ ps) (codes "; "))) ≡ true
unfolding join
own_free p [] h =
    let (k, _) = h in ground (arith, split_lacking b';' (32 ∷ p) k.whole, own_pair p k)
own_free p (q ∷ ps) h =
    let (k, rest) = h in
    ground (
      arith,
      split-append b';' (32 ∷ p) (32 ∷ join (q ∷ ps) (codes "; ")) k.whole,
      own_pair p k,
      own_free q ps rest,
    )

-- A line that the server may send on: it is one line only, it does not name a client address, and if
-- it is a Cookie line none of its cookies is the server's own.
pub record IsSafe (line : Bytes) : Type 0 where
  pub single : IsSingle line
  pub no_address : is_client_ip_line line ≡ false
  pub no_own : (not (is_cookie_line line) || all (λ p. not (is_own p)) (cookies line)) ≡ true

strip_mygrok_cookies-IsSafe :
    (line : Bytes) {out : Bytes}
    → IsSingle line
    → is_client_ip_line line ≡ false
    → strip_mygrok_cookies line ≡ some out
    → IsSafe out
unfolding strip_mygrok_cookies cookies
strip_mygrok_cookies-IsSafe line {out} one h e = elim (Option-cases (cut b':' line)) [
  | inl p ↦
      let q : line ≡ out = ground arith in
      subst IsSafe q (record { single = one; no_address = h; no_own = ground arith })
  | inr ((name, value), p) ↦ elim (List-cases (kept_pairs (split b';' value))) [
    | inl q ↦ absurd (ground arith)
    | inr (k, ks, q) ↦
        let (back, free) = cut_back b':' line p in
        let good : All IsKept (k ∷ ks) =
          subst (All IsKept) q (kept_pairs-IsKept (split b';' value) (split-lacks b';' value)) in
        let halves = contains-append name value b':' refl refl in
        let here : IsSingle (name ++ b':' ∷ value) = subst IsSingle back one in
        let (p0, ps0, s, first, others, head) =
          split-IsSingle b';' value (ground (arith, halves, here)) in
        let pieces : All IsSingle (k ∷ ks) =
          subst (All IsSingle) q (
            kept_pairs-IsSingle (split b';' value)
              (subst (All IsSingle) (sym s) (first, others))) in
        let w = 32 ∷ join (k ∷ ks) (codes "; ") in
        let r : name ++ b':' ∷ w ≡ out = ground arith in
        subst IsSafe r (record {
          single = ground (
            arith,
            halves,
            here,
            contains-append name w b':' refl refl,
            single_step 32 (join (k ∷ ks) (codes "; ")),
            join-IsSingle k ks pieces,
          );
          no_address = client_ip_colon name w value free ∙ ap is_client_ip_line (sym back) ∙ h;
          no_own = ground (arith, cut_here b':' name w free, own_free k ks good);
        })
  ]
]

kept_lines-IsSafe : (lines : List Bytes) → All IsSingle lines → All IsSafe (kept_lines lines)
unfolding kept_lines
kept_lines-IsSafe [] h = tt
kept_lines-IsSafe (line ∷ lines) h = elim (Bool-cases (is_client_ip_line line)) [
  | inl p ↦ rw p (kept_lines-IsSafe lines h.1)
  | inr p ↦ elim (Bool-cases (is_cookie_line line)) [
    | inr q ↦
        rw (p, q)
          (
            record { single = h.0; no_address = p; no_own = ground arith },
            kept_lines-IsSafe lines h.1,
          )
    | inl q ↦ elim (Option-cases (strip_mygrok_cookies line)) [
      | inl r ↦ rw (p, q, r) (kept_lines-IsSafe lines h.1)
      | inr (out, r) ↦
          rw (p, q, r) (strip_mygrok_cookies-IsSafe line h.0 p r, kept_lines-IsSafe lines h.1)
    ]
  ]
]

-- Headers whose lines and whose end are marked by a carriage return and a line feed are sent on as
-- single lines with that end followed by the two lines with the client's address. None of these single
-- lines names a client address, and none of those that are Cookie lines carries a cookie of the server.
pub inject_client_ip-IsSafe :
    (raw ip : Bytes) {block : Bytes}
    → contains raw crlf ≡ true
    → before (crlf ++ crlf) raw ≡ some block
    → (lines : List Bytes) × All IsSafe lines
      × (inject_client_ip raw ip ≡ join (lines ++ own_lines ip) crlf ++ (crlf ++ crlf))
unfolding inject_client_ip inject_with
inject_client_ip-IsSafe raw ip {block} h e = (
  kept_lines (split_at block crlf),
  kept_lines-IsSafe (split_at block crlf) (split_at-IsSingle block),
  ground arith,
)
