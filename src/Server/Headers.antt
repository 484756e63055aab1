-- ===== src/Server/Headers.antt =====
-- The raw request headers of cmd/mygrokd: `readHeadersAndHost`, `injectClientIP` and
-- `stripMygrokCookies` of main.go, `parseRequestLine` of admin.go, `readCookieFromHeaders` and
-- `readPKSessionFromCookies` of passkeys.go. A reader is the list of the bytes that are left in it;
-- its end is the only read error.
pub mod Single
pub mod Kept
pub mod Reading
use mygrok.Base.{
  ℕ, zero, suc, ◌*◌, ◌-◌, Bool, true, false, not, ◌&&◌, ◌||◌, List, [], ◌∷◌, ◌++◌, Option, none,
  some, Bytes, codes, ◌==◌, eqb, ltb, if◌then◌else◌, length, drop, member, to_lower, trim_space,
  has_prefix, contains, cut, split, join,
}
use mygrok.Base.Error.{Result, ok, err}

abbrev pub lf : Bytes
lf = 10 ∷ []

abbrev pub crlf : Bytes
crlf = 13 ∷ 10 ∷ []

-- bytes.Index: what stands before the first `p`
unfoldable pub before : Bytes → Bytes → Option Bytes
before p [] = if has_prefix [] p then some [] else none
before p (c ∷ s) =
    let rest = before p s in
    if has_prefix (c ∷ s) p then some [] else elim rest [ none ↦ none | some l ↦ some (c ∷ l) ]

-- bytes.Split by a text that is not empty; the number is of the bytes left of a separator.
split_skip : ℕ → Bytes → Bytes → List Bytes
split_skip n p [] = [] ∷ []
split_skip (suc n) p (c ∷ s) = split_skip n p s
split_skip zero p (c ∷ s) =
    let after = split_skip (length p - 1) p s in
    if has_prefix (c ∷ s) p
    then [] ∷ after
    else elim (split_skip 0 p s) [ [] ↦ [] | q ∷ qs ↦ (c ∷ q) ∷ qs ]

unfoldable pub split_at : Bytes → Bytes → List Bytes
unfolding split_skip
split_at s p = split_skip 0 p s

-- strings.TrimLeft(s, " \t") and strings.TrimRight(s, "\r\n")
unfoldable pub trim_blank : Bytes → Bytes
trim_blank [] = []
trim_blank (c ∷ s) = let rest = trim_blank s in if eqb c 32 || eqb c 9 then rest else c ∷ s

trim_eol : Bytes → Bytes
trim_eol [] = []
trim_eol (c ∷ s) = elim (trim_eol s) [
  | [] ↦ if eqb c 13 || eqb c 10 then [] else c ∷ []
  | d ∷ r ↦ c ∷ d ∷ r
]

pub data ReadError : Type 0 where
  eof headers_too_large : ReadError

-- What the reader gave: the headers, the host, and what is left to read.
pub record Headers : Type 0 where
  pub raw : Bytes
  pub host : Bytes
  pub left : Bytes

unfoldable pub host_line : Bytes → Bytes → Bytes
unfolding trim_eol
host_line line host =
    if has_prefix (to_lower line) (codes "host:") then trim_eol (trim_space (drop 5 line)) else host

abbrev pub max_headers : ℕ
max_headers = 64 * 1024

-- The loop, in the middle of a line: what was read, the part of the line read, and the host.
unfoldable pub read_loop : Bytes → Bytes → Bytes → Bytes → Result ReadError Headers
unfolding host_line
read_loop raw part host [] = err eof
read_loop raw part host (c ∷ s) =
    let line = part ++ c ∷ [] in
    let more = read_loop raw line host s in
    let next = read_loop (raw ++ line) [] (host_line line host) s in
    if not (eqb c 10)
    then more
    else if (line == crlf) || (line == lf)
    then ok (record { raw = raw ++ line; host = host; left = s })
    else if ltb max_headers (length (raw ++ line))
    then err headers_too_large
    else next

unfoldable pub read_headers_and_host : Bytes → Result ReadError Headers
read_headers_and_host s = read_loop [] [] [] s

abbrev pub own_cookies : List Bytes
own_cookies =
    codes "mygrok_pk" ∷ codes "mygrok_admin" ∷ codes "mygrok_pk_login" ∷ codes "mygrok_pk_reg" ∷ []

-- The name of a trimmed pair: the part before the first `=`.
unfoldable pub cookie_key : Bytes → Bytes
cookie_key pair = elim (cut b'=' pair) [ none ↦ trim_space pair | some (k, v) ↦ trim_space k ]

-- The loop over the pairs of a Cookie line.
unfoldable pub kept_pairs : List Bytes → List Bytes
kept_pairs [] = []
kept_pairs (pair ∷ pairs) =
    let rest = kept_pairs pairs in
    let trimmed = trim_space pair in
    if trimmed == []
    then rest
    else if member (cookie_key trimmed) own_cookies
    then rest
    else trimmed ∷ rest

-- `none` is a nil line.
unfoldable pub strip_mygrok_cookies : Bytes → Option Bytes
strip_mygrok_cookies line = elim (cut b':' line) [
  | none ↦ some line
  | some (name, value) ↦ elim (kept_pairs (split b';' value)) [
    | [] ↦ none
    | p ∷ ps ↦ some (name ++ (codes ": " ++ join (p ∷ ps) (codes "; ")))
  ]
]

-- The test that drops a line, and the one that filters its cookies.
unfoldable pub is_client_ip_line : Bytes → Bool
unfolding trim_blank
is_client_ip_line line =
    let lower = to_lower (trim_blank line) in
    has_prefix lower (codes "x-forwarded-for:") || has_prefix lower (codes "x-real-ip:")

unfoldable pub is_cookie_line : Bytes → Bool
unfolding trim_blank
is_cookie_line line = has_prefix (to_lower (trim_blank line)) (codes "cookie:")

-- The loop over the lines of the header block.
unfoldable pub kept_lines : List Bytes → List Bytes
kept_lines [] = []
kept_lines (line ∷ lines) =
    let rest = kept_lines lines in
    if is_client_ip_line line
    then rest
    else if is_cookie_line line
    then elim (strip_mygrok_cookies line) [ none ↦ rest | some l ↦ l ∷ rest ]
    else line ∷ rest

abbrev pub own_lines : Bytes → List Bytes
own_lines ip = (codes "X-Forwarded-For: " ++ ip) ∷ (codes "X-Real-IP: " ++ ip) ∷ []

-- With the line end that the headers use.
unfoldable pub inject_with : Bytes → Bytes → Bytes → Bytes
inject_with eol raw ip = elim (before (eol ++ eol) raw) [
  | none ↦ raw
  | some block ↦ join (kept_lines (split_at block eol) ++ own_lines ip) eol ++ (eol ++ eol)
]

unfoldable pub inject_client_ip : Bytes → Bytes → Bytes
inject_client_ip raw ip = inject_with (if contains raw crlf then crlf else lf) raw ip

-- strings.SplitN(s, " ", 3), as far as its second part: the method and the URI.
two_parts : Bytes → Bytes × Bytes
two_parts s = elim (cut 32 s) [
  | none ↦ ([], [])
  | some (method, rest) ↦ elim (cut 32 rest) [
    | none ↦ (method, rest)
    | some (uri, _) ↦ (method, uri)
  ]
]

first_line : Bytes → Bytes
first_line [] = []
first_line (c ∷ s) = let rest = first_line s in if eqb c 10 then c ∷ [] else c ∷ rest

unfoldable pub parse_request_line : Bytes → Bytes × Bytes
unfolding two_parts first_line trim_eol
parse_request_line raw = two_parts (trim_eol (first_line raw))

-- The loops over the pairs of a line and over the lines; `none` goes on.
find_pair : Bytes → List Bytes → Option Bytes
find_pair name [] = none
find_pair name (pair ∷ pairs) =
    let rest = find_pair name pairs in
    elim (cut b'=' (trim_space pair)) [
      | none ↦ rest
      | some (k, v) ↦ if k == name then some v else rest
    ]

find_cookie : Bytes → List Bytes → Bytes
unfolding find_pair
find_cookie name [] = []
find_cookie name (line ∷ lines) =
    let rest = find_cookie name lines in
    if has_prefix (to_lower line) (codes "cookie:")
    then elim (find_pair name (split b';' (trim_space (drop 7 line)))) [ some v ↦ v | none ↦ rest ]
    else rest

unfoldable pub read_cookie_from_headers : Bytes → Bytes → Bytes
unfolding find_cookie
read_cookie_from_headers raw name = find_cookie name (split_at raw crlf)

unfoldable pub read_pk_session_from_cookies : Bytes → Bytes
read_pk_session_from_cookies raw = read_cookie_from_headers raw (codes "mygrok_pk")
