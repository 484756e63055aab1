-- ===== src/Server/Names.antt =====
-- The host names of cmd/mygrokd/main.go: `validSubdomain`, `validateCustomHost`,
-- `normalizeHostnames`, `subdomainOf` and `reserved`, with `looksLikeSubdomain` of
-- cmd/mygrokd/ipacl.go and `isManagementHost` of cmd/mygrokd/admin.go.
-- An error is a value with the data of its message.
pub mod Labels
pub mod Hosts
pub mod Routing
use mygrok.Base.{
  ℕ, suc, ◌-◌, Bool, true, false, not, ◌&&◌, ◌||◌, List, [], ◌∷◌, ◌++◌, Option, none, some, Bytes,
  codes, ◌==◌, eqb, leb, ltb, if◌then◌else◌, length, take, member, to_lower, trim_space, has_suffix,
  contains, split,
}
use mygrok.Base.Error.{Result, ok, err}

-- The loop over the bytes of a label of `n` bytes, at index `i`. A byte above 127 is part of a rune
-- that no case accepts.
unfoldable pub label_bytes : ℕ → ℕ → Bytes → Bool
label_bytes i n [] = true
label_bytes i n (r ∷ s) =
    let rest = label_bytes (suc i) n s in
    if leb b'a' r && leb r b'z'
    then rest
    else if leb b'0' r && leb r b'9'
    then rest
    else if eqb r b'-' && (not (eqb i 0) && not (eqb i (n - 1)))
    then rest
    else false

unfoldable pub valid_subdomain : Bytes → Bool
valid_subdomain s =
    if eqb (length s) 0 || ltb 63 (length s) then false else label_bytes 0 (length s) s

unfoldable pub looks_like_subdomain : Bytes → Bool
looks_like_subdomain s =
    if eqb (length s) 0 || ltb 63 (length s) then false else label_bytes 0 (length s) s

abbrev pub reserved : List Bytes
reserved = codes "www" ∷ codes "api" ∷ codes "admin" ∷ codes "mail" ∷ []

pub data HostError : Type 0 where
  bad_length bad_label bad_char not_qualified : Bytes → HostError
  under_public : Bytes → Bytes → HostError

-- The loop over the labels of `h`; `none` is a nil error.
unfoldable pub validate_labels : Bytes → List Bytes → Option HostError
validate_labels h [] = none
validate_labels h (label ∷ labels) =
    let rest = validate_labels h labels in
    if eqb (length label) 0 || ltb 63 (length label)
    then some (bad_label h)
    else if label_bytes 0 (length label) label
    then rest
    else some (bad_char h)

unfoldable pub qualified : Bytes → Option HostError
qualified h = if contains h (codes ".") then none else some (not_qualified h)

unfoldable pub or_else : Option HostError → Option HostError → Option HostError
or_else none e = e
or_else (some d) e = some d

unfoldable pub validate_custom_host : Bytes → Option HostError
unfolding validate_labels qualified or_else
validate_custom_host h =
    if eqb (length h) 0 || ltb 253 (length h)
    then some (bad_length h)
    else or_else (validate_labels h (split b'.' h)) (qualified h)

-- The loop of `normalizeHostnames` over `seen`, `out` and the names that are left.
unfoldable pub normalize_loop :
    Bytes → List Bytes → List Bytes → List Bytes → Result HostError (List Bytes)
normalize_loop base seen out [] = ok out
normalize_loop base seen out (raw ∷ hosts) =
    let h = to_lower (trim_space raw) in
    let skip = normalize_loop base seen out hosts in
    let next = normalize_loop base (h ∷ seen) (out ++ h ∷ []) hosts in
    if (h == []) || member h seen
    then skip
    else if (h == base) || has_suffix h (b'.' ∷ base)
    then err (under_public h base)
    else elim (validate_custom_host h) [ some e ↦ err e | none ↦ next ]

unfoldable pub normalize_hostnames : List Bytes → Bytes → Result HostError (List Bytes)
unfolding normalize_loop
normalize_hostnames [] base = ok []
normalize_hostnames (h ∷ hosts) base = normalize_loop (to_lower base) [] [] (h ∷ hosts)

-- The part before the last `b`: `s[:strings.LastIndex(s, b)]`
unfoldable pub before_last : ℕ → Bytes → Option Bytes
before_last b [] = none
before_last b (c ∷ s) = elim (before_last b s) [
  | some l ↦ some (c ∷ l)
  | none ↦ if eqb c b then some [] else none
]

unfoldable pub strip_port : Bytes → Bytes
unfolding before_last
strip_port host = elim (before_last b':' host) [ some l ↦ l | none ↦ host ]

unfoldable pub subdomain_of : Bytes → Bytes → Bytes
subdomain_of host base =
    let h = to_lower (strip_port host) in
    if h == base
    then []
    else if has_suffix h (b'.' ∷ base)
    then take (length h - length base - 1) h
    else []

unfoldable pub is_management_host : Bytes → Bytes → Bool
is_management_host host base = host == (codes "tunnel." ++ base)
