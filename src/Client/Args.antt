-- ===== src/Client/Args.antt =====
-- The flags that cmd/mygrok reads by itself: `scanFlag` of config.go, `extractFlag` and
-- `extractBoolFlag` of mcp.go, `splitCSV` of main.go and the split of positional arguments.
use mygrok.Base.{
  Bool, true, not, ◌||◌, List, [], ◌∷◌, ◌++◌, Bytes, codes, ◌==◌, if◌then◌else◌, length, drop,
  member, trim_space, has_prefix, split,
}

-- strings.TrimPrefix
unfoldable pub trim_prefix : Bytes → Bytes → Bytes
trim_prefix s p = if has_prefix s p then drop (length p) s else s

-- `--key=value` or `--key value`
unfoldable pub scan_flag : List Bytes → Bytes → Bytes
scan_flag [] key = []
scan_flag (a ∷ []) key =
    let pre = key ++ b'=' ∷ [] in if has_prefix a pre then trim_prefix a pre else []
scan_flag (a ∷ b ∷ args) key =
    let pre = key ++ b'=' ∷ [] in
    let rest = scan_flag (b ∷ args) key in
    if a == key then b else if has_prefix a pre then trim_prefix a pre else rest

-- The value found last, and the arguments that are left.
unfoldable pub extract_flag : List Bytes → Bytes → Bytes → Bytes × List Bytes
extract_flag [] name value = (value, [])
extract_flag (a ∷ []) name value =
    let pre = name ++ b'=' ∷ [] in
    if has_prefix a pre then (trim_prefix a pre, []) else (value, a ∷ [])
extract_flag (a ∷ b ∷ args) name value =
    let pre = name ++ b'=' ∷ [] in
    let taken = extract_flag args name b in
    let given = extract_flag (b ∷ args) name (trim_prefix a pre) in
    let (v, rest) = extract_flag (b ∷ args) name value in
    if a == name then taken else if has_prefix a pre then given else (v, a ∷ rest)

unfoldable pub extract_bool_flag : List Bytes → Bytes → Bool → Bool × List Bytes
extract_bool_flag [] name set = (set, [])
extract_bool_flag (a ∷ args) name set =
    let pre = name ++ b'=' ∷ [] in
    let taken = extract_bool_flag args name true in
    let given = extract_bool_flag args name (not (trim_prefix a pre == codes "false")) in
    let (v, rest) = extract_bool_flag args name set in
    if a == name then taken else if has_prefix a pre then given else (v, a ∷ rest)

-- The loop of `splitCSV`, after the entries that were seen.
unfoldable pub distinct_entries : List Bytes → List Bytes → List Bytes
distinct_entries seen [] = []
distinct_entries seen (p ∷ ps) =
    let entry = trim_space p in
    let skipped = distinct_entries seen ps in
    let taken = distinct_entries (entry ∷ seen) ps in
    if (entry == []) || member entry seen then skipped else entry ∷ taken

unfoldable pub split_csv : Bytes → List Bytes
split_csv s = if trim_space s == [] then [] else distinct_entries [] (split b',' s)

-- The first argument without a dash, and the others.
unfoldable pub first_positional : List Bytes → Bytes → Bytes × List Bytes
first_positional [] port = (port, [])
first_positional (a ∷ args) port =
    let found = first_positional args a in
    let (p, rest) = first_positional args port in
    if (port == [])
    then (if not (has_prefix a (codes "-")) then found else (p, a ∷ rest))
    else (p, a ∷ rest)

-- The arguments without a dash, and those with one.
unfoldable pub split_args : List Bytes → List Bytes × List Bytes
split_args [] = ([], [])
split_args (a ∷ args) =
    let (positional, flags) = split_args args in
    if has_prefix a (codes "-") then (positional, a ∷ flags) else (a ∷ positional, flags)
