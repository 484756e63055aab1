-- ===== src/Server/Admin.antt =====
-- The admin side of cmd/mygrokd/admin.go: the admin sessions, `adminAuthOK`, `sameOriginPOST`,
-- `wantsJSON` and `readPostForm`. The packages net/url, encoding/base64 and strconv are the
-- parameter `GoLib`; the clock is read once for a request, and random texts are arguments.
use mygrok.Base.{
  ℕ, ◌+◌, ◌*◌, ◌^◌, Bool, true, false, not, List, [], ◌∷◌, ◌++◌, Option, none, some, Bytes, codes,
  ◌==◌, ltb, if◌then◌else◌, length, take, drop, to_lower, trim_space, has_prefix, contains, cut,
}
use mygrok.Base.Error.{Result, ok, err}
use mygrok.Base.Dict.{Dict, lookup, insert, erase}
use mygrok.Server.Headers.{crlf, split_at, read_cookie_from_headers}
use mygrok.Server.Passkeys.{second}

-- u.Scheme, u.Hostname() and u.String() of a parsed URL.
pub record Url : Type 0 where
  pub scheme : Bytes
  pub hostname : Bytes
  pub text : Bytes

-- url.Parse; url.ParseQuery with Values.Get; base64.StdEncoding.DecodeString; strconv.Atoi, where a
-- negative number is `none` as well, since the code treats both alike.
pub record GoLib : Type 0 where
  pub parse_url : Bytes → Option Url
  pub parse_query : Bytes → Option (Bytes → Bytes)
  pub decode_base64 : Bytes → Option Bytes
  pub atoi : Bytes → Option ℕ

-- The flags of the server that the handlers read.
pub record Flags : Type 0 where
  pub auth_token : Bytes
  pub public_host : Bytes

abbrev admin_session_ttl : ℕ
admin_session_ttl = 24 * 3600 * second

-- `adminSessions`: the cookies with their expiry.
abbrev pub AdminSessions : Type 0
AdminSessions = Dict ℕ

-- `issue`: the random id, or `none` and the text made from the clock, which is not stored.
unfoldable pub issue : AdminSessions → Option Bytes → Bytes → ℕ → AdminSessions × Bytes
issue m none fallback now = (m, fallback)
issue m (some id) fallback now = (insert id (now + admin_session_ttl) m, id)

unfoldable pub valid : AdminSessions → Bytes → ℕ → AdminSessions × Bool
valid m id now = if id == [] then (m, false) else elim (lookup id m) [
  | none ↦ (m, false)
  | some exp ↦ if ltb exp now then (erase id m, false) else (m, true)
]

-- The rest of the first header line that starts so, in any case of letters.
first_line_rest : Bytes → List Bytes → Option Bytes
first_line_rest name [] = none
first_line_rest name (line ∷ lines) =
    let rest = first_line_rest name lines in
    if has_prefix (to_lower line) name then some (drop (length name) line) else rest

unfoldable pub first_header : Bytes → Bytes → Option Bytes
unfolding first_line_rest
first_header name raw = first_line_rest name (split_at raw crlf)

unfoldable pub wants_json : Bytes → Bool
wants_json raw = elim (first_header (codes "accept:") raw) [
  | none ↦ false
  | some v ↦ contains (to_lower v) (codes "application/json")
]

unfoldable pub read_admin_cookie : Bytes → Bytes
read_admin_cookie raw = read_cookie_from_headers raw (codes "mygrok_admin")

pub data FormError : Type 0 where
  no_length body_too_large short_body bad_query : FormError

-- The loop of `sameOriginPOST` over the lines: the last values of Origin and Referer.
origin_referer : Bytes × Bytes → List Bytes → Bytes × Bytes
origin_referer found [] = found
origin_referer (origin, referer) (line ∷ lines) =
    let lower = to_lower line in
    origin_referer
      (if has_prefix lower (codes "origin:")
        then (trim_space (drop 7 line), referer)
        else if has_prefix lower (codes "referer:")
        then (origin, trim_space (drop 8 line))
        else (origin, referer))
      lines

module _ (G : GoLib) where
  open G use {parse_url, parse_query, decode_base64, atoi}

  abbrev max_form : ℕ
  max_form = 2 ^ 20

  -- `left` is what the connection holds after the headers.
  unfoldable pub read_post_form : Bytes → Bytes → Result FormError (Bytes → Bytes)
  read_post_form raw left = elim (first_header (codes "content-length:") raw) [
    | none ↦ err no_length
    | some v ↦ elim (atoi (trim_space v)) [
      | none ↦ err no_length
      | some cl ↦
          if ltb max_form cl
          then err body_too_large
          else if ltb (length left) cl
          then err short_body
          else elim (parse_query (take cl left)) [ none ↦ err bad_query | some form ↦ ok form ]
    ]
  ]

  unfoldable pub same_origin_post : Bytes → Bytes → Bool
  unfolding origin_referer
  same_origin_post raw public_host =
      let (origin, referer) = origin_referer ([], []) (split_at raw crlf) in
      let check = if origin == [] then referer else origin in
      if check == [] then true else elim (parse_url check) [
        | none ↦ false
        | some u ↦ to_lower u.hostname == (codes "tunnel." ++ to_lower public_host)
      ]

  -- The password of HTTP basic authentication.
  unfoldable pub basic_password : Bytes → Option Bytes
  basic_password raw =
      let got = elim (first_header (codes "authorization:") raw) as (λ _. Bytes) [
        | none ↦ []
        | some v ↦ trim_space v
      ] in
      if not (has_prefix got (codes "Basic "))
      then none
      else elim (decode_base64 (trim_space (drop 6 got))) [
        | none ↦ none
        | some dec ↦ elim (cut b':' dec) [ none ↦ none | some (user, password) ↦ some password ]
      ]

  password_ok : Bytes → Bytes → Bool
  password_ok token raw = elim (basic_password raw) [ none ↦ false | some p ↦ p == token ]

  -- The sessions afterwards, and whether the request is an admin's.
  unfoldable pub admin_auth_ok : Flags → AdminSessions → Bytes → ℕ → AdminSessions × Bool
  unfolding password_ok
  admin_auth_ok cfg m raw now =
      let sid = read_admin_cookie raw in
      let (m', live) = valid m sid now in
      if cfg.auth_token == []
      then (m, false)
      else if sid == []
      then (m, password_ok cfg.auth_token raw)
      else if live
      then (m', true)
      else (m', password_ok cfg.auth_token raw)
