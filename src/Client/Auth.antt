-- ===== src/Client/Auth.antt =====
-- Basic authentication in the client, cmd/mygrok/basicauth.go, and `checkLANCompatibility` of
-- main.go. base64 is an argument.
use mygrok.Base.{
  Bool, true, not, [], ◌++◌, Option, none, some, Bytes, codes, ◌==◌, if◌then◌else◌, trim_space,
  contains,
}
use mygrok.Base.Error.{Result, ok, err}

pub data AuthError : Type 0 where
  no_colon : AuthError

-- The flag, or the environment.
unfoldable pub resolve_basic_auth : Bytes → Bytes → Bytes
resolve_basic_auth flag env = if trim_space flag == [] then trim_space env else trim_space flag

unfoldable pub parse_basic_auth_flag : (Bytes → Bytes) → Bytes → Result AuthError Bytes
parse_basic_auth_flag encode flag =
    let pair = trim_space flag in
    if pair == []
    then ok []
    else if not (contains pair (codes ":"))
    then err no_colon
    else ok (codes "Basic " ++ encode pair)

unfoldable pub basic_auth_ok : Bytes → Bytes → Bool
basic_auth_ok actual expected = if expected == [] then true else actual == expected

pub data LanConflict : Type 0 where
  with_mcp with_basic_auth : LanConflict

unfoldable pub check_lan_compatibility : Bytes → Bytes → Bytes → Option LanConflict
check_lan_compatibility lan_ip basic_auth mcp =
    if lan_ip == []
    then none
    else if not (mcp == [])
    then some with_mcp
    else if not (basic_auth == [])
    then some with_basic_auth
    else none
