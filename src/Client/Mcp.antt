-- ===== src/Client/Mcp.antt =====
-- The capability token of cmd/mygrok/mcp.go: `resolveMCPSecret`, `mcpGate` and `mcpRedactPath`.
-- The file of a subdomain's token is part of the state.
pub mod Gate
pub mod Token
use mygrok.Base.{
  ℕ, Bool, true, false, not, ◌&&◌, ◌||◌, List, [], ◌∷◌, ◌++◌, Option, none, some, Bytes, codes,
  ◌==◌, eqb, leb, any, all, if◌then◌else◌, trim_space, has_prefix, drop, cut,
}
use mygrok.Client.Names.{valid_service_name}
use mygrok.Base.Error.{Result, ok, err}

unfoldable pub mcp_redact_path : Bytes → Bytes
mcp_redact_path path =
    if not (has_prefix path (codes "/")) then codes "/<token>" else elim (cut b'/' (drop 1 path)) [
      | none ↦ codes "/<token>"
      | some (seg, rest) ↦ codes "/<token>" ++ b'/' ∷ rest
    ]

-- The part before the first slash, and the part from it on.
unfoldable pub first_segment : Bytes → Bytes × Bytes
first_segment s = elim (cut b'/' s) [ none ↦ (s, []) | some (seg, rest) ↦ (seg, b'/' ∷ rest) ]

-- The path without the token, or none.
unfoldable pub mcp_gate : Bytes → Bytes → Option Bytes
mcp_gate path secret =
    let (seg, rest) = first_segment (drop 1 path) in
    if secret == []
    then some path
    else if not (has_prefix path (codes "/"))
    then none
    else if not (seg == secret)
    then none
    else some (if rest == [] then codes "/" else rest)

pub data SecretError : Type 0 where
  invalid_subdomain bad_secret no_random not_written : SecretError

-- The bytes of "/ \t\r\n".
unfoldable pub is_barred : ℕ → Bool
is_barred c = eqb c b'/' || (eqb c 32 || (eqb c 9 || (eqb c 13 || eqb c 10)))

-- The file afterwards: `writes` says whether the write succeeds.
unfoldable pub write_secret : Bool → Bytes → Option Bytes → Option Bytes × Result SecretError Bytes
write_secret writes s file = if writes then (some (s ++ 10 ∷ []), ok s) else (file, err not_written)

unfoldable pub fresh_secret :
    Bool → Option Bytes → Option Bytes → Option Bytes × Result SecretError Bytes
fresh_secret writes none file = (file, err no_random)
fresh_secret writes (some s) file = write_secret writes s file

-- `random` is the new token, or none where reading randomness fails.
unfoldable pub resolve_mcp_secret :
    Bytes → Bytes → Option Bytes → Bool → Option Bytes → Option Bytes × Result SecretError Bytes
resolve_mcp_secret subdomain explicit random writes file =
    let stored = elim file as (λ _. Bytes) [ none ↦ [] | some b ↦ trim_space b ] in
    if not (valid_service_name subdomain)
    then (file, err invalid_subdomain)
    else if not (explicit == [])
    then if any is_barred explicit
      then (file, err bad_secret)
      else write_secret writes explicit file
    else if not (stored == [])
    then (file, ok stored)
    else fresh_secret writes random file
