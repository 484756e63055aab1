-- ===== src/Client/Proxy.antt =====
-- The requests of one stream, `proxyToLocal` and `forwardOne` of cmd/mygrok/main.go. net/http reads
-- and writes the messages; what the local server and the connections do is part of the input. The
-- bytes after a protocol upgrade are not modelled.
pub mod Served
use mygrok.Base.{
  ℕ, Bool, true, false, not, ◌&&◌, List, [], ◌∷◌, Option, none, some, Bytes, codes, ◌==◌, eqb,
  if◌then◌else◌,
}
use mygrok.Client.Auth.{basic_auth_ok}
use mygrok.Client.Mcp.{mcp_gate, mcp_redact_path}

-- `mcpSecret`, `mcpStrip` and `basicAuthExpected`.
pub record Gates : Type 0 where
  pub mcp_secret : Bytes
  pub mcp_strip : Bool
  pub basic_auth : Bytes

-- `uri` is URL.RequestURI(), `upgrade` the result of `isUpgradeRequest`.
pub record HttpRequest : Type 0 where
  pub path : Bytes
  pub uri : Bytes
  pub authorization : Bytes
  pub upgrade : Bool

-- Whether the local server is reached and takes the request, the status of its response, and
-- whether the response could be written back.
pub record Local : Type 0 where
  pub dials : Bool
  pub takes : Bool
  pub status : Option ℕ
  pub writes : Bool

-- The path sent to the local server, the status written to the visitor, the path in the log, and
-- whether the stream goes on.
pub record Outcome : Type 0 where
  pub sent : Option Bytes
  pub answer : Option ℕ
  pub logged : Bytes
  pub more : Bool

-- The path after the gate of the token.
unfoldable pub past_gate : Gates → Bytes → Option Bytes
past_gate g path = if g.mcp_secret == [] then some path else elim (mcp_gate path g.mcp_secret) [
  | none ↦ none
  | some rest ↦ some (if g.mcp_strip then rest else path)
]

unfoldable pub log_path : Gates → Bytes → Bytes
log_path g uri = if g.mcp_secret == [] then uri else mcp_redact_path uri

refused : ℕ → Bytes → Outcome
refused status shown = record { sent = none; answer = some status; logged = shown; more = false }

unfoldable pub exchange : HttpRequest → Local → Bytes → Bytes → Outcome
exchange req w path shown =
    let failed : Outcome = record {
      sent = some path;
      answer = none;
      logged = shown;
      more = false;
    } in
    if not w.takes then failed else elim w.status [
      | none ↦ failed
      | some status ↦ record {
        sent = some path;
        answer = some status;
        logged = shown;
        more = w.writes && not (req.upgrade && eqb status 101);
      }
    ]

unfoldable pub forward_one : Gates → HttpRequest → Local → Outcome
unfolding refused
forward_one g req w =
    let shown = log_path g req.uri in
    elim (past_gate g req.path) [
      | none ↦ refused 404 shown
      | some path ↦
          if not (basic_auth_ok req.authorization g.basic_auth)
          then refused 401 shown
          else if not w.dials
          then refused 502 shown
          else exchange req w path shown
    ]

-- The requests that are served, with what becomes of each.
unfoldable pub proxy_to_local : Gates → List (HttpRequest × Local) → List (HttpRequest × Outcome)
proxy_to_local g [] = []
proxy_to_local g ((req, w) ∷ more) =
    let o = forward_one g req w in
    let rest = proxy_to_local g more in if o.more then (req, o) ∷ rest else (req, o) ∷ []
