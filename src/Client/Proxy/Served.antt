-- ===== src/Client/Proxy/Served.antt =====
-- The requests that `forwardOne` of cmd/mygrok/main.go passes on.
use mygrok.Base.{
  ◌≡◌, refl, ◌⊎◌, inl, inr, Bool, true, false, ◌||◌, List, [], ◌∷◌, Option, none, some, Bytes, ◌==◌,
  eq→path, All, arith, if◌then◌else◌, Option-cases, Bool-cases,
}
use mygrok.Client.Auth.{basic_auth_ok}
use mygrok.Client.Mcp.{mcp_gate}
use mygrok.Client.Mcp.Gate.{IsThrough, mcp_gate-IsThrough, IsRedacted, mcp_redact_path-IsRedacted}
use mygrok.Client.Proxy.{
  Gates, HttpRequest, Local, Outcome, past_gate, log_path, exchange, forward_one, proxy_to_local,
}

-- Why a path has been sent to the local server: the request carries the credentials, and its path
-- starts with the token, where these are asked for; the token is left out unless it is to stay.
pub record IsAllowed (g : Gates) (req : HttpRequest) (path : Bytes) : Type 0 where
  pub credentials : ((g.basic_auth == []) || (req.authorization == g.basic_auth)) ≡ true
  pub token :
      ((g.mcp_secret ≡ []) × (path ≡ req.path))
      ⊎ ((rest : Bytes) × IsThrough req.path g.mcp_secret rest
          × (path ≡ (if g.mcp_strip then rest else req.path)))

-- What is sent is allowed.
abbrev SentAllowed : Gates → HttpRequest → Option Bytes → Type 0
SentAllowed g req none = Unit
SentAllowed g req (some path) = IsAllowed g req path

-- What is sent is allowed, and the log shows the address, with a token only without its first
-- segment.
pub record IsServed (g : Gates) (p : HttpRequest × Outcome) : Type 0 where
  pub sent : SentAllowed g p.0 p.1.sent
  pub logged :
      (((g.mcp_secret == []) ≡ true) × (p.1.logged ≡ p.0.uri))
      ⊎ (((g.mcp_secret == []) ≡ false) × IsRedacted p.0.uri p.1.logged)

past_gate-IsThrough :
    (g : Gates) (path : Bytes) {p : Bytes}
    → past_gate g path ≡ some p
    → ((g.mcp_secret ≡ []) × (p ≡ path))
      ⊎ ((rest : Bytes) × IsThrough path g.mcp_secret rest
          × (p ≡ (if g.mcp_strip then rest else path)))
unfolding past_gate
past_gate-IsThrough g path e = elim (Bool-cases (g.mcp_secret == [])) [
  | inl n ↦ inl (eq→path g.mcp_secret [] n, ground arith)
  | inr n ↦ elim (Option-cases (mcp_gate path g.mcp_secret)) [
    | inl q ↦ absurd (ground arith)
    | inr (rest, q) ↦ inr (rest, mcp_gate-IsThrough path g.mcp_secret n q, ground arith)
  ]
]

forward_one-sent :
    (g : Gates) (req : HttpRequest) (w : Local) {p : Bytes}
    → (forward_one g req w).sent ≡ some p
    → (past_gate g req.path ≡ some p) × (basic_auth_ok req.authorization g.basic_auth ≡ true)
unfolding forward_one exchange
forward_one-sent g req w e = (ground arith, ground arith)

logged_path :
    (g : Gates) (req : HttpRequest) (w : Local) → (forward_one g req w).logged ≡ log_path g req.uri
unfolding forward_one exchange
logged_path g req w = ground arith

forward_one-logged :
    (g : Gates) (req : HttpRequest) (w : Local)
    → (((g.mcp_secret == []) ≡ true) × ((forward_one g req w).logged ≡ req.uri))
      ⊎ (((g.mcp_secret == []) ≡ false) × IsRedacted req.uri (forward_one g req w).logged)
unfolding log_path
forward_one-logged g req w = elim (Bool-cases (g.mcp_secret == [])) [
  | inl n ↦ inl (n, rw (logged_path g req w, n) refl)
  | inr n ↦ inr (n, rw (logged_path g req w, n) (mcp_redact_path-IsRedacted req.uri))
]

sent_allowed :
    (g : Gates) (req : HttpRequest) (w : Local) (s : Option Bytes)
    → (forward_one g req w).sent ≡ s
    → SentAllowed g req s
sent_allowed g req w none e = tt
sent_allowed g req w (some p) e =
    let (through, fine) = forward_one-sent g req w e in
    record {
      credentials = unfold basic_auth_ok in ground arith;
      token = past_gate-IsThrough g req.path through;
    }

All-cut {ℓ κ} :
    {A : Type ℓ} (P : A → Type κ) (x : A) (xs : List A) (more : Bool)
    → P x
    → All P xs
    → All P (if more then x ∷ xs else x ∷ [])
All-cut P x xs true p ps = (p, ps)
All-cut P x xs false p ps = (p, tt)

-- Of all requests of a stream the local server sees only those that carry the credentials of the
-- basic authentication and the token, where the client asks for these; it sees the path after the
-- token, if that is to be left out. Without a token the log shows the address of each request; with
-- one it shows a placeholder in place of the first segment of the address, which is where the token
-- stands, and of an address that does not start with a slash the placeholder only.
pub proxy_to_local-IsServed :
    (g : Gates) (stream : List (HttpRequest × Local)) → All (IsServed g) (proxy_to_local g stream)
unfolding proxy_to_local
proxy_to_local-IsServed g [] = tt
proxy_to_local-IsServed g ((req, w) ∷ more) =
    let served : IsServed g (req, forward_one g req w) = record {
      sent = sent_allowed g req w (forward_one g req w).sent refl;
      logged = forward_one-logged g req w;
    } in
    All-cut (IsServed g) (req, forward_one g req w) (proxy_to_local g more)
      (forward_one g req w).more served (proxy_to_local-IsServed g more)
