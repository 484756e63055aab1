-- ===== src/Client/Session.antt =====
-- What the client makes of the server's answer in `runOnce` of cmd/mygrok/main.go. The dialling, the
-- yamux session and the printing are left out.
use mygrok.Base.{
  ℕ, Bool, true, not, ◌&&◌, List, [], ◌∷◌, ◌++◌, Option, none, some, Bytes, codes, ◌==◌, eqb,
  if◌then◌else◌, has_prefix, ◌≡◌, refl,
}
use mygrok.Base.Error.{Result, ok, err}
use mygrok.Server.Registry.{Tunnel}
use mygrok.Server.Handshake.Session.{Listeners, HelloResp, answer, all_urls, first_url}

-- `proto.HelloResp` as it is read.
pub record Answer : Type 0 where
  pub fine : Bool
  pub url : Bytes
  pub urls : List Bytes
  pub error : Bytes
  pub lan_hostname : Bytes
  pub lan_cert_pem : Bytes
  pub lan_key_pem : Bytes

pub data RunError : Type 0 where
  rejected : Bytes → RunError
  unexpected : ℕ → RunError

-- The tests of the answer; `buffered` counts the bytes that follow it.
unfoldable check_answer : Answer → ℕ → Result RunError Answer
check_answer a buffered =
    if not a.fine
    then err (rejected a.error)
    else if not (eqb buffered 0)
    then err (unexpected buffered)
    else ok a

-- Whether the listener for visitors of the own network is started.
unfoldable wants_lan : Answer → Bytes → Bool
wants_lan a lan_ip =
    not (a.lan_hostname == [])
    && (not (a.lan_cert_pem == []) && (not (a.lan_key_pem == []) && not (lan_ip == [])))

-- The URLs that are shown.
unfoldable forwarding : Answer → List Bytes
forwarding a = elim a.urls [ [] ↦ if not (a.url == []) then a.url ∷ [] else [] | u ∷ us ↦ u ∷ us ]

first_https : List Bytes → Option Bytes
first_https [] = none
first_https (u ∷ us) =
    let rest = first_https us in if has_prefix u (codes "https://") then some u else rest

-- The URL of an MCP connector.
unfoldable connector_url : List Bytes → Bytes → Bytes
unfolding first_https
connector_url urls path = elim (first_https urls) [
  | some u ↦ u ++ path
  | none ↦ elim urls [ [] ↦ path | u ∷ us ↦ u ++ path ]
]

-- The server's answer, once encoded and read again.
abbrev reading : HelloResp → Answer
reading resp = record {
  fine = true;
  url = resp.url;
  urls = resp.urls;
  error = [];
  lan_hostname = elim resp.lan as (λ _. Bytes) [ none ↦ [] | some (name, cert, key) ↦ name ];
  lan_cert_pem = elim resp.lan as (λ _. Bytes) [ none ↦ [] | some (name, cert, key) ↦ cert ];
  lan_key_pem = elim resp.lan as (λ _. Bytes) [ none ↦ [] | some (name, cert, key) ↦ key ];
}

forwarding_list :
    (url : Bytes) (urls : List Bytes) (lan : Option (Bytes × Bytes × Bytes))
    → url ≡ first_url urls
    → forwarding (reading (record { url = url; urls = urls; lan = lan })) ≡ urls
unfolding forwarding first_url ◌==◌
forwarding_list url [] lan e = rw e refl
forwarding_list url (u ∷ us) lan e = refl

-- The client shows exactly the URLs of the server's tunnel, the primary ones first.
forwarding-answer :
    (on : Listeners) (t : Tunnel) (given : Option (Bytes × Bytes))
    → forwarding (reading (answer on t given)) ≡ all_urls on t.subdomain t.hostnames
unfolding answer
forwarding-answer on t given =
    forwarding_list _ (all_urls on t.subdomain t.hostnames) (answer on t given).lan refl
