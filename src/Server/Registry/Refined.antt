-- ===== src/Server/Registry/Refined.antt =====
-- The table of cmd/mygrokd/main.go as its callers see it: the live tunnel of a subdomain, if any.
-- Custom hosts are not part of that view, since the tunnels that ask for them say it all.
use mygrok.Base.{
  ℕ, ◌≡◌, refl, sym, ◌∙◌, subst, ◌⊎◌, ◌↔◌, ◌≢◌, inl, inr, Bool, true, false, ◌&&◌, [], Option, none,
  some, Bytes, ◌==◌, eqb, if◌then◌else◌, member, arith, Option-cases, Bool-cases,
}
use mygrok.Base.Error.{ok}
use mygrok.Base.Dict.{lookup, lookup-erase}
use mygrok.Server.Registry.{
  Tunnel, Registry, new_registry, Claimed, claim, release, lookup_host, get,
}
use mygrok.Server.Registry.Invariant.{IsConsistent, release_absent, release_stale, release_own}
use mygrok.Server.Registry.Takeover.{claim_iff, get-claim}
use mygrok.Server.Registry.Reach.{Step, claims, releases, Reach, here, next, Reach-IsConsistent}

abbrev Table : Type 0
Table = Bytes → Option Tunnel

abbrev empty_table : Table
empty_table s = none

-- Whether the session holds the tunnel.
abbrev holds : Option Tunnel → ℕ → Bool
holds none sess = false
holds (some t) sess = eqb t.session sess

-- A live tunnel asks for the host.
abbrev pub Serves : Table → Bytes → Tunnel → Type 0
Serves live h t = (live t.subdomain ≡ some t) × (member h t.hostnames ≡ true)

-- No host that is asked for is served by another tunnel, and the subdomain is free or held by the
-- same client.
pub record MayClaim (live : Table) (t : Tunnel) : Type 0 where
  pub unclaimed :
      (h : Bytes) (other : Tunnel)
      → member h t.hostnames ≡ true
      → Serves live h other
      → other.subdomain ≡ t.subdomain
  pub available :
      (live t.subdomain ≡ none)
      ⊎ ((old : Tunnel) × (live t.subdomain ≡ some old)
          × (old.client_id ≡ t.client_id)
          × (t.client_id ≢ []))

abbrev pub put : Table → Tunnel → Table
put live t s = if t.subdomain == s then some t else live s

abbrev pub drop : Table → Bytes → ℕ → Table
drop live sub sess s = if (sub == s) && holds (live sub) sess then none else live s

-- The operations on that view.
pub data TableStep (live : Table) : Table → Type 0 where
  puts : (t : Tunnel) → MayClaim live t → TableStep live (put live t)
  drops : (sub : Bytes) (sess : ℕ) → TableStep live (drop live sub sess)

pub data TableReach : Table → Type 0 where
  empty : TableReach empty_table
  then_step : {live live' : Table} → TableReach live → TableStep live live' → TableReach live'

lookup_host-Serves :
    (r : Registry) (h : Bytes) (t : Tunnel)
    → IsConsistent r
    → (lookup_host r h ≡ some t) ↔ Serves (get r) h t
unfolding lookup_host get
lookup_host-Serves r h t v = (
  λ e. elim (Option-cases (lookup h r.custom_hosts)) [
    | inl p ↦ absurd (ground arith)
    | inr (s, p) ↦
        let (u, q, m) = v.owned h s p in
        let same : u ≡ t = ground arith in
        let n = v.named s u q in (ground (arith, n, same), ground (arith, same))
  ],
  λ k. ground (arith, k.0, v.routed t.subdomain t k.0 h k.1),
)

claim-MayClaim :
    (r : Registry) (t : Tunnel)
    → IsConsistent r
    → ((c : Claimed) × (claim r t ≡ ok c)) ↔ MayClaim (get r) t
claim-MayClaim r t v = (
  λ p.
      let (clear, free) = (claim_iff r t).0 p in
      record {
        unclaimed = λ h other m k.
            clear h other.subdomain m (unfold get in v.routed other.subdomain other k.0 h k.1);
        available = free;
      },
  λ may. (claim_iff r t).1 (
    λ h owner m l.
        let (u, p, q) = v.owned h owner l in
        let n = v.named owner u p in
        sym n ∙ may.unclaimed h u m (unfold get in ground (arith, n), q),
    may.available,
  ),
)

get-release :
    (r : Registry) (sub : Bytes) (sess : ℕ) (s : Bytes)
    → get (release r sub sess) s ≡ drop (get r) sub sess s
get-release r sub sess s = elim (Option-cases (lookup sub r.tunnels)) [
  | inl absent ↦ rw (release_absent r sub sess absent) (unfold get in ground arith)
  | inr (old, live) ↦ elim (Bool-cases (eqb old.session sess)) [
    | inl own ↦
        rw (release_own r sub sess live own)
          (unfold get in ground (arith, lookup-erase sub s r.tunnels))
    | inr other ↦ rw (release_stale r sub sess live other) (unfold get in ground arith)
  ]
]

Step-TableStep : {r s : Registry} → Step r s → IsConsistent r → TableStep (get r) (get s)
Step-TableStep {r} (claims t c e) v =
    let same : put (get r) t ≡ get c.registry = λ i s. sym (get-claim r t s e) i in
    subst (TableStep (get r)) same (puts t ((claim-MayClaim r t v).0 (c, e)))
Step-TableStep {r} (releases sub sess) v =
    let same : drop (get r) sub sess ≡ get (release r sub sess) =
      λ i s. sym (get-release r sub sess s) i in
    subst (TableStep (get r)) same (drops sub sess)

get-new_registry : (s : Bytes) → get new_registry s ≡ none
unfolding get new_registry lookup
get-new_registry s = refl

Reach-TableReach : {r : Registry} → Reach new_registry r → TableReach (get r)
Reach-TableReach here =
    let same : empty_table ≡ get new_registry = λ i s. sym (get-new_registry s) i in
    subst TableReach same empty
Reach-TableReach (next path step) =
    then_step (Reach-TableReach path) (Step-TableStep step (Reach-IsConsistent path))

-- The registry does what its view from outside says.
pub record IsRefined (r : Registry) : Type 0 where
  pub reached : TableReach (get r)
  pub claimed : (t : Tunnel) → ((c : Claimed) × (claim r t ≡ ok c)) ↔ MayClaim (get r) t
  pub put_in :
      (t : Tunnel) (c : Claimed) (s : Bytes) → claim r t ≡ ok c → get c.registry s ≡ put (get r) t s
  pub dropped :
      (sub : Bytes) (sess : ℕ) (s : Bytes) → get (release r sub sess) s ≡ drop (get r) sub sess s
  pub served : (h : Bytes) (t : Tunnel) → (lookup_host r h ≡ some t) ↔ Serves (get r) h t

-- After any claims and releases from the start, the registry implements one map of subdomains to
-- live tunnels, without custom hosts. The map is reached from the empty one by the operations on
-- it: a claim succeeds exactly when no other subdomain's live tunnel asks for one of its hosts and
-- its subdomain is free or held by the same non-empty client id, and then puts the tunnel at its
-- subdomain; a release empties its subdomain if the session holds it, and changes nothing else;
-- and a custom host leads to a tunnel exactly when that tunnel is live and asks for it.
pub Reach-IsRefined : {r : Registry} → Reach new_registry r → IsRefined r
Reach-IsRefined {r} path = record {
  reached = Reach-TableReach path;
  claimed = λ t. claim-MayClaim r t (Reach-IsConsistent path);
  put_in = λ t c s e. get-claim r t s e;
  dropped = get-release r;
  served = λ h t. lookup_host-Serves r h t (Reach-IsConsistent path);
}
