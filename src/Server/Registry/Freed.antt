-- ===== src/Server/Registry/Freed.antt =====
-- What the end of a session leaves to others in the table of cmd/mygrokd/main.go.
use mygrok.Base.{◌≡◌, ◌∙◌, inl, true, some, Bytes, eq_refl, member, arith}
use mygrok.Base.Error.{ok}
use mygrok.Server.Registry.{Tunnel, Registry, new_registry, Claimed, claim, release, get}
use mygrok.Server.Registry.Reach.{Reach, next, releases}
use mygrok.Server.Registry.Refined.{Serves, Reach-IsRefined}

-- Whatever has happened since the start, once the session that holds a subdomain has ended with its
-- release, every client can claim that subdomain, with any client id, or none, if none of the hosts
-- that it asks for is asked for by a live tunnel of another subdomain.
pub claim-release_free :
    {r : Registry} (t : Tunnel) {old : Tunnel}
    → Reach new_registry r
    → get r t.subdomain ≡ some old
    → ((h : Bytes) (other : Tunnel)
        → member h t.hostnames ≡ true
        → Serves (get r) h other
        → other.subdomain ≡ t.subdomain)
    → (c : Claimed) × (claim (release r t.subdomain old.session) t ≡ ok c)
claim-release_free {r} t {old} path live apart =
    let before = Reach-IsRefined path in
    let after = Reach-IsRefined (next path (releases t.subdomain old.session)) in
    (after.claimed t).1 (record {
      unclaimed = λ h other m k.
          let kept = before.dropped t.subdomain old.session other.subdomain in
          apart h other m (ground (arith, kept, k.0), k.1);
      available = inl (
          before.dropped t.subdomain old.session t.subdomain
          ∙ rw (live, eq_refl t.subdomain) (ground arith));
    })
