-- ===== src/Tests/Registry.antt =====
-- The table of tunnels.
use mygrok.Base.{
  arith, ◌≡◌, refl, ◌≢◌, [], ◌∷◌, codes, ◌==◌, ◌↔◌, none, some, if◌then◌else◌, member,
}
use mygrok.Base.Error.{ok}
use mygrok.Base.Dict.{lookup, insert, erase, insert_all, erase_all}
use mygrok.Server.Registry.{
  Tunnel, Registry, Claimed, new_registry, claim, release, get, lookup_host, find_conflict, install,
}
use mygrok.Server.Registry.Invariant.{IsConsistent}
use mygrok.Server.Registry.Reach.{claims, Reach, here, next, Reach-IsConsistent}
use mygrok.Server.Registry.Takeover.{Unowned, Available, claim_iff, release-claim_stale}
use mygrok.Server.Registry.Routes.{without, lookup_host-claim}
use mygrok.Server.Registry.Refined.{IsRefined, Reach-IsRefined}
use mygrok.Server.Registry.Freed.{claim-release_free}
use mygrok.Tests.Data.{blog_tunnel}

-- The table with one tunnel, and the same client when it comes back without its custom host.
abbrev pub held : Registry
held = record {
  tunnels = (codes "blog", blog_tunnel) ∷ [];
  custom_hosts = (codes "blog.example.org", codes "blog") ∷ [];
}

abbrev back : Tunnel
back = record blog_tunnel { session = 8; hostnames = [] }

abbrev first : Claimed
first = record { registry = held; preempted = none; closing = none }

abbrev second : Claimed
second = record {
  registry = record { tunnels = (codes "blog", back) ∷ []; custom_hosts = [] };
  preempted = some blog_tunnel;
  closing = some 7;
}

first-claim : claim new_registry blog_tunnel ≡ ok first
unfolding claim new_registry find_conflict install lookup insert insert_all
first-claim = refl

second-claim : claim held back ≡ ok second
unfolding claim find_conflict install lookup insert insert_all erase erase_all ◌==◌
second-claim = refl

pub held-Reach : Reach new_registry held
held-Reach = next here (claims blog_tunnel first first-claim)

Reach-IsConsistent_example : IsConsistent held
Reach-IsConsistent_example = Reach-IsConsistent held-Reach

claim_iff_example :
    ((c : Claimed) × (claim held back ≡ ok c)) ↔ (Unowned held back × Available held back)
claim_iff_example = claim_iff held back

other : back.session ≢ 7
other e = cc

release-claim_stale_example : release second.registry (codes "blog") 7 ≡ second.registry
release-claim_stale_example = release-claim_stale held back 7 second-claim other

lookup_host-claim_example : lookup_host second.registry (codes "blog.example.org") ≡ (
    if member (codes "blog.example.org") back.hostnames
    then some back
    else without back.subdomain (lookup_host held (codes "blog.example.org")))
lookup_host-claim_example =
    lookup_host-claim held back (codes "blog.example.org") (Reach-IsConsistent held-Reach)
      second-claim

live : get held (codes "blog") ≡ some blog_tunnel
unfolding get lookup ◌==◌
live = refl

Reach-IsRefined_example : IsRefined held
Reach-IsRefined_example = Reach-IsRefined held-Reach

-- Another client, after the first one has gone.
abbrev newcomer : Tunnel
newcomer = record blog_tunnel { session = 9; client_id = codes "new"; hostnames = [] }

claim-release_free_example : (c : Claimed) × (claim (release held (codes "blog") 7) newcomer ≡ ok c)
claim-release_free_example =
    claim-release_free newcomer held-Reach live (λ h tenant m k. absurd (ground arith))
