-- ===== src/Server/Registry/Reach.antt =====
-- Sequences of `claim` and `release` from the start of the server.
use mygrok.Base.{ℕ, ◌≡◌, Bytes}
use mygrok.Base.Error.{ok}
use mygrok.Server.Registry.{Tunnel, Registry, new_registry, Claimed, claim, release}
use mygrok.Server.Registry.Invariant.{
  IsConsistent, new_registry-IsConsistent, claim-IsConsistent, release-IsConsistent,
}

-- The calls on the registry, in any order and by any goroutine.
pub data Step (r : Registry) : Registry → Type 0 where
  claims : (t : Tunnel) (c : Claimed) → claim r t ≡ ok c → Step r c.registry
  releases : (sub : Bytes) (sess : ℕ) → Step r (release r sub sess)

pub data Reach (r : Registry) : Registry → Type 0 where
  here : Reach r r
  next : {s u : Registry} → Reach r s → Step s u → Reach r u

pub Step-IsConsistent : {r s : Registry} → Step r s → IsConsistent r → IsConsistent s
Step-IsConsistent {r} (claims t c e) v = claim-IsConsistent r t v e
Step-IsConsistent {r} (releases sub sess) v = release-IsConsistent r sub sess v

-- Whatever claims and releases the server has made since its start, the two maps agree: a custom
-- host leads to a live tunnel that asked for it, and every host that a live tunnel asked for leads
-- to it.
pub Reach-IsConsistent : {r : Registry} → Reach new_registry r → IsConsistent r
Reach-IsConsistent here = new_registry-IsConsistent
Reach-IsConsistent (next path step) = Step-IsConsistent step (Reach-IsConsistent path)
