-- ===== src/Server/Handshake/Session.antt =====
-- The life of a tunnel after the claim: the rest of `handleTunnelConn` of cmd/mygrokd/main.go, from
-- the LAN record of the session that was replaced to the calls that are deferred to the end.
use mygrok.Base.{
  ℕ, Bool, false, not, ◌&&◌, ◌||◌, List, [], ◌∷◌, ◌++◌, Option, none, some, Bytes, codes, ◌==◌, eqb,
  if◌then◌else◌,
}
use mygrok.Server.Registry.{Tunnel, Registry, Claimed, get, release}
use mygrok.Server.Lan.{Provider, LanManager, upsert_a, delete_a}
use mygrok.Server.Handshake.{lan_name}

-- Which public listeners are on, and the public host.
pub record Listeners : Type 0 where
  pub https : Bool
  pub http : Bool
  pub public_host : Bytes

-- `proto.HelloResp`, where it is not an error; the LAN fields are the name, the certificate and its
-- key.
pub record HelloResp : Type 0 where
  pub url : Bytes
  pub urls : List Bytes
  pub lan : Option (Bytes × Bytes × Bytes)

-- The tunnels and the LAN manager, if there is one.
pub record Hub (P : Provider) : Type 1 where
  pub registry : Registry
  pub lan : Option (LanManager P)

-- The URLs of one host, and those of the custom hosts.
unfoldable pub urls_of : Listeners → Bytes → List Bytes
urls_of on host =
    (if on.https then (codes "https://" ++ host) ∷ [] else [])
    ++ (if on.http then (codes "http://" ++ host) ∷ [] else [])

unfoldable pub custom_urls : Listeners → List Bytes → List Bytes
custom_urls on [] = []
custom_urls on (h ∷ hs) = urls_of on h ++ custom_urls on hs

unfoldable pub all_urls : Listeners → Bytes → List Bytes → List Bytes
all_urls on sub hostnames = urls_of on (sub ++ b'.' ∷ on.public_host) ++ custom_urls on hostnames

unfoldable pub first_url : List Bytes → Bytes
first_url [] = []
first_url (u ∷ us) = u

-- The answer to the client.
unfoldable pub answer : Listeners → Tunnel → Option (Bytes × Bytes) → HelloResp
answer on t given =
    let urls = all_urls on t.subdomain t.hostnames in
    record {
      url = first_url urls;
      urls = urls;
      lan = elim given [ none ↦ none | some (cert, key) ↦ some (t.lan_hostname, cert, key) ];
    }

-- The LAN name that the handler holds at the end: none if it could not be offered.
unfoldable pub held_name : HelloResp → Bytes
held_name resp = elim resp.lan [ none ↦ [] | some (name, cert, key) ↦ name ]

-- Another session has taken the tunnel over.
unfoldable pub replaced : Registry → Bytes → ℕ → Bool
replaced r sub sess = elim (get r sub) [ none ↦ false | some cur ↦ not (eqb cur.session sess) ]

module _ {P : Provider} where
  -- The record of the session that was replaced goes, unless the new one writes the same.
  unfoldable pub drop_preempted : LanManager P → Option Tunnel → Tunnel → LanManager P
  drop_preempted lm none t = lm
  drop_preempted lm (some old) t =
      if not (old.lan_hostname == []) && ((t.lan_hostname == []) || not (old.lan_ip == t.lan_ip))
      then (delete_a P lm old.lan_hostname).0
      else lm

  -- The record of the new session and the certificate that goes to the client, `cert` being what is
  -- on disk. Without either, the record is dropped again.
  unfoldable pub publish :
      LanManager P → Option (Bytes × Bytes) → Tunnel → LanManager P × Option (Bytes × Bytes)
  publish lm cert t =
      let (up, e) = upsert_a P lm t.lan_hostname t.lan_ip in
      let down = (delete_a P up (lan_name lm.public_host t.subdomain)).0 in
      if t.lan_hostname == [] then (lm, none) else elim e [
        | some d ↦ (down, none)
        | none ↦ elim cert [ none ↦ (down, none) | some c ↦ (up, some c) ]
      ]

  unfoldable pub offer :
      Option (LanManager P)
      → Claimed
      → Option (Bytes × Bytes)
      → Tunnel
      → Option (LanManager P) × Option (Bytes × Bytes)
  offer none c cert t = (none, none)
  offer (some lm) c cert t =
      let (lm', given) = publish (drop_preempted lm c.preempted t) cert t in (some lm', given)

  unfoldable pub open_tunnel :
      Listeners → Hub P → Claimed → Option (Bytes × Bytes) → Tunnel → Hub P × HelloResp
  open_tunnel on hub c cert t =
      let (lan, given) = offer hub.lan c cert t in
      (record { registry = c.registry; lan = lan }, answer on t given)

  -- The deferred calls, in the order in which they run.
  unfoldable pub close_tunnel : Hub P → Bytes → ℕ → Bytes → Hub P
  close_tunnel hub sub sess name =
      let drop = not (name == []) && not (replaced hub.registry sub sess) in
      record {
        registry = release hub.registry sub sess;
        lan = elim hub.lan [
          | none ↦ none
          | some lm ↦ some (if drop then (delete_a P lm name).0 else lm)
        ];
      }
