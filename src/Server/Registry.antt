-- ===== src/Server/Registry.antt =====
-- The table of live tunnels of cmd/mygrokd/main.go: `tunnel`, `registry`, `claim`, `release`,
-- `lookup`, `hostKnown`, `get` and `activeSubdomains`. Each method holds the mutex throughout, so
-- it is one function of the table. A yamux session is a number, compared as the pointer is, and
-- time is an argument.
pub mod Invariant
pub mod Reach
pub mod Takeover
pub mod Routes
pub mod Refined
pub mod Freed
use mygrok.Base.{
  ℕ, Bool, true, false, ◌&&◌, ◌||◌, not, List, [], ◌∷◌, Option, none, some, Bytes, ◌==◌, eqb,
  if◌then◌else◌,
}
use mygrok.Base.Error.{Result, ok, err}
use mygrok.Base.Dict.{Dict, lookup, insert, erase, keys, insert_all, erase_all}
use mygrok.Base.Sort.{sort}

pub record Tunnel : Type 0 where
  pub subdomain : Bytes
  pub session : ℕ
  pub client_id : Bytes
  pub hostnames : List Bytes
  pub created : ℕ
  pub public_ip : Bytes
  pub lan_ip : Bytes
  pub lan_hostname : Bytes

pub record Registry : Type 0 where
  pub tunnels : Dict Tunnel
  pub custom_hosts : Dict Bytes

unfoldable pub new_registry : Registry
new_registry = record { tunnels = []; custom_hosts = [] }

pub data ClaimError : Type 0 where
  hostname_in_use : Bytes → ClaimError
  subdomain_in_use : ClaimError

-- What a successful claim returns, with the session that it closes.
pub record Claimed : Type 0 where
  pub registry : Registry
  pub preempted : Option Tunnel
  pub closing : Option ℕ

-- The first requested name that another subdomain owns.
unfoldable pub find_conflict : Bytes → Dict Bytes → List Bytes → Option Bytes
find_conflict sub owners [] = none
find_conflict sub owners (h ∷ hs) =
    let rest = find_conflict sub owners hs in
    elim (lookup h owners) [ none ↦ rest | some owner ↦ if owner == sub then rest else some h ]

-- The writes of a claim over the custom hosts that the earlier tunnel left.
unfoldable pub install : Registry → Tunnel → Dict Bytes → Option Tunnel → Claimed
install r t owners old = record {
  registry = record {
    tunnels = insert t.subdomain t r.tunnels;
    custom_hosts = insert_all t.hostnames t.subdomain owners;
  };
  preempted = old;
  closing = elim old [ none ↦ none | some o ↦ some o.session ];
}

-- The claim of tunnel `t`, whose fields are the arguments and the time of the call.
unfoldable pub claim : Registry → Tunnel → Result ClaimError Claimed
unfolding find_conflict install
claim r t = elim (find_conflict t.subdomain r.custom_hosts t.hostnames) [
  | some h ↦ err (hostname_in_use h)
  | none ↦ elim (lookup t.subdomain r.tunnels) [
    | none ↦ ok (install r t r.custom_hosts none)
    | some old ↦
        if (t.client_id == []) || not (old.client_id == t.client_id)
        then err subdomain_in_use
        else ok (install r t (erase_all old.hostnames r.custom_hosts) (some old))
  ]
]

unfoldable pub release : Registry → Bytes → ℕ → Registry
release r sub sess = elim (lookup sub r.tunnels) [
  | none ↦ r
  | some t ↦
      if eqb t.session sess
      then record {
        tunnels = erase sub r.tunnels;
        custom_hosts = erase_all t.hostnames r.custom_hosts;
      }
      else r
]

-- `lookup` of the source; `none` is a nil tunnel.
unfoldable pub lookup_host : Registry → Bytes → Option Tunnel
lookup_host r host = elim (lookup host r.custom_hosts) [
  | none ↦ none
  | some sub ↦ lookup sub r.tunnels
]

unfoldable pub host_known : Registry → Bytes → Bool
host_known r host = elim (lookup host r.custom_hosts) [ none ↦ false | some sub ↦ true ]

unfoldable pub get : Registry → Bytes → Option Tunnel
get r sub = lookup sub r.tunnels

unfoldable pub active_subdomains : Registry → List Bytes
active_subdomains r = sort (keys r.tunnels)
