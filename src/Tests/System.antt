-- ===== src/Tests/System.antt =====
-- A server that starts with no files, and one that goes on after Ann has been deleted.
use mygrok.Base.{
  ◌≡◌, refl, true, false, [], ◌∷◌, none, some, Bytes, codes, ◌==◌, ◌||◌, if◌then◌else◌, to_lower,
  trim_space, has_prefix, has_suffix, arith, subst, eq→path, Bool-cases, inl, inr,
}
use mygrok.Base.Error.{ok}
use mygrok.Base.Dict.{lookup}
use mygrok.Base.Dots.{trim_dots}
use mygrok.Base.Pieces.{lacks}
use mygrok.Server.Disk.{working}
use mygrok.Server.Names.{subdomain_of, strip_port, before_last}
use mygrok.Server.Registry.{new_registry}
use mygrok.Server.Registry.Reach.{Reach-IsConsistent}
use mygrok.Server.Acl.{no_rules}
use mygrok.Server.Acl.Load.{load}
use mygrok.Server.Locks.{new_tunnel_locks}
use mygrok.Server.Passkeys.Store.{new_passkey_store}
use mygrok.Server.Invites.{new_invite_store}
use mygrok.Server.Manage.{Host}
use mygrok.Server.Manage.People.{serve_admin_users_delete}
use mygrok.Server.Public.{locate}
use mygrok.Server.System.Gone.{Other}
use mygrok.Server.System.Connections.{Run, idle, acts, manages, visits, connects, disconnects}
use mygrok.Server.System.Kept.{IsKept}
use mygrok.Server.System.Deleted.{unawaited, IsDeleted, serve_admin_users_delete-IsDeleted}
use mygrok.Server.Startup.{
  Options, Machine, Started, open_rules, open_others, open_https, build_dns_provider, lan_host,
  public_host_of, start_checked, start, may_issue,
}
use mygrok.Server.Startup.Ready.{IsReady, start-IsReady}
use mygrok.Server.Startup.Running.{start-Run-IsKept}
use mygrok.Server.Startup.Certificates.{is_own, present, may_issue-locate}
use mygrok.Tests.Data.{two_ips, two_ips-NetLaws, texts}
use mygrok.Tests.Registry.{held, held-Reach}
use mygrok.Tests.Handshake as Entering
use mygrok.Tests.Public as Visiting
use mygrok.Tests.Manage.{
  go, flags, office, moment, trusting, asked, deletion, by_admin, form_read, names_ann, ann_known,
}

abbrev ann : Bytes
ann = if codes "user_id" == codes "user_id" then codes "u1" else []

plain_id : lacks b'|' ann ≡ true
unfolding ◌==◌
plain_id = refl

no_wait : unawaited ann office.passkeys ≡ true
no_wait = refl

another_id : (moment.random 1 == ann) ≡ false
unfolding ◌==◌
another_id = refl

abbrev emptied : Host two_ips texts
emptied = (serve_admin_users_delete go flags office deletion moment).0

-- A request to the management host, a public request with the cookie of Ann's session, and the end of
-- the blog's tunnel.
later : (h : Host two_ips texts) → (k : Host two_ips texts) × Run go trusting flags (Other ann) h k
later h = (
  _,
  acts
      (acts (acts idle (manages asked [] moment another_id))
        (visits Visiting.cfg Visiting.world Visiting.conn))
      (disconnects (codes "blog") 7),
)

serve_admin_users_delete-IsDeleted_example : IsDeleted ann (later emptied).0
serve_admin_users_delete-IsDeleted_example =
    serve_admin_users_delete-IsDeleted go trusting flags office deletion moment by_admin form_read
      names_ann plain_id ann_known no_wait (later emptied).1

abbrev options : Options
options = record {
  auth_token = [];
  public_host = codes " Tun.io.";
  http_addr = codes ":80";
  https_addr = codes ":443";
  dns_provider = codes "none";
  cert_domains = [];
  lan_enabled = false;
  ip_list_path = codes "i";
  passkeys_path = codes "p";
  tunnel_locks_path = codes "l";
  invites_path = codes "v";
}

abbrev machine : Machine texts
machine = record {
  getenv = λ k. if k == codes "MYGROK_AUTHTOKEN" then codes "secret" else [];
  now = 1;
  io = working;
  readable = λ p. true;
  acl_file = none;
  passkey_file = none;
  locks_file = none;
  invites_file = none;
  builds_web_authn = λ h. true;
  makes_cert_dir = true;
}

abbrev started : Started two_ips texts
started = record {
  host = record {
    registry = new_registry;
    acl = record { path = codes "i"; global = no_rules two_ips; tunnels = []; disk = none };
    locks = new_tunnel_locks (codes "l") none working;
    passkeys = new_passkey_store texts (codes "p") none 1 working;
    invites = new_invite_store (codes "v") none;
    admin = [];
  };
  auth_token = codes "secret";
  public_host = codes "tun.io";
  dns = none;
  lan = none;
  domains = some (codes "tunnel.tun.io" ∷ []);
}

starts : start options machine ≡ ok started
unfolding start start_checked open_rules load open_others open_https build_dns_provider lan_host
    public_host_of trim_dots to_lower trim_space ◌==◌ has_prefix
starts = refl

start-IsReady_example : IsReady options started
start-IsReady_example = start-IsReady options machine starts

-- The blog's client connects to the new server, and a visitor comes.
first_run : (k : Host two_ips texts) × Run go trusting flags (λ id. Unit) started.host k
first_run = (
  _,
  acts
      (acts idle
        (connects Entering.cfg Entering.hello Entering.wire Entering.outcome Entering.accepted))
      (visits Visiting.cfg Visiting.world Visiting.conn),
)

start-Run-IsKept_example : IsKept first_run.0
start-Run-IsKept_example =
    start-Run-IsKept options machine two_ips-NetLaws go trusting flags starts refl refl refl
      first_run.1

host_of_blog : subdomain_of (codes "blog.example.org") (codes "tun.io") ≡ []
unfolding subdomain_of strip_port before_last to_lower has_suffix ◌==◌
host_of_blog = refl

outside :
    (h s : Bytes)
    → lookup h held.custom_hosts ≡ some s
    → subdomain_of h Visiting.cfg.public_host ≡ []
unfolding lookup
outside h s e = elim (Bool-cases (codes "blog.example.org" == h)) [
  | inl p ↦
      subst (λ x. subdomain_of x (codes "tun.io") ≡ []) (eq→path (codes "blog.example.org") h p)
        host_of_blog
  | inr p ↦ absurd (ground arith)
]

may_issue-locate_example : may_issue (codes "tun.io") false held (codes "Blog.example.org") ≡ (
    is_own (codes "tun.io") (to_lower (codes "Blog.example.org"))
    || present
        (locate Visiting.cfg held
          (to_lower (codes "Blog.example.org"))
          (to_lower (codes "Blog.example.org"))).1)
may_issue-locate_example =
    may_issue-locate Visiting.cfg held (codes "Blog.example.org") (Reach-IsConsistent held-Reach)
      outside
