-- ===== src/Server/Manage/Dispatch.antt =====
-- The management host as a whole, `serveAdmin` of cmd/mygrokd/admin.go: the request line, the test
-- for cross-site requests and the choice of the handler.
use mygrok.Base.{
  Bool, not, all, eqb, leb, ◌&&◌, ◌||◌, none, some, [], Bytes, codes, ◌==◌, if◌then◌else◌, drop,
  has_prefix, cut,
}
use mygrok.Server.Acl.{Net}
use mygrok.Server.Headers.{parse_request_line}
use mygrok.Server.Passkeys.{WebAuthn}
use mygrok.Server.Admin.{GoLib, Flags, same_origin_post}
use mygrok.Server.Manage.{
  Host, Request, Moment, Reply, cross_site, landing, installer, icon, binary, redirect, not_found,
}
use mygrok.Server.Manage.Ceremony.{Ceremony}
use mygrok.Server.Manage.Rules.{serve_admin_ips, serve_admin_tunnel_ips}
use mygrok.Server.Manage.People.{
  serve_admin_locks, serve_admin_grants, serve_admin_users_delete, serve_admin_users,
  serve_admin_passkey_delete, serve_admin_invites, serve_admin_invites_create,
}
use mygrok.Server.Manage.Login.{serve_auth, serve_auth_begin, serve_auth_finish, serve_auth_logout}
use mygrok.Server.Manage.Account.{
  serve_account, serve_account_register_begin, serve_account_register_finish, serve_admin_passkeys,
  serve_admin_passkey_begin, serve_admin_passkey_finish, serve_account_credential_delete,
}
use mygrok.Server.Manage.Redeem.{serve_invite}

-- The parts of a request.
unfoldable pub request_of : Bytes → Bytes → Request
request_of raw left =
    let (method, uri) = parse_request_line raw in
    elim (cut b'?' uri) [
      | none ↦ record { method = method; path = uri; raw_query = []; raw = raw; left = left }
      | some (path, query) ↦ record {
        method = method;
        path = path;
        raw_query = query;
        raw = raw;
        left = left;
      }
    ]

-- The pages that need an admin.
pub data AdminPage : Type 0 where
  ips passkeys passkeys_begin passkeys_finish passkeys_delete users users_delete : AdminPage
  invites invites_create locks grants : AdminPage
  tunnel_ips : Bytes → AdminPage

-- The other pages.
pub data Page : Type 0 where
  install favicon admin_home invite home : Page
  auth auth_begin auth_finish auth_logout : Page
  account register_begin register_finish credentials_delete : Page
  download : Bytes → Page
  admin_page : AdminPage → Page

-- The names of client binaries. The binaries are built into the server.
unfoldable pub valid_binary_name : Bytes → Bool
valid_binary_name name =
    has_prefix name (codes "mygrok-")
    && all (λ c. (leb b'a' c && leb c b'z') || ((leb b'0' c && leb c b'9') || eqb c b'-')) name

-- The cases of the switch below "/auth" and "/account", the last ones.
unfoldable pub visitor_page : Bytes → Page
visitor_page path =
    if path == codes "/auth"
    then auth
    else if path == codes "/auth/begin"
    then auth_begin
    else if path == codes "/auth/finish"
    then auth_finish
    else if path == codes "/auth/logout"
    then auth_logout
    else if path == codes "/account"
    then account
    else if path == codes "/account/register/begin"
    then register_begin
    else if path == codes "/account/register/finish"
    then register_finish
    else if path == codes "/account/credentials/delete"
    then credentials_delete
    else home

-- The cases from "/admin/passkeys" to "/invite/".
unfoldable pub people_page : Bytes → Page
people_page path =
    if path == codes "/admin/passkeys"
    then admin_page passkeys
    else if path == codes "/admin/passkeys/begin"
    then admin_page passkeys_begin
    else if path == codes "/admin/passkeys/finish"
    then admin_page passkeys_finish
    else if path == codes "/admin/passkeys/delete"
    then admin_page passkeys_delete
    else if path == codes "/admin/users"
    then admin_page users
    else if path == codes "/admin/users/delete"
    then admin_page users_delete
    else if path == codes "/admin/invites"
    then admin_page invites
    else if path == codes "/admin/invites/create"
    then admin_page invites_create
    else if path == codes "/admin/locks"
    then admin_page locks
    else if path == codes "/admin/grants"
    then admin_page grants
    else if has_prefix path (codes "/invite/")
    then invite
    else visitor_page path

-- The switch over the path.
unfoldable pub page_of : Bytes → Page
page_of path =
    if path == codes "/install"
    then install
    else if (path == codes "/favicon.ico") || (path == codes "/favicon.svg")
    then favicon
    else if has_prefix path (codes "/dl/")
    then download (drop 4 path)
    else if (path == codes "/admin") || (path == codes "/admin/")
    then admin_home
    else if path == codes "/admin/ips"
    then admin_page ips
    else if has_prefix path (codes "/admin/ips/")
    then admin_page (tunnel_ips (drop 11 path))
    else people_page path

module _ {N : Net} {W : WebAuthn} (G : GoLib) (C : Ceremony W) (cfg : Flags) where
  unfoldable pub serve_admin_page : AdminPage → Host N W → Request → Moment → Host N W × Reply
  serve_admin_page ips h req t = serve_admin_ips G cfg h req t
  serve_admin_page (tunnel_ips sub) h req t = serve_admin_tunnel_ips G cfg h sub req t
  serve_admin_page passkeys h req t = serve_admin_passkeys G cfg h req t
  serve_admin_page passkeys_begin h req t = serve_admin_passkey_begin C G cfg h req t
  serve_admin_page passkeys_finish h req t = serve_admin_passkey_finish C G cfg h req t
  serve_admin_page passkeys_delete h req t = serve_admin_passkey_delete G cfg h req t
  serve_admin_page users h req t = serve_admin_users G cfg h req t
  serve_admin_page users_delete h req t = serve_admin_users_delete G cfg h req t
  serve_admin_page invites h req t = serve_admin_invites G cfg h req t
  serve_admin_page invites_create h req t = serve_admin_invites_create G cfg h req t
  serve_admin_page locks h req t = serve_admin_locks G cfg h req t
  serve_admin_page grants h req t = serve_admin_grants G cfg h req t

  unfoldable pub serve_page : Page → Host N W → Request → Moment → Host N W × Reply
  serve_page install h req t = (h, installer)
  serve_page favicon h req t = (h, icon)
  serve_page (download name) h req t =
      (h, if valid_binary_name name then binary name else not_found)
  serve_page admin_home h req t = (h, redirect (codes "/admin/ips"))
  serve_page (admin_page p) h req t = serve_admin_page p h req t
  serve_page invite h req t = serve_invite C h req t
  serve_page auth h req t = serve_auth h
  serve_page auth_begin h req t = serve_auth_begin G C cfg h req t
  serve_page auth_finish h req t = serve_auth_finish G C cfg h req t
  serve_page auth_logout h req t = serve_auth_logout h req
  serve_page account h req t = serve_account h req t
  serve_page register_begin h req t = serve_account_register_begin C h req t
  serve_page register_finish h req t = serve_account_register_finish C h req t
  serve_page credentials_delete h req t = serve_account_credential_delete G h req t
  serve_page home h req t = (h, landing)

  unfoldable pub serve_admin : Host N W → Bytes → Bytes → Moment → Host N W × Reply
  serve_admin h raw left t =
      let req = request_of raw left in
      let served = serve_page (page_of req.path) h req t in
      if (req.method == codes "POST") && not (same_origin_post G raw cfg.public_host)
      then (h, cross_site)
      else served
