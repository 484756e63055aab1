-- ===== src/Tests/Manage.antt =====
-- Requests to the management host of a server whose one user is Ann.
use mygrok.Base.{
  ◌≡◌, ◌⊎◌, refl, true, false, [], ◌∷◌, ◌++◌, codes, ◌==◌, some, none, Bytes, if◌then◌else◌,
  to_lower, trim_space, has_prefix, cut, split,
}
use mygrok.Base.Error.{ok}
use mygrok.Base.Dict.{keys}
use mygrok.Base.Keys.{distinct}
use mygrok.Server.Disk.{working}
use mygrok.Server.Headers.{crlf, split_at, parse_request_line, read_cookie_from_headers}
use mygrok.Server.Passkeys.Store.{has_user}
use mygrok.Server.Admin.{
  GoLib, Flags, admin_auth_ok, valid, basic_password, first_header, read_admin_cookie,
  read_post_form,
}
use mygrok.Server.Manage.{Host, Request, Moment, cross_site}
use mygrok.Server.Manage.Ceremony.{Ceremony}
use mygrok.Server.Manage.Rules.{magic_key}
use mygrok.Server.Manage.People.{serve_admin_users_delete}
use mygrok.Server.Manage.Dispatch.{admin_page, ips, request_of, page_of, serve_admin}
use mygrok.Server.Manage.Guarded.{
  policy, stranger, refused, policy-serve_admin, serve_admin-refused,
}
use mygrok.Server.Manage.Removal.{IsRemoved, serve_admin_users_delete-IsRemoved}
use mygrok.Tests.Data.{two_ips, texts}
use mygrok.Tests.Passkeys.{store}
use mygrok.Tests.Registry.{held}

abbrev pub go : GoLib
go = record {
  parse_url = λ s. none;
  parse_query = λ q. some (λ k. if k == codes "user_id" then codes "u1" else []);
  decode_base64 = some;
  atoi = λ s. some 0;
}

abbrev pub flags : Flags
flags = record { auth_token = codes "secret"; public_host = codes "tun.io" }

abbrev pub office : Host two_ips texts
office = record {
  registry = held;
  acl = record {
    path = [];
    global = record { allowed = []; blocked = [] };
    tunnels = [];
    disk = none;
  };
  locks = record { path = []; allowed = (codes "blog", codes "u1" ∷ []) ∷ []; disk = none };
  passkeys = store;
  invites = record { path = []; by_token = []; disk = none };
  admin = [];
}

abbrev pub moment : Moment
moment = record {
  now = 9;
  io = λ n. working;
  random = λ n. codes "r1";
  random_id = some (codes "r2");
  clock_id = codes "9";
}

abbrev pub asked : Bytes
asked =
    codes "GET /admin/ips?x=1 HTTP/1.1" ++ (crlf ++ (codes "Host: tunnel.tun.io" ++ (crlf ++ crlf)))

-- A ceremony in which every credential is good.
abbrev pub trusting : Ceremony texts
trusting = record {
  begin_login = some (codes "s", codes "c");
  begin_registration = λ u. some (codes "s", codes "c");
  parses = λ raw left. true;
  finish_login =
      λ who sess raw left. elim (who (codes "k1") []) [ none ↦ none | some u ↦ some (codes "k1") ];
  read_body = λ raw left. ok (codes "phone", left);
  create_credential = λ u sess body. ok body;
  expires = λ s. 5;
}

strange : stranger go trusting flags office (request_of asked []) moment ≡ true
unfolding request_of parse_request_line cut admin_auth_ok valid basic_password first_header
    read_admin_cookie read_cookie_from_headers split_at split has_prefix to_lower trim_space
    magic_key ◌==◌
strange = refl

policy-serve_admin_example :
    policy (serve_admin go trusting flags office asked [] moment).0 ≡ policy office
policy-serve_admin_example = policy-serve_admin go trusting flags office asked [] moment strange

admin_ips : page_of (request_of asked []).path ≡ admin_page ips
unfolding request_of parse_request_line cut page_of has_prefix ◌==◌
admin_ips = refl

serve_admin-refused_example :
    (serve_admin go trusting flags office asked [] moment ≡ (office, cross_site))
    ⊎ (serve_admin go trusting flags office asked [] moment
        ≡ refused go trusting flags office (request_of asked []) moment)
serve_admin-refused_example =
    serve_admin-refused go trusting flags office asked [] moment admin_ips strange

-- The admin deletes Ann.
abbrev pub deletion : Request
deletion = record {
  method = codes "POST";
  path = codes "/admin/users/delete";
  raw_query = [];
  raw =
      codes "POST /admin/users/delete HTTP/1.1"
      ++ (crlf
          ++ (codes "Authorization: Basic admin:secret"
              ++ (crlf ++ (codes "Content-Length: 0" ++ (crlf ++ crlf)))));
  left = [];
}

pub by_admin : (admin_auth_ok go flags office.admin deletion.raw 9).1 ≡ true
unfolding admin_auth_ok valid basic_password first_header read_admin_cookie read_cookie_from_headers
    split_at cut split has_prefix to_lower trim_space ◌==◌
by_admin = refl

pub form_read :
    read_post_form go deletion.raw deletion.left
    ≡ ok (λ k. if k == codes "user_id" then codes "u1" else [])
unfolding read_post_form first_header split_at has_prefix to_lower
form_read = refl

pub names_ann : ((if codes "user_id" == codes "user_id" then codes "u1" else []) == []) ≡ false
unfolding ◌==◌
names_ann = refl

pub ann_known :
    has_user (if codes "user_id" == codes "user_id" then codes "u1" else []) store.users ≡ true
unfolding ◌==◌
ann_known = refl

once : distinct (keys office.locks.allowed) ≡ true
unfolding keys ◌==◌
once = refl

serve_admin_users_delete-IsRemoved_example :
    IsRemoved office
      (serve_admin_users_delete go flags office deletion moment).0
      (if codes "user_id" == codes "user_id" then codes "u1" else [])
serve_admin_users_delete-IsRemoved_example =
    serve_admin_users_delete-IsRemoved go flags office deletion moment by_admin form_read names_ann
      ann_known once
