-- ===== src/Tests/Command.antt =====
-- `mygrok admin block blog 8.8.8.8 --note=spam`, from the arguments to the rules of the server.
use mygrok.Base.{
  ◌≡◌, refl, false, List, [], ◌∷◌, ◌++◌, some, none, Bytes, codes, ◌==◌, to_lower, trim_space,
  has_prefix, cut, split,
}
use mygrok.Base.Error.{ok}
use mygrok.Base.Dict.{insert}
use mygrok.Server.Headers.{crlf, split_at, parse_request_line, read_cookie_from_headers}
use mygrok.Server.Admin.{
  GoLib, admin_auth_ok, valid, basic_password, first_header, read_admin_cookie, read_post_form,
  same_origin_post,
}
use mygrok.Server.Manage.Dispatch.{request_of}
use mygrok.Client.Args.{split_args}
use mygrok.Client.Config.{require_server}
use mygrok.Client.Names.{looks_like_subdomain, name_bytes, is_path_byte}
use mygrok.Client.Admin.{Cli, Post, value_of, mutate, command_of, cmd_admin}
use mygrok.Client.Admin.Commands.{cmd_admin_mutate, rules_path, rules_form, new_admin_client}
use mygrok.Client.Admin.Applied.{IsDelivered, IsApplied, cmd_admin_mutate-IsApplied}
use mygrok.Tests.Manage.{flags, office, moment, trusting}

abbrev cli : Cli
cli = record {
  parse_flags = λ fs. some (record {
    server = codes "tunnel.tun.io:8443";
    auth = codes "secret";
    note = codes "spam";
    json = false;
  });
  host_of = λ s. codes "tunnel.tun.io";
  equal_fold = λ s t. s == t;
}

abbrev arguments : List Bytes
arguments = codes "blog" ∷ codes "8.8.8.8" ∷ codes "--note=spam" ∷ []

abbrev blocking : Post
blocking = record {
  client = record { base_url = codes "https://tunnel.tun.io"; auth = codes "secret" };
  path = codes "/admin/ips/blog";
  form =
      (codes "list", codes "block")
      ∷ (codes "op", codes "add")
      ∷ (codes "value", codes "8.8.8.8")
      ∷ (codes "note", codes "spam")
      ∷ [];
}

abbrev go : GoLib
go = record {
  parse_url = λ s. none;
  parse_query = λ q. some (value_of blocking.form);
  decode_base64 = some;
  atoi = λ s. some 0;
}

abbrev sent : Bytes
sent =
    codes "POST /admin/ips/blog HTTP/1.1"
    ++ (crlf
        ++ (codes "Authorization: Basic admin:secret"
            ++ (crlf ++ (codes "Content-Length: 0" ++ (crlf ++ crlf)))))

chosen : cmd_admin (codes "block" ∷ arguments) ≡ (mutate (codes "block") (codes "add"), arguments)
unfolding cmd_admin command_of has_prefix ◌==◌
chosen = refl

posted : cmd_admin_mutate cli (codes "block") (codes "add") arguments ≡ ok blocking
unfolding cmd_admin_mutate rules_path rules_form new_admin_client split_args has_prefix insert
    require_server trim_space looks_like_subdomain name_bytes is_path_byte ◌==◌
posted = refl

delivered : IsDelivered go trusting flags office sent [] moment blocking
unfolding request_of parse_request_line cut admin_auth_ok valid basic_password first_header
    read_admin_cookie read_cookie_from_headers split_at split has_prefix to_lower trim_space
    same_origin_post read_post_form ◌==◌
delivered = record {
  posted = refl;
  at_path = refl;
  no_query = refl;
  same_site = refl;
  form = value_of blocking.form;
  body = refl;
  fields = λ k. refl;
  by_admin = refl;
}

cmd_admin_mutate-IsApplied_example :
    IsApplied go trusting flags cli (codes "block") arguments office sent [] moment
cmd_admin_mutate-IsApplied_example =
    cmd_admin_mutate-IsApplied go trusting flags cli (codes "block") arguments office sent [] moment
      chosen posted delivered
