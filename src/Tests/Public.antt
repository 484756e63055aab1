-- ===== src/Tests/Public.antt =====
-- A public request to the blog, with Ann's login session.
use mygrok.Base.{
  ◌≡◌, refl, List, All, some, ◌++◌, true, [], ◌∷◌, codes, ◌==◌, none, Bytes, cut, split, join,
  has_prefix, has_suffix, contains, to_lower, trim_space,
}
use mygrok.Base.Error.{ok}
use mygrok.Base.Dict.{lookup}
use mygrok.Server.Names.{strip_port, before_last, subdomain_of, is_management_host}
use mygrok.Server.Registry.{get}
use mygrok.Server.Acl.{check, global_verdict}
use mygrok.Server.Locks.{is_locked, allows_user}
use mygrok.Server.Passkeys.Store.{has_credentials}
use mygrok.Server.Passkeys.Sessions.{session_user}
use mygrok.Server.Headers.{
  crlf, own_lines, Headers, before, split_at, read_loop, host_line, read_headers_and_host,
  cookie_key, kept_pairs, strip_mygrok_cookies, is_client_ip_line, is_cookie_line, kept_lines,
  inject_with, inject_client_ip, read_cookie_from_headers, read_pk_session_from_cookies,
}
use mygrok.Server.Headers.Kept.{IsSafe, inject_client_ip-IsSafe}
use mygrok.Server.Headers.Reading.{read_headers_and_host-append}
use mygrok.Server.Public.{
  Config, Conn, World, Site, forwarded, locate, lan_redirect, passkey_gate, deliver, guarded, route,
  handle_public_conn,
}
use mygrok.Server.Public.Admitted.{IsAdmitted, handle_public_conn-IsAdmitted}
use mygrok.Tests.Data.{two_ips, texts}
use mygrok.Tests.Registry.{held}
use mygrok.Tests.Passkeys.{store}

abbrev pub cfg : Config
cfg = record { public_host = codes "tun.io"; https_addr = [] }

abbrev pub world : World
world = record { now = 9; query_escape = λ s. s; opens = λ n. true; writes = λ n. true }

abbrev request : Bytes
request =
    codes "GET / HTTP/1.1"
    ++ (crlf
        ++ (codes "Host: blog.tun.io"
            ++ (crlf
                ++ (codes "X-Real-IP: 1.2.3.4"
                    ++ (crlf
                        ++ (codes "Cookie: mygrok_pk=s1; a=b"
                            ++ (crlf ++ (crlf ++ codes "body"))))))))

abbrev sent : Bytes
sent =
    codes "GET / HTTP/1.1"
    ++ (crlf
        ++ (codes "Host: blog.tun.io"
            ++ (crlf
                ++ (codes "Cookie: a=b"
                    ++ (crlf
                        ++ (codes "X-Forwarded-For: 10.0.0.1"
                            ++ (crlf ++ (codes "X-Real-IP: 10.0.0.1" ++ (crlf ++ crlf)))))))))

abbrev pub conn : Conn
conn = record { input = request; client_ip = codes "10.0.0.1"; is_tls = true }

abbrev site : Site two_ips texts
site = record {
  registry = held;
  acl = record {
    path = [];
    global = record { allowed = []; blocked = [] };
    tunnels = [];
    disk = none;
  };
  locks = record { path = []; allowed = (codes "blog", codes "u1" ∷ []) ∷ []; disk = none };
  passkeys = store;
}

abbrev headers : Headers
headers = record {
  raw =
      codes "GET / HTTP/1.1"
      ++ (crlf
          ++ (codes "Host: blog.tun.io"
              ++ (crlf
                  ++ (codes "X-Real-IP: 1.2.3.4"
                      ++ (crlf ++ (codes "Cookie: mygrok_pk=s1; a=b" ++ (crlf ++ crlf)))))));
  host = codes "blog.tun.io";
  left = codes "body";
}

headers_read : read_headers_and_host request ≡ ok headers
unfolding read_headers_and_host read_loop host_line ◌==◌ to_lower has_prefix trim_space
headers_read = refl

read_headers_and_host-append_example : headers.raw ++ headers.left ≡ request
read_headers_and_host-append_example = read_headers_and_host-append request headers_read

reached : (handle_public_conn cfg world site conn).1 ≡ forwarded 7 sent (codes "body")
unfolding handle_public_conn route locate lan_redirect guarded passkey_gate deliver
    read_headers_and_host read_loop host_line ◌==◌ to_lower has_prefix has_suffix trim_space
    strip_port before_last subdomain_of is_management_host get lookup check global_verdict is_locked
    has_credentials session_user allows_user read_pk_session_from_cookies read_cookie_from_headers
    split_at cut split join contains inject_client_ip inject_with before kept_lines
    is_client_ip_line is_cookie_line strip_mygrok_cookies kept_pairs cookie_key
reached = refl

handle_public_conn-IsAdmitted_example : IsAdmitted cfg world site conn 7 sent (codes "body")
handle_public_conn-IsAdmitted_example = handle_public_conn-IsAdmitted cfg world site conn reached

abbrev head_lines : Bytes
head_lines =
    codes "GET / HTTP/1.1"
    ++ (crlf
        ++ (codes "Host: blog.tun.io"
            ++ (crlf
                ++ (codes "X-Real-IP: 1.2.3.4" ++ (crlf ++ codes "Cookie: mygrok_pk=s1; a=b")))))

has_lines : contains headers.raw crlf ≡ true
unfolding contains has_prefix
has_lines = refl

has_end : before (crlf ++ crlf) headers.raw ≡ some head_lines
unfolding before has_prefix
has_end = refl

inject_client_ip-IsSafe_example :
    (lines : List Bytes) × All IsSafe lines
    × (inject_client_ip headers.raw (codes "10.0.0.1")
        ≡ join (lines ++ own_lines (codes "10.0.0.1")) crlf ++ (crlf ++ crlf))
inject_client_ip-IsSafe_example =
    inject_client_ip-IsSafe headers.raw (codes "10.0.0.1") has_lines has_end
