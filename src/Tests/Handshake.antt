-- ===== src/Tests/Handshake.antt =====
-- A client that asks for the blog.
use mygrok.Base.{
  ◌≡◌, refl, true, [], ◌∷◌, codes, ◌==◌, none, some, to_lower, trim_space, has_suffix, has_prefix,
  contains, split,
}
use mygrok.Base.Error.{ok}
use mygrok.Base.Dict.{lookup, insert, insert_all}
use mygrok.Server.Names.{
  valid_subdomain, label_bytes, normalize_hostnames, normalize_loop, validate_custom_host,
  validate_labels, qualified, or_else,
}
use mygrok.Server.Registry.{new_registry, Claimed, claim, find_conflict, install}
use mygrok.Server.Handshake.{
  Hello, Settings, Wire, lan_request, lan_name, enter_claim, enter_hosts, enter,
}
use mygrok.Server.Handshake.Entered.{IsEntered, enter-IsEntered}
use mygrok.Tests.Data.{blog_tunnel}

abbrev pub cfg : Settings
cfg = record {
  auth_token = codes "secret";
  public_host = codes "tun.io";
  lan = some (codes "tun.io");
  is_rfc1918 = λ s. s == codes "10.0.0.9";
}

abbrev pub hello : Hello
hello = record {
  auth = codes "secret";
  subdomain = codes " Blog";
  client_id = codes "abc";
  hostnames = codes "Blog.example.org" ∷ [];
  lan_ip = codes "10.0.0.9";
}

abbrev pub wire : Wire
wire = record {
  buffered = 0;
  yamux_starts = true;
  session = 7;
  public_ip = codes "8.8.8.8";
  now = 0;
}

abbrev pub outcome : Claimed
outcome = record {
  registry = record {
    tunnels =
        (
          codes "blog",
          record blog_tunnel {
            public_ip = codes "8.8.8.8";
            lan_ip = codes "10.0.0.9";
            lan_hostname = codes "blog-lan.tun.io";
          },
        )
        ∷ [];
    custom_hosts = (codes "blog.example.org", codes "blog") ∷ [];
  };
  preempted = none;
  closing = none;
}

pub accepted : enter cfg hello wire new_registry ≡ ok outcome
unfolding enter enter_hosts enter_claim lan_request lan_name ◌==◌ to_lower trim_space has_suffix
    has_prefix contains split valid_subdomain label_bytes normalize_hostnames normalize_loop
    validate_custom_host validate_labels qualified or_else claim new_registry find_conflict install
    lookup insert insert_all
accepted = refl

enter-IsEntered_example : IsEntered cfg hello wire new_registry outcome
enter-IsEntered_example = enter-IsEntered cfg hello wire new_registry accepted
