-- ===== src/Tests/Data.antt =====
-- Two addresses and one range, credentials that are texts, and a small server.
use mygrok.Base.{
  ◌≡◌, refl, Bool, true, false, [], ◌∷◌, none, some, Bytes, codes, ◌==◌, if◌then◌else◌, trim_space,
  contains, has_prefix,
}
use mygrok.Server.Acl.{Net}
use mygrok.Server.Acl.Restart.{NetLaws, IsClean}
use mygrok.Server.Passkeys.{WebAuthn}
use mygrok.Server.Registry.{Tunnel}

pub data Ip : Type 0 where
  home away : Ip

pub data Range : Type 0 where
  lan : Range

abbrev ip_text : Ip → Bytes
ip_text home = codes "10.0.0.1"
ip_text away = codes "8.8.8.8"

abbrev same_ip : Ip → Ip → Bool
same_ip home home = true
same_ip away away = true
same_ip _ _ = false

abbrev in_range : Range → Ip → Bool
in_range lan home = true
in_range lan away = false

abbrev pub two_ips : Net
two_ips = record {
  Ip = Ip;
  IpNet = Range;
  parse_ip = λ s.
      if s == codes "10.0.0.1" then some home else if s == codes "8.8.8.8" then some away else none;
  parse_cidr = λ s. if s == codes "10.0.0.0/8" then some lan else none;
  ip_string = ip_text;
  net_string = λ r. codes "10.0.0.0/8";
  net_contains = in_range;
  ip_equal = same_ip;
}

ip_back : (s : Bytes) (a : Ip) → two_ips.parse_ip s ≡ some a → two_ips.parse_ip (ip_text a) ≡ some a
unfolding ◌==◌
ip_back s home e = refl
ip_back s away e = refl

net_back :
    (s : Bytes) (r : Range)
    → two_ips.parse_cidr s ≡ some r
    → two_ips.parse_cidr (codes "10.0.0.0/8") ≡ some r
unfolding ◌==◌
net_back s lan e = refl

ip_text-IsClean : (a : Ip) → IsClean (ip_text a)
unfolding trim_space ◌==◌
ip_text-IsClean home = record { trimmed = refl; present = refl }
ip_text-IsClean away = record { trimmed = refl; present = refl }

no_slash : (a : Ip) → contains (ip_text a) (codes "/") ≡ false
unfolding contains has_prefix
no_slash home = refl
no_slash away = refl

pub two_ips-NetLaws : NetLaws two_ips
unfolding trim_space ◌==◌ contains has_prefix
two_ips-NetLaws = record {
  ip_back = ip_back;
  net_back = net_back;
  ip_clean = ip_text-IsClean;
  net_clean = λ r. record { trimmed = refl; present = refl };
  ip_slash = no_slash;
  net_slash = λ r. refl;
}

abbrev pub texts : WebAuthn
texts = record { Credential = Bytes; SessionData = Bytes; raw_id = λ c. c; decode = some }

abbrev pub blog_tunnel : Tunnel
blog_tunnel = record {
  subdomain = codes "blog";
  session = 7;
  client_id = codes "abc";
  hostnames = codes "blog.example.org" ∷ [];
  created = 0;
  public_ip = [];
  lan_ip = [];
  lan_hostname = [];
}
