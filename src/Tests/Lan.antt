-- ===== src/Tests/Lan.antt =====
-- The blog with a LAN address, on a server whose DNS provider takes every record.
use mygrok.Base.{
  ◌≡◌, refl, ap, sym, ◌&&◌, if◌then◌else◌, true, false, [], ◌∷◌, codes, ◌==◌, none, some, Bytes,
  Option,
}
use mygrok.Base.Error.{ok}
use mygrok.Base.Dict.{lookup, insert, insert_all}
use mygrok.Server.Registry.{Tunnel, Claimed, new_registry, claim, find_conflict, install, get}
use mygrok.Server.Lan.{Provider, LanManager}
use mygrok.Server.Handshake.{lan_name}
use mygrok.Server.Handshake.Session.{Listeners, Hub, open_tunnel, held_name, close_tunnel}
use mygrok.Server.Handshake.Ending.{record_of}
use mygrok.Server.Handshake.Withdrawn.{
  is_at, IsServing, published_by, IsTracked, unknown, close_tunnel-published,
}
use mygrok.Tests.Data.{blog_tunnel}

-- The zone is a function from names to addresses.
abbrev willing : Provider
willing = record {
  Zone = Bytes → Option Bytes;
  parse_addr = λ s. some (record { is4 = true; is_private = true });
  set_record = λ z name ip. some (λ m. if name == m then some ip else z m);
  delete_record = λ z name ip. some (λ m. if (name == m) && is_at (z m) ip then none else z m);
}

abbrev answers : (Bytes → Option Bytes) → Bytes → Option Bytes
answers z = z

willing-IsServing : IsServing willing answers
willing-IsServing = record {
  sets = λ z name ip e m.
      ap (λ o. elim o as (λ _. Option Bytes) [ none ↦ none | some y ↦ y m ]) (sym e);
  deletes = λ z name ip. (_, refl, λ m. refl);
}

abbrev manager : LanManager willing
manager = record { public_host = codes "tun.io"; active = []; zone = λ m. none }

abbrev hub : Hub willing
hub = record { registry = new_registry; lan = some manager }

abbrev on : Listeners
on = record { https = true; http = true; public_host = codes "tun.io" }

abbrev blog : Tunnel
blog = record blog_tunnel { lan_ip = codes "10.0.0.9"; lan_hostname = codes "blog-lan.tun.io" }

abbrev claimed : Claimed
claimed = record {
  registry = record {
    tunnels = (codes "blog", blog) ∷ [];
    custom_hosts = (codes "blog.example.org", codes "blog") ∷ [];
  };
  preempted = none;
  closing = none;
}

abbrev cert : Option (Bytes × Bytes)
cert = some (codes "CERT", codes "KEY")

blog_claimed : claim hub.registry blog ≡ ok claimed
unfolding claim new_registry find_conflict install lookup insert insert_all
blog_claimed = refl

has_name : (blog.lan_hostname == []) ≡ false
unfolding ◌==◌
has_name = refl

name_of : blog.lan_hostname ≡ lan_name (codes "tun.io") (codes "blog")
unfolding lan_name
name_of = refl

no_record : IsTracked answers manager (codes "blog-lan.tun.io")
unfolding lookup
no_record = unknown refl refl

close_tunnel-published_example :
    let (up, resp) = open_tunnel on hub claimed cert blog in
    let down = close_tunnel up (codes "blog") 7 (held_name resp) in
    (get down.registry (codes "blog") ≡ none)
    × (record_of down.lan (codes "blog-lan.tun.io") ≡ none)
    × (published_by answers down.lan (codes "blog-lan.tun.io") ≡ none)
close_tunnel-published_example =
    close_tunnel-published answers willing-IsServing on hub claimed cert blog blog_claimed refl
      has_name name_of no_record
