-- ===== src/Tests/Acl.antt =====
-- The address rules.
use mygrok.Base.{
  ◌≡◌, refl, ◌≢◌, ◌⊎◌, true, false, [], ◌∷◌, codes, ◌==◌, none, some, Option, Bytes, trim_space,
  contains, has_prefix,
}
use mygrok.Base.Error.{ok}
use mygrok.Base.Dict.{lookup, insert, keys}
use mygrok.Server.Disk.{working, save_file}
use mygrok.Server.Names.{looks_like_subdomain, label_bytes}
use mygrok.Server.Acl.{Entry, Acl, check, parse_ip_or_cidr, save}
use mygrok.Server.Acl.Edit.{
  block, bucket_slice, bucket_locked, write_bucket, add_entry, add, remove,
}
use mygrok.Server.Acl.Load.{load}
use mygrok.Server.Acl.Verdict.{permitted, check-permitted}
use mygrok.Server.Acl.Effect.{is_not_saved}
use mygrok.Server.Acl.Undo.{remove-add}
use mygrok.Server.Acl.Restart.{IsSound, load-save}
use mygrok.Tests.Data.{two_ips, home, lan}

abbrev home_entry : Entry two_ips
home_entry = record { raw = codes "10.0.0.1"; net = none; ip = some home; note = [] }

abbrev range_entry : Entry two_ips
range_entry = record { raw = codes "10.0.0.0/8"; net = some lan; ip = none; note = [] }

-- The away address may not reach the blog, and only the range may reach the other tunnels.
abbrev rules : Acl two_ips
rules = record {
  path = codes "acl.json";
  global = record { allowed = range_entry ∷ []; blocked = [] };
  tunnels = (codes "blog", record { allowed = []; blocked = home_entry ∷ [] }) ∷ [];
  disk = none;
}

check-permitted_example :
    (check two_ips rules (codes "blog") (some home) ≡ permitted rules (codes "blog") home)
    × (check two_ips rules (codes "blog") none ≡ true)
check-permitted_example = check-permitted rules (codes "blog") home

home_parses : parse_ip_or_cidr two_ips (codes " 10.0.0.1") ≡ ok home_entry
unfolding parse_ip_or_cidr trim_space contains has_prefix ◌==◌
home_parses = refl

added : (add two_ips rules (codes "shop") (codes "block") (codes " 10.0.0.1") [] working).1 ≡ none
unfolding add add_entry bucket_locked write_bucket bucket_slice looks_like_subdomain label_bytes
    save save_file parse_ip_or_cidr trim_space contains has_prefix ◌==◌ lookup insert
added = refl

named : bucket_slice (codes "block") ≡ some block
unfolding bucket_slice ◌==◌
named = refl

refused : (add two_ips rules (codes "blog") (codes "block") (codes "10.0.0.1") [] working).1 ≢ none
unfolding add add_entry bucket_locked bucket_slice looks_like_subdomain label_bytes parse_ip_or_cidr
    trim_space contains has_prefix ◌==◌ lookup
refused e = cc

unsaved :
    is_not_saved (add two_ips rules (codes "blog") (codes "block") (codes "10.0.0.1") [] working).1
    ≡ false
unfolding add add_entry bucket_locked bucket_slice looks_like_subdomain label_bytes parse_ip_or_cidr
    trim_space contains has_prefix ◌==◌ lookup
unsaved = refl

remove-add_example :
    let r =
      remove two_ips
        (add two_ips rules (codes "shop") (codes "block") (codes " 10.0.0.1") [] working).0
        (codes "shop")
        (codes "block")
        (codes " 10.0.0.1")
        working in
    (check two_ips r.0 (codes "shop") (some home) ≡ check two_ips rules (codes "shop") (some home))
    × ((r.1 ≡ none) ⊎ (is_not_saved r.1 ≡ true))
remove-add_example =
    remove-add rules (codes "shop") (codes "block") (codes " 10.0.0.1") [] working working
      (codes "shop") (some home) home_parses added

rules-IsSound : IsSound rules
unfolding parse_ip_or_cidr trim_space contains has_prefix ◌==◌ keys
rules-IsSound = record { global = ((refl, tt), tt); tunnels = ((tt, (refl, tt)), tt); once = refl }

written : (save two_ips rules working).1 ≡ none
unfolding save save_file ◌==◌
written = refl

path_present : (rules.path == []) ≡ false
unfolding ◌==◌
path_present = refl

load-save_example :
    (m : Acl two_ips) × (load two_ips rules.path (save two_ips rules working).0.disk working ≡ ok m)
    × ((s : Bytes) (a : Option two_ips.Ip) → check two_ips m s a ≡ check two_ips rules s a)
load-save_example = load-save rules working working rules-IsSound path_present written
