-- ===== src/Tests/Locks.antt =====
-- The passkey lists.
use mygrok.Base.{
  ◌≡◌, refl, sym, true, false, not, ◌&&◌, ◌||◌, [], ◌∷◌, codes, ◌==◌, eq→path, none, if◌then◌else◌,
  Bytes, arith, any,
}
use mygrok.Base.Dict.{lookup, keys, insert}
use mygrok.Base.Keys.{distinct}
use mygrok.Server.Disk.{working, save_file}
use mygrok.Server.Names.{looks_like_subdomain, label_bytes}
use mygrok.Server.Locks.{Locks, is_locked, allows_user, grant, revoke, new_tunnel_locks, save}
use mygrok.Server.Locks.Access.{users_on, lets_in, allows_user-revoke}

-- Ann may enter the blog; Ann and Bob may enter the shop.
abbrev lists : Locks
lists = record {
  path = [];
  allowed = (codes "blog", codes "ann" ∷ []) ∷ (codes "shop", codes "ann" ∷ codes "bob" ∷ []) ∷ [];
  disk = none;
}

valid : looks_like_subdomain (codes "wiki") ≡ true
unfolding looks_like_subdomain label_bytes
valid = refl

bob : (codes "bob" == []) ≡ false
unfolding ◌==◌
bob = refl

nobody : (not (looks_like_subdomain (codes "wiki")) || ([] == [])) ≡ true
unfolding looks_like_subdomain label_bytes ◌==◌
nobody = refl

on_list : allows_user lists (codes "shop") (codes "ann") ≡ true
unfolding allows_user lookup ◌==◌
on_list = refl

allows_user-revoke_example :
    let after = (revoke lists (codes "shop") (codes "ann") working).0 in
    let others = any (λ u. not (u == codes "ann")) (users_on lists (codes "shop")) in
    (allows_user after (codes "shop") (codes "bob") ≡ (
      if (codes "shop" == codes "shop") && (codes "ann" == codes "bob")
      then false
      else allows_user lists (codes "shop") (codes "bob")))
    × (is_locked after (codes "shop")
        ≡ (if codes "shop" == codes "shop" then others else is_locked lists (codes "shop")))
    × (lets_in after (codes "shop") (codes "bob") ≡ (
        if codes "shop" == codes "shop"
        then not others
          || (not (codes "ann" == codes "bob") && allows_user lists (codes "shop") (codes "bob"))
        else lets_in lists (codes "shop") (codes "bob")))
allows_user-revoke_example =
    allows_user-revoke lists (codes "shop") (codes "ann") working (codes "shop") (codes "bob")
      on_list

alone : allows_user lists (codes "blog") (codes "ann") ≡ true
unfolding allows_user lookup ◌==◌
alone = refl

only_ann : (v : Bytes) → allows_user lists (codes "blog") v ≡ true → v ≡ codes "ann"
unfolding allows_user lookup ◌==◌
only_ann v h = sym (eq→path (codes "ann") v (ground arith))

once : distinct (keys lists.allowed) ≡ true
unfolding keys ◌==◌
once = refl

locked_now :
    is_locked
      (grant (new_tunnel_locks [] none working) (codes "wiki") (codes "bob") working).0
      (codes "wiki")
    ≡ true
unfolding is_locked grant new_tunnel_locks looks_like_subdomain label_bytes ◌==◌ save save_file
    lookup insert
locked_now = refl
