-- ===== src/Tests/Views.antt =====
-- What an admin sees of a server with one tunnel, one user and one rule.
use mygrok.Base.{◌≡◌, refl, true, not, ◌&&◌, ◌||◌, codes, [], ◌∷◌, none, some, member}
use mygrok.Base.Dict.{keys}
use mygrok.Base.Keys.{distinct}
use mygrok.Server.Acl.{Acl}
use mygrok.Server.Locks.{allows_user}
use mygrok.Server.Passkeys.Store.{has_user}
use mygrok.Server.Views.{tunnel_page, tunnel_view, overview}
use mygrok.Server.Locks.Access.{lets_in}
use mygrok.Server.Views.Shown.{ids, tunnel_page-lists}
use mygrok.Server.Views.Overview.{IsOverview, overview-IsOverview}
use mygrok.Tests.Data.{two_ips, texts, home}
use mygrok.Tests.Manage.{office}

abbrev ruled : Acl two_ips
ruled = record office.acl {
  tunnels =
      (
        codes "shop",
        record {
          allowed = [];
          blocked = record { raw = codes "10.0.0.1"; note = []; net = none; ip = some home } ∷ [];
        },
      )
      ∷ [];
}

one_key : distinct (keys ruled.tunnels) ≡ true
unfolding keys
one_key = refl

overview-IsOverview_example :
    IsOverview ruled office.registry (overview two_ips ruled office.registry)
overview-IsOverview_example = overview-IsOverview ruled office.registry one_key

tunnel_page-lists_example :
    let page = tunnel_page texts office.registry office.locks office.passkeys (codes "blog") in
    let answer =
      tunnel_view two_ips texts ruled office.registry office.locks office.passkeys (codes "blog") in
    (member (codes "u1") (ids page.listed) ≡ allows_user office.locks (codes "blog") (codes "u1"))
    × (member (codes "u1") (ids answer.allowed_users)
        ≡ allows_user office.locks (codes "blog") (codes "u1"))
    × (lets_in office.locks (codes "blog") (codes "u1")
        ≡ (not page.locked || member (codes "u1") (ids page.listed)))
    × (lets_in office.locks (codes "blog") (codes "u1")
        ≡ (not answer.require_passkey || member (codes "u1") (ids answer.allowed_users)))
    × ((page.locked || not (member (codes "u1") (ids page.listed))) ≡ true)
    × (has_user (codes "u1") page.offered ≡ (
        has_user (codes "u1") office.passkeys.users
        && not (allows_user office.locks (codes "blog") (codes "u1"))))
tunnel_page-lists_example =
    tunnel_page-lists ruled office.registry office.locks office.passkeys (codes "blog") (codes "u1")
