-- ===== src/Tests/Invites.antt =====
-- Invites.
use mygrok.Base.{◌≡◌, refl, false, true, [], ◌∷◌, codes, ◌==◌, none, some, trim_space}
use mygrok.Base.Error.{ok, err}
use mygrok.Base.Dict.{lookup}
use mygrok.Server.Disk.{Io, working, save_file, write_failed}
use mygrok.Server.Invites.{
  Invite, InviteStore, already_used, not_saved, invite, save, issue, mark_consumed,
}
use mygrok.Server.Invites.Once.{mark_consumed_once}

abbrev rec : Invite
rec = invite (codes "Ann") (codes "t1") 5 6

abbrev store : InviteStore
store = record { path = codes "invites.json"; by_token = (codes "t1", rec) ∷ []; disk = none }

abbrev full_disk : Io
full_disk = record { mkdir = true; marshal = true; write = false; rename = true }

issued :
    (issue store (codes "Bob") (codes "t2") 7 8 working).1
    ≡ ok (invite (codes "Bob") (codes "t2") 7 8)
unfolding issue save save_file trim_space ◌==◌
issued = refl

fresh : lookup (codes "t2") store.by_token ≡ none
unfolding lookup ◌==◌
fresh = refl

not_issued : (issue store (codes "Bob") (codes "t2") 7 8 full_disk).1 ≡ err (not_saved write_failed)
unfolding issue save save_file trim_space ◌==◌
not_issued = refl

live : lookup (codes "t1") store.by_token ≡ some rec
unfolding lookup ◌==◌
live = refl

mark_consumed_once_example :
    let t = (mark_consumed store (codes "t1") (codes "u1") 9 full_disk).0 in
    mark_consumed t (codes "t1") (codes "u2") 10 working ≡ (t, some already_used)
mark_consumed_once_example =
    mark_consumed_once store (codes "t1") (codes "u1") (codes "u2") 9 10 full_disk working live refl
