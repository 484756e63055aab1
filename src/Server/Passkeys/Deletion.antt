-- ===== src/Server/Passkeys/Deletion.antt =====
-- What is left after a user has been deleted.
use mygrok.Base.{
  ◌≡◌, refl, true, false, not, ◌||◌, List, [], ◌∷◌, none, Bytes, ◌==◌, eq_iff, if◌then◌else◌, keep,
  arith,
}
use mygrok.Server.Disk.{Io}
use mygrok.Server.Passkeys.{WebAuthn, UserRecord, StoredCredential, PasskeyStore}
use mygrok.Server.Passkeys.Store.{
  has_user, find_id, find_user, save, delete_user, list_credentials, sort_credentials,
}

find_id-keep :
    (gone id : Bytes) (us : List UserRecord)
    → find_id id (keep (λ u. not (u.id == gone)) us) ≡ (if gone == id then none else find_id id us)
unfolding find_id
find_id-keep gone id [] = ground arith
find_id-keep gone id (u ∷ us) =
    ground (arith, find_id-keep gone id us, eq_iff u.id gone, eq_iff u.id id, eq_iff gone id)

no_own :
    {W : WebAuthn} (gone : Bytes) (cs : List (StoredCredential W))
    → (gone == []) ≡ false
    → keep (λ c. (gone == []) || (c.user_id == gone)) (keep (λ c. not (c.user_id == gone)) cs) ≡ []
no_own gone [] e = refl
no_own gone (c ∷ cs) e = ground (arith, no_own gone cs)

-- A deleted user is not found any more and owns no credential, and every other user is still found.
pub find_user-delete :
    {W : WebAuthn} (s : PasskeyStore W) (user_id id : Bytes) (io : Io)
    → (user_id == []) ≡ false
    → has_user user_id s.users ≡ true
    → (find_user W (delete_user W s user_id io).0 id
        ≡ (if user_id == id then none else find_user W s id))
      × (list_credentials W (delete_user W s user_id io).0 user_id ≡ [])
unfolding find_user delete_user list_credentials save sort_credentials
find_user-delete s user_id id io e h =
    (rw h (find_id-keep user_id id s.users), rw (h, no_own user_id s.credentials e))
