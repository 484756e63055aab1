-- ===== src/Server/Manage/Own.antt =====
-- The credential that a signed-in user deletes, `serveAccountCredentialDelete` of
-- cmd/mygrokd/auth.go.
use mygrok.Base.{
  ◌≡◌, refl, Bool, true, false, not, ◌||◌, List, [], ◌∷◌, Bytes, ◌==◌, arith, leb, ◌≤◌, suc, length,
  keep, eq_iff, inl, inr, Bool-cases, ◌⊎◌, subst, sym,
}
use mygrok.Server.Disk.{Io}
use mygrok.Server.Acl.{Net}
use mygrok.Server.Passkeys.{WebAuthn, UserRecord, StoredCredential, PasskeyStore}
use mygrok.Server.Passkeys.Store.{
  save, list_credentials, has_credential, delete_credential, insert_credential, sort_credentials,
}
use mygrok.Server.Passkeys.Owners.{distinct_ids, IsOwned}
use mygrok.Server.Manage.{Host, Moment}
use mygrok.Server.Manage.Account.{delete_own, user_owns_credential}

module _ {W : WebAuthn} where
  -- The credentials of a user, and those with another id.
  abbrev owns : Bytes → StoredCredential W → Bool
  owns u c = (u == []) || (c.user_id == u)

  abbrev others : Bytes → List (StoredCredential W) → List (StoredCredential W)
  others id = keep (λ c. not (c.id == id))

  length-insert :
      (c : StoredCredential W) (cs : List (StoredCredential W))
      → length (insert_credential W c cs) ≡ suc (length cs)
  unfolding insert_credential
  length-insert c [] = refl
  length-insert c (d ∷ cs) = ground (arith, length-insert c cs)

  length-sort : (cs : List (StoredCredential W)) → length (sort_credentials W cs) ≡ length cs
  unfolding sort_credentials
  length-sort [] = refl
  length-sort (c ∷ cs) = ground (arith, length-sort cs, length-insert c (sort_credentials W cs))

  has_credential-insert :
      (id : Bytes) (c : StoredCredential W) (cs : List (StoredCredential W))
      → has_credential W id (insert_credential W c cs) ≡ ((c.id == id) || has_credential W id cs)
  unfolding insert_credential
  has_credential-insert id c [] = refl
  has_credential-insert id c (d ∷ cs) = ground (arith, has_credential-insert id c cs)

  has_credential-sort :
      (id : Bytes) (cs : List (StoredCredential W))
      → has_credential W id (sort_credentials W cs) ≡ has_credential W id cs
  unfolding sort_credentials
  has_credential-sort id [] = refl
  has_credential-sort id (c ∷ cs) =
      ground (arith, has_credential-sort id cs, has_credential-insert id c (sort_credentials W cs))

  others_all :
      (id : Bytes) (cs : List (StoredCredential W))
      → has_credential W id cs ≡ false
      → others id cs ≡ cs
  others_all id [] e = refl
  others_all id (c ∷ cs) e = ground (arith, others_all id cs)

  has_credential-keep :
      (id : Bytes) (q : StoredCredential W → Bool) (cs : List (StoredCredential W))
      → has_credential W id cs ≡ false
      → has_credential W id (keep q cs) ≡ false
  has_credential-keep id q [] e = refl
  has_credential-keep id q (c ∷ cs) e = ground (arith, has_credential-keep id q cs)

  -- No id twice: one credential goes at most.
  length-others :
      (id : Bytes) (q : StoredCredential W → Bool) (cs : List (StoredCredential W))
      → distinct_ids cs ≡ true
      → length (keep q cs) ≤ suc (length (keep q (others id cs)))
  length-others id q [] d = ground arith
  length-others id q (c ∷ cs) d = elim (Bool-cases (c.id == id)) [
    | inl e ↦ ground (arith, others_all id cs, eq_iff c.id id)
    | inr e ↦ ground (arith, length-others id q cs)
  ]

  keep-others :
      (id u v : Bytes) (cs : List (StoredCredential W))
      → (v == []) ≡ false
      → (u == []) ≡ false
      → (u == v) ≡ false
      → distinct_ids cs ≡ true
      → has_credential W id (keep (owns u) cs) ≡ true
      → keep (owns v) (others id cs) ≡ keep (owns v) cs
  keep-others id u v [] n m o d h = refl
  keep-others id u v (c ∷ cs) n m o d h = elim (Bool-cases (c.id == id)) [
    | inl e ↦ ground (
      arith,
      others_all id cs,
      has_credential-keep id (owns u) cs,
      eq_iff c.id id,
      eq_iff c.user_id u,
      eq_iff c.user_id v,
      eq_iff u v,
    )
    | inr e ↦ ground (arith, keep-others id u v cs)
  ]

module _ {W : WebAuthn} where
  list_own :
      (s : PasskeyStore W) (v : Bytes)
      → list_credentials W s v ≡ sort_credentials W (keep (owns v) s.credentials)
  unfolding list_credentials
  list_own s v = refl

  -- What a deletion leaves of the credentials of a user.
  list-delete :
      (s : PasskeyStore W) (id v : Bytes) (io : Io)
      → has_credential W id s.credentials ≡ true
      → list_credentials W (delete_credential W s id io).0 v
        ≡ sort_credentials W (keep (owns v) (others id s.credentials))
  unfolding list_credentials delete_credential save
  list-delete s id v io e = ground arith

  has_credential-own :
      (s : PasskeyStore W) (u id : Bytes)
      → has_credential W id (list_credentials W s u)
        ≡ has_credential W id (keep (owns u) s.credentials)
  unfolding list_credentials
  has_credential-own s u id = has_credential-sort id (keep (owns u) s.credentials)

  has_credential-whole :
      (id : Bytes) (q : StoredCredential W → Bool) (cs : List (StoredCredential W))
      → has_credential W id (keep q cs) ≡ true
      → has_credential W id cs ≡ true
  has_credential-whole id q [] e = e
  has_credential-whole id q (c ∷ cs) e = ground (arith, has_credential-whole id q cs)

module _ {N : Net} {W : WebAuthn} where
  delete_own_cases :
      (h : Host N W) (u : UserRecord) (id : Bytes) (t : Moment)
      → let s = (delete_own h u id t).0.passkeys in
        (s ≡ h.passkeys)
        ⊎ ((has_credential W id (list_credentials W h.passkeys u.id) ≡ true)
            × (leb (length (list_credentials W h.passkeys u.id)) 1 ≡ false)
            × (s ≡ (delete_credential W h.passkeys id (t.io 0)).0))
  unfolding delete_own user_owns_credential
  delete_own_cases h u id t = ground arith

  -- A signed-in user who deletes a credential never touches those of another user, and has one
  -- left exactly if there was one before. The store is one in which no two credentials have the
  -- same id.
  pub delete_own_kept :
      (h : Host N W) (u : UserRecord) (id v : Bytes) (t : Moment)
      → IsOwned h.passkeys
      → (u.id == []) ≡ false
      → (v == []) ≡ false
      → (u.id == v) ≡ false
      → let s = (delete_own h u id t).0.passkeys in
        (list_credentials W s v ≡ list_credentials W h.passkeys v)
        × (leb 1 (length (list_credentials W s u.id))
            ≡ leb 1 (length (list_credentials W h.passkeys u.id)))
  delete_own_kept h u id v t owned named other apart = elim (delete_own_cases h u id t) [
    | inl same ↦ rw same (refl, refl)
    | inr (own, more, gone) ↦
        let cs = h.passkeys.credentials in
        let mine = subst (λ b. b ≡ true) (has_credential-own h.passkeys u.id id) own in
        let here = has_credential-whole id (owns u.id) cs mine in
        (
          rw (gone, list-delete h.passkeys id v (t.io 0) here)
              (rw (keep-others id u.id v cs other named apart owned.once mine)
                (sym (list_own h.passkeys v))),
          ground (
            arith,
            gone,
            list-delete h.passkeys id u.id (t.io 0) here,
            list_own h.passkeys u.id,
            length-sort (keep (owns u.id) cs),
            length-sort (keep (owns u.id) (others id cs)),
            length-others id (owns u.id) cs owned.once,
            more,
          ),
        )
  ]
