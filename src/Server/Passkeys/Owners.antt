-- ===== src/Server/Passkeys/Owners.antt =====
-- The owners of credentials, over sequences of calls of `passkeyStore`.
use mygrok.Base.{
  ℕ, ◌≡◌, refl, ◌∙◌, Bool, true, false, not, ◌&&◌, List, [], ◌∷◌, ◌++◌, none, Bytes, ◌==◌, eq_iff,
  keep, any-append, arith, Bool-cases, inl, inr, hex_encode,
}
use mygrok.Server.Disk.{Io}
use mygrok.Server.Passkeys.{WebAuthn, UserRecord, StoredCredential, PasskeyStore}
use mygrok.Server.Passkeys.Store.{
  has_user, save, new_passkey_store, create_user, delete_user, has_credential, add_credential,
  delete_credential, replace_credential, update_credential, credential_user_id, owner_of,
}

has_user-keep :
    (gone id : Bytes) (us : List UserRecord)
    → (id == gone) ≡ false
    → has_user id us ≡ true
    → has_user id (keep (λ u. not (u.id == gone)) us) ≡ true
has_user-keep gone id [] e h = cc
has_user-keep gone id (u ∷ us) e h =
    ground (arith, has_user-keep gone id us, eq_iff u.id gone, eq_iff u.id id, eq_iff id gone)

module _ {W : WebAuthn} where
  abbrev Owned : List UserRecord → List (StoredCredential W) → Type 0
  Owned us [] = Unit
  Owned us (c ∷ cs) = (has_user c.user_id us ≡ true) × Owned us cs

  abbrev pub distinct_ids : List (StoredCredential W) → Bool
  distinct_ids [] = true
  distinct_ids (c ∷ cs) = not (has_credential W c.id cs) && distinct_ids cs

  pub record IsOwned (s : PasskeyStore W) : Type 0 where
    pub owned : Owned s.users s.credentials
    pub once : distinct_ids s.credentials ≡ true

  Owned-append :
      (us : List UserRecord) (cs : List (StoredCredential W)) (c : StoredCredential W)
      → Owned us cs
      → has_user c.user_id us ≡ true
      → Owned us (cs ++ c ∷ [])
  Owned-append us [] c h k = (k, tt)
  Owned-append us (d ∷ cs) c h k = (h.0, Owned-append us cs c h.1 k)

  pub Owned-more :
      (us : List UserRecord) (u : UserRecord) (cs : List (StoredCredential W))
      → Owned us cs
      → Owned (us ++ u ∷ []) cs
  Owned-more us u [] h = tt
  Owned-more us u (c ∷ cs) h =
      (ground (arith, h.0, any-append (λ v. v.id == c.user_id) us (u ∷ [])), Owned-more us u cs h.1)

  Owned-delete :
      (gone : Bytes) (us : List UserRecord) (cs : List (StoredCredential W))
      → Owned us cs
      → Owned (keep (λ u. not (u.id == gone)) us) (keep (λ c. not (c.user_id == gone)) cs)
  Owned-delete gone us [] h = tt
  Owned-delete gone us (c ∷ cs) h = elim (Bool-cases (c.user_id == gone)) [
    | inl e ↦ rw e (Owned-delete gone us cs h.1)
    | inr e ↦ rw e (has_user-keep gone c.user_id us e h.0, Owned-delete gone us cs h.1)
  ]

  has_credential-keep :
      (p : StoredCredential W → Bool) (id : Bytes) (cs : List (StoredCredential W))
      → has_credential W id cs ≡ false
      → has_credential W id (keep p cs) ≡ false
  has_credential-keep p id [] h = refl
  has_credential-keep p id (c ∷ cs) h = ground (arith, has_credential-keep p id cs)

  distinct_ids-keep :
      (p : StoredCredential W → Bool) (cs : List (StoredCredential W))
      → distinct_ids cs ≡ true
      → distinct_ids (keep p cs) ≡ true
  distinct_ids-keep p [] h = refl
  distinct_ids-keep p (c ∷ cs) h =
      ground (arith, distinct_ids-keep p cs, has_credential-keep p c.id cs)

  Owned-keep :
      (p : StoredCredential W → Bool) (us : List UserRecord) (cs : List (StoredCredential W))
      → Owned us cs
      → Owned us (keep p cs)
  Owned-keep p us [] h = tt
  Owned-keep p us (c ∷ cs) h = elim (Bool-cases (p c)) [
    | inl e ↦ rw e (h.0, Owned-keep p us cs h.1)
    | inr e ↦ rw e (Owned-keep p us cs h.1)
  ]

  distinct_ids-append :
      (cs : List (StoredCredential W)) (c : StoredCredential W)
      → distinct_ids cs ≡ true
      → has_credential W c.id cs ≡ false
      → distinct_ids (cs ++ c ∷ []) ≡ true
  distinct_ids-append [] c h k = refl
  distinct_ids-append (d ∷ cs) c h k = ground (
    arith,
    distinct_ids-append cs c,
    any-append (λ e. e.id == d.id) cs (c ∷ []),
    eq_iff d.id c.id,
    eq_iff c.id d.id,
  )

  Owned-replace :
      (id : Bytes) (c : W.Credential) (now : ℕ) (us : List UserRecord)
      (cs : List (StoredCredential W))
      → Owned us cs
      → Owned us (replace_credential W id c now cs)
  unfolding replace_credential
  Owned-replace id c now us [] h = tt
  Owned-replace id c now us (e ∷ es) h = elim (Bool-cases (e.id == id)) [
    | inl p ↦ rw p h
    | inr p ↦ rw p (h.0, Owned-replace id c now us es h.1)
  ]

  has_credential-replace :
      (id : Bytes) (c : W.Credential) (now : ℕ) (k : Bytes) (cs : List (StoredCredential W))
      → has_credential W k (replace_credential W id c now cs) ≡ has_credential W k cs
  unfolding replace_credential
  has_credential-replace id c now k [] = refl
  has_credential-replace id c now k (e ∷ es) = ground (arith, has_credential-replace id c now k es)

  distinct_ids-replace :
      (id : Bytes) (c : W.Credential) (now : ℕ) (cs : List (StoredCredential W))
      → distinct_ids (replace_credential W id c now cs) ≡ distinct_ids cs
  unfolding replace_credential
  distinct_ids-replace id c now [] = refl
  distinct_ids-replace id c now (e ∷ es) =
      ground (arith, distinct_ids-replace id c now es, has_credential-replace id c now e.id es)

-- The calls that change users or credentials.
pub data Step {W : WebAuthn} (s : PasskeyStore W) : PasskeyStore W → Type 0 where
  creates : (name id : Bytes) (now : ℕ) (io : Io) → Step s (create_user W s name id now io).0
  deletes : (user_id : Bytes) (io : Io) → Step s (delete_user W s user_id io).0
  adds :
      (user_id label : Bytes) (c : W.Credential) (now : ℕ) (io : Io)
      → Step s (add_credential W s user_id label c now io).0
  drops : (id : Bytes) (io : Io) → Step s (delete_credential W s id io).0
  updates : (c : W.Credential) (now : ℕ) (io : Io) → Step s (update_credential W s c now io)

pub data Reach {W : WebAuthn} (s : PasskeyStore W) : PasskeyStore W → Type 0 where
  here : Reach s s
  next : {t u : PasskeyStore W} → Reach s t → Step t u → Reach s u

module _ {W : WebAuthn} where
  pub Step-IsOwned : {s t : PasskeyStore W} → Step s t → IsOwned s → IsOwned t
  unfolding create_user delete_user add_credential delete_credential update_credential save
  Step-IsOwned {s} (creates name id now io) v = record {
    owned = Owned-more s.users _ s.credentials v.owned;
    once = v.once;
  }
  Step-IsOwned {s} (deletes user_id io) v = elim (Bool-cases (has_user user_id s.users)) [
    | inl p ↦ rw p (record {
      owned = Owned-delete user_id s.users s.credentials v.owned;
      once = distinct_ids-keep (λ c. not (c.user_id == user_id)) s.credentials v.once;
    })
    | inr p ↦ rw p v
  ]
  Step-IsOwned {s} (adds user_id label c now io) v =
      elim (Bool-cases (has_credential W (hex_encode (W.raw_id c)) s.credentials)) [
        | inl p ↦ rw p v
        | inr p ↦ elim (Bool-cases (has_user user_id s.users)) [
          | inl q ↦
              rw (p, q)
                (record {
                  owned = Owned-append s.users s.credentials _ v.owned q;
                  once = distinct_ids-append s.credentials _ v.once p;
                })
          | inr q ↦ rw (p, q) v
        ]
      ]
  Step-IsOwned {s} (drops id io) v = elim (Bool-cases (has_credential W id s.credentials)) [
    | inl p ↦ rw p (record {
      owned = Owned-keep (λ c. not (c.id == id)) s.users s.credentials v.owned;
      once = distinct_ids-keep (λ c. not (c.id == id)) s.credentials v.once;
    })
    | inr p ↦ rw p v
  ]
  Step-IsOwned {s} (updates c now io) v =
      let id = hex_encode (W.raw_id c) in
      elim (Bool-cases (has_credential W id s.credentials)) [
        | inl p ↦ rw p (record {
          owned = Owned-replace id c now s.users s.credentials v.owned;
          once = distinct_ids-replace id c now s.credentials ∙ v.once;
        })
        | inr p ↦ rw p v
      ]

  Reach-IsOwned : {s t : PasskeyStore W} → IsOwned s → Reach s t → IsOwned t
  Reach-IsOwned v here = v
  Reach-IsOwned v (next path step) = Step-IsOwned step (Reach-IsOwned v path)

  owner_known :
      (us : List UserRecord) (cs : List (StoredCredential W)) (id : Bytes)
      → Owned us cs
      → has_credential W id cs ≡ true
      → has_user (owner_of W id cs) us ≡ true
  unfolding owner_of
  owner_known us [] id h e = cc
  owner_known us (c ∷ cs) id h e = ground (arith, h.0, owner_known us cs id h.1)

  -- On a server that started with no file, whatever users and credentials are added, removed and
  -- updated, the credential that a browser presents has an owner among the known users.
  pub Reach-owner :
      (path : Bytes) (now : ℕ) (io : Io) {s : PasskeyStore W} (raw : Bytes)
      → Reach (new_passkey_store W path none now io) s
      → has_credential W (hex_encode raw) s.credentials ≡ true
      → has_user (credential_user_id W s raw) s.users ≡ true
  unfolding credential_user_id
  Reach-owner path now io {s} raw r h =
      let start : IsOwned (new_passkey_store W path none now io) =
        unfold new_passkey_store in record { owned = tt; once = refl } in
      owner_known s.users s.credentials (hex_encode raw) (Reach-IsOwned start r).owned h
