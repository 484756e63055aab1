-- ===== src/Server/System/Gone.antt =====
-- The id of a user in the passkey store of cmd/mygrokd/passkeys.go, from the time when nothing
-- names it.
use mygrok.Base.{
  ℕ, ◌≡◌, refl, ◌∙◌, Bool, true, false, not, List, [], ◌∷◌, ◌++◌, none, some, Bytes, ◌==◌, eq_iff,
  any, any-append, keep, arith, eqb, cut, ◌⊎◌, Bool-cases, Option-cases, inl, inr, hex_encode,
}
use mygrok.Base.Pieces.{lacks}
use mygrok.Base.Dict.{Dict, lookup, insert, erase}
use mygrok.Server.Passkeys.{
  WebAuthn, UserRecord, StoredCredential, AuthSession, Pending, PasskeyStore,
}
use mygrok.Server.Passkeys.Store.{
  has_user, save, create_user, delete_user, has_credential, add_credential, delete_credential,
  replace_credential, update_credential, credential_user_id, owner_of,
}
use mygrok.Server.Passkeys.Sessions.{
  issue_registration, consume_registration, issue_login, consume_login, issue_auth_session,
  session_user, revoke_session, revoke_user_sessions,
}
use mygrok.Server.Invites.{Invite}
use mygrok.Server.Manage.Ceremony.{Ceremony}
use mygrok.Server.Manage.Redeem.{stashed, join_user}
use mygrok.Server.System.{
  IsStash, StoreCall, creates, deletes, adds, drops, updates, begins, consumes, joins, begins_login,
  consumes_login, enters, welcomes, reads, leaves, ends,
}

any-keep {ℓ} :
    {A : Type ℓ} (p q : A → Bool) (xs : List A) → any p xs ≡ false → any p (keep q xs) ≡ false
any-keep p q [] e = refl
any-keep p q (x ∷ xs) e = ground (arith, any-keep p q xs)

any-snoc {ℓ} :
    {A : Type ℓ} (p : A → Bool) (xs : List A) (x : A)
    → any p xs ≡ false
    → p x ≡ false
    → any p (xs ++ x ∷ []) ≡ false
any-snoc p xs x e f = ground (arith, any-append p xs (x ∷ []))

module _ {ℓ} {V : Type ℓ} where
  -- Some value of the map passes the test.
  abbrev pub holds : (V → Bool) → Dict V → Bool
  holds p = any (λ (e : Bytes × V). p e.1)

  pub holds-insert :
      (p : V → Bool) (k : Bytes) (v : V) (m : Dict V)
      → holds p m ≡ false
      → p v ≡ false
      → holds p (insert k v m) ≡ false
  unfolding insert
  holds-insert p k v [] e f = ground arith
  holds-insert p k v ((j, w) ∷ m) e f = ground (arith, holds-insert p k v m)

  pub holds-erase :
      (p : V → Bool) (k : Bytes) (m : Dict V) → holds p m ≡ false → holds p (erase k m) ≡ false
  unfolding erase
  holds-erase p k [] e = refl
  holds-erase p k ((j, w) ∷ m) e = ground (arith, holds-erase p k m)

  pub holds-lookup :
      (p : V → Bool) (k : Bytes) (m : Dict V) {v : V}
      → holds p m ≡ false
      → lookup k m ≡ some v
      → p v ≡ false
  unfolding lookup
  holds-lookup p k [] e f = cc
  holds-lookup p k ((j, w) ∷ m) {v} e f = ground (arith, holds-lookup p k m {v = v})

-- A pending registration is for the new user with the id.
unfoldable pub is_for : Bytes → Bytes → Bool
is_for uid stash = elim (cut b'|' stash) [ none ↦ false | some (token, id) ↦ id == uid ]

lacks-append : (b : ℕ) (l r : Bytes) → lacks b (l ++ b ∷ r) ≡ false
lacks-append b l r = ground (arith, any-append (λ c. eqb c b) l (b ∷ r))

-- What follows the first such byte of a text in which one precedes `r`.
cut-append :
    (b : ℕ) (l r : Bytes) {x y : Bytes}
    → cut b (l ++ b ∷ r) ≡ some (x, y)
    → (y ≡ r) ⊎ (lacks b y ≡ false)
unfolding cut
cut-append b [] r e = inl (ground arith)
cut-append b (c ∷ l) r e = elim (Bool-cases (eqb c b)) [
  | inl p ↦ inr (ground (arith, lacks-append b l r))
  | inr p ↦ elim (Option-cases (cut b (l ++ b ∷ r))) [
    | inl q ↦ absurd (ground arith)
    | inr ((x', y'), q) ↦ elim (cut-append b l r q) [
      | inl h ↦ inl (ground arith)
      | inr h ↦ inr (ground arith)
    ]
  ]
]

is_for-append :
    (uid token id : Bytes)
    → lacks b'|' uid ≡ true
    → (id == uid) ≡ false
    → is_for uid (token ++ b'|' ∷ id) ≡ false
unfolding is_for
is_for-append uid token id free e = elim (Option-cases (cut b'|' (token ++ b'|' ∷ id))) [
  | inl q ↦ rw (q, is_for) refl
  | inr ((x, y), q) ↦ elim (cut-append b'|' token id q) [
    | inl h ↦ ground arith
    | inr h ↦ ground (arith, eq_iff y uid)
  ]
]

is_for-stashed :
    (uid : Bytes) (rec : Invite) (stash : Bytes) {id : Bytes}
    → stashed rec stash ≡ some id
    → is_for uid stash ≡ (id == uid)
unfolding is_for stashed
is_for-stashed uid rec stash {id} e = elim (Option-cases (cut b'|' stash)) [
  | inl q ↦ absurd (ground arith)
  | inr ((x, y), q) ↦ ground arith
]

-- Only one of the two users is known.
pub known_other :
    (uid v : Bytes) (us : List UserRecord)
    → has_user uid us ≡ false
    → has_user v us ≡ true
    → (v == uid) ≡ false
known_other uid v us e h = ground (arith, eq_iff v uid)

-- Another id.
abbrev pub Other : Bytes → Bytes → Type 0
Other uid id = (id == uid) ≡ false

is_for-IsStash :
    (uid stash : Bytes)
    → lacks b'|' uid ≡ true
    → IsStash (Other uid) stash
    → is_for uid stash ≡ false
unfolding is_for cut
is_for-IsStash uid stash free (inl e) = rw e refl
is_for-IsStash uid stash free (inr (token, id, e, f)) = rw e (is_for-append uid token id free f)

module _ {W : WebAuthn} where
  -- No user, no credential, no login session and no pending registration of the store has the id.
  pub record IsForgotten (uid : Bytes) (s : PasskeyStore W) : Type 0 where
    pub user : has_user uid s.users ≡ false
    pub credential : any (λ c. c.user_id == uid) s.credentials ≡ false
    pub session : holds (λ (e : AuthSession). e.user_id == uid) s.auth_sessions ≡ false
    pub pending : holds (λ (p : Pending W). is_for uid p.invite_token) s.reg_sessions ≡ false

  pub owner_of-other :
      (uid id : Bytes) (cs : List (StoredCredential W))
      → (uid == []) ≡ false
      → any (λ c. c.user_id == uid) cs ≡ false
      → (owner_of W id cs == uid) ≡ false
  unfolding owner_of
  owner_of-other uid id [] e h = ground (arith, eq_iff [] uid, eq_iff uid [])
  owner_of-other uid id (c ∷ cs) e h = ground (arith, owner_of-other uid id cs e)

  any-replace_credential :
      (p : Bytes → Bool) (id : Bytes) (c : W.Credential) (now : ℕ) (cs : List (StoredCredential W))
      → any (λ (k : StoredCredential W). p k.user_id) (replace_credential W id c now cs)
        ≡ any (λ (k : StoredCredential W). p k.user_id) cs
  unfolding replace_credential
  any-replace_credential p id c now [] = refl
  any-replace_credential p id c now (e ∷ es) = ground (arith, any-replace_credential p id c now es)

  pending_other :
      (uid : Bytes) (s : PasskeyStore W) (sid : Bytes) (rec : Invite) (now : ℕ) {d : W.SessionData}
      {stash id : Bytes}
      → holds (λ (p : Pending W). is_for uid p.invite_token) s.reg_sessions ≡ false
      → (consume_registration W s sid now).1 ≡ some (d, stash)
      → stashed rec stash ≡ some id
      → (id == uid) ≡ false
  unfolding consume_registration
  pending_other uid s sid rec now {d} {stash} {id} h p q =
      elim (Option-cases (lookup sid s.reg_sessions)) [
        | inl e ↦ absurd (ground arith)
        | inr (k, e) ↦
            let same : k.invite_token ≡ stash = ground arith in
            let apart =
              holds-lookup (λ (p : Pending W). is_for uid p.invite_token) sid s.reg_sessions h e in
            ground (arith, same, apart, is_for-stashed uid rec stash q)
      ]

  reads-IsForgotten :
      (uid : Bytes) (s : PasskeyStore W) (sid : Bytes) (now : ℕ)
      → IsForgotten uid s
      → IsForgotten uid (session_user W s sid now).0
  unfolding session_user
  reads-IsForgotten uid s sid now v =
      let erased =
        holds-erase (λ (e : AuthSession). e.user_id == uid) sid s.auth_sessions v.session in
      record {
        user = ground (arith, v.user);
        credential = ground (arith, v.credential);
        session = ground (arith, v.session, erased);
        pending = ground (arith, v.pending);
      }

  -- With another id for every new user, a call on the store leaves it without the user.
  pub StoreCall-IsForgotten :
      (C : Ceremony W) (uid : Bytes) {s s' : PasskeyStore W}
      → (uid == []) ≡ false
      → lacks b'|' uid ≡ true
      → StoreCall C (Other uid) s s'
      → IsForgotten uid s
      → IsForgotten uid s'
  unfolding create_user delete_user add_credential delete_credential update_credential save
      credential_user_id issue_registration consume_registration issue_login consume_login
      issue_auth_session session_user revoke_session revoke_user_sessions join_user
  StoreCall-IsForgotten C uid {s} n free (creates name id now io f) v = record {
    user = any-snoc (λ u. u.id == uid) s.users _ v.user f;
    credential = v.credential;
    session = v.session;
    pending = v.pending;
  }
  StoreCall-IsForgotten C uid {s} n free (deletes id io) v =
      elim (Bool-cases (has_user id s.users)) [
        | inl p ↦ rw p (record {
          user = any-keep (λ u. u.id == uid) (λ u. not (u.id == id)) s.users v.user;
          credential =
              any-keep (λ c. c.user_id == uid) (λ c. not (c.user_id == id)) s.credentials
                v.credential;
          session = v.session;
          pending = v.pending;
        })
        | inr p ↦ rw p v
      ]
  StoreCall-IsForgotten C uid {s} n free (adds id label c now io) v =
      elim (Bool-cases (has_credential W (hex_encode (W.raw_id c)) s.credentials)) [
        | inl p ↦ rw p v
        | inr p ↦ elim (Bool-cases (has_user id s.users)) [
          | inl q ↦
              rw (p, q)
                (record {
                  user = v.user;
                  credential =
                      any-snoc (λ k. k.user_id == uid) s.credentials _ v.credential
                        (known_other uid id s.users v.user q);
                  session = v.session;
                  pending = v.pending;
                })
          | inr q ↦ rw (p, q) v
        ]
      ]
  StoreCall-IsForgotten C uid {s} n free (drops id io) v =
      elim (Bool-cases (has_credential W id s.credentials)) [
        | inl p ↦ rw p (record {
          user = v.user;
          credential =
              any-keep (λ c. c.user_id == uid) (λ c. not (c.id == id)) s.credentials v.credential;
          session = v.session;
          pending = v.pending;
        })
        | inr p ↦ rw p v
      ]
  StoreCall-IsForgotten C uid {s} n free (updates c now io) v =
      let id = hex_encode (W.raw_id c) in
      elim (Bool-cases (has_credential W id s.credentials)) [
        | inl p ↦ rw p (record {
          user = v.user;
          credential = any-replace_credential (λ k. k == uid) id c now s.credentials ∙ v.credential;
          session = v.session;
          pending = v.pending;
        })
        | inr p ↦ rw p v
      ]
  StoreCall-IsForgotten C uid {s} n free (begins d stash sid now f) v = record {
    user = v.user;
    credential = v.credential;
    session = v.session;
    pending =
        holds-insert (λ (p : Pending W). is_for uid p.invite_token) sid _ s.reg_sessions v.pending
          (is_for-IsStash uid stash free f);
  }
  StoreCall-IsForgotten C uid {s} n free (consumes sid now) v = record {
    user = v.user;
    credential = v.credential;
    session = v.session;
    pending =
        holds-erase (λ (p : Pending W). is_for uid p.invite_token) sid s.reg_sessions v.pending;
  }
  StoreCall-IsForgotten C uid {s} n free (joins rec sid id stash d now t p q) v = record {
    user =
        any-snoc (λ u. u.id == uid) s.users _ v.user
          (pending_other uid s sid rec now v.pending p q);
    credential = v.credential;
    session = v.session;
    pending =
        holds-erase (λ (p : Pending W). is_for uid p.invite_token) sid s.reg_sessions v.pending;
  }
  StoreCall-IsForgotten C uid {s} n free (begins_login d url sid now) v = record {
    user = v.user;
    credential = v.credential;
    session = v.session;
    pending = v.pending;
  }
  StoreCall-IsForgotten C uid {s} n free (consumes_login sid now) v = record {
    user = v.user;
    credential = v.credential;
    session = v.session;
    pending = v.pending;
  }
  StoreCall-IsForgotten C uid {s} n free (enters raw sid now) v = record {
    user = v.user;
    credential = v.credential;
    session =
        holds-insert (λ (e : AuthSession). e.user_id == uid) sid _ s.auth_sessions v.session
          (owner_of-other uid (hex_encode raw) s.credentials n v.credential);
    pending = v.pending;
  }
  StoreCall-IsForgotten C uid {s} n free (welcomes id sid now k) v = record {
    user = v.user;
    credential = v.credential;
    session =
        holds-insert (λ (e : AuthSession). e.user_id == uid) sid _ s.auth_sessions v.session
          (known_other uid id s.users v.user k);
    pending = v.pending;
  }
  StoreCall-IsForgotten C uid {s} n free (reads sid now) v = reads-IsForgotten uid s sid now v
  StoreCall-IsForgotten C uid {s} n free (leaves sid) v = record {
    user = v.user;
    credential = v.credential;
    session = holds-erase (λ (e : AuthSession). e.user_id == uid) sid s.auth_sessions v.session;
    pending = v.pending;
  }
  StoreCall-IsForgotten C uid {s} n free (ends id) v = record {
    user = v.user;
    credential = v.credential;
    session =
        any-keep (λ (e : Bytes × AuthSession). e.1.user_id == uid)
          (λ (e : Bytes × AuthSession). not (e.1.user_id == id)) s.auth_sessions v.session;
    pending = v.pending;
  }
