-- ===== src/Server/Passkeys/Store.antt =====
-- The users and credentials of cmd/mygrokd/passkeys.go.
use mygrok.Base.{
  ℕ, Bool, true, false, not, ◌||◌, List, [], ◌∷◌, ◌++◌, Option, none, some, Bytes, ◌==◌, leb,
  if◌then◌else◌, any, keep, trim_space, to_lower, hex_encode,
}
use mygrok.Server.Disk.{Io, save_file}
use mygrok.Server.Passkeys.{
  WebAuthn, UserRecord, StoredCredential, PasskeyFile, PasskeyStore, PasskeyError, no_user,
  no_credential, unknown_user, already_registered, not_saved, legacy_user_name,
}

-- The user with an id: the loops of `FindUser` and `userByID`.
unfoldable pub find_id : Bytes → List UserRecord → Option UserRecord
find_id id [] = none
find_id id (u ∷ us) = if u.id == id then some u else find_id id us

abbrev pub has_user : Bytes → List UserRecord → Bool
has_user id = any (λ u. u.id == id)

find_name : Bytes → List UserRecord → Option UserRecord
find_name target [] = none
find_name target (u ∷ us) = if to_lower u.name == target then some u else find_name target us

-- Insertion by creation time, for sort.Slice.
unfoldable pub insert_user : UserRecord → List UserRecord → List UserRecord
insert_user u [] = u ∷ []
insert_user u (v ∷ vs) = if leb u.created v.created then u ∷ v ∷ vs else v ∷ insert_user u vs

unfoldable pub sort_users : List UserRecord → List UserRecord
unfolding insert_user
sort_users [] = []
sort_users (u ∷ us) = insert_user u (sort_users us)

module _ (W : WebAuthn) where
  open W use {Credential, raw_id, decode}

  unfoldable pub save : PasskeyStore W → Io → PasskeyStore W × Option PasskeyError
  save s io =
      let f : PasskeyFile W = record {
        users = s.users;
        credentials = s.credentials;
        legacy_user_id = [];
      } in
      let (disk, e) = save_file s.path io f s.disk in
      (record s { disk = disk }, elim e [ none ↦ none | some d ↦ some (not_saved d) ])

  adopt : Bytes → List (StoredCredential W) → List (StoredCredential W)
  adopt legacy [] = []
  adopt legacy (c ∷ cs) =
      (if c.user_id == [] then record c { user_id = legacy } else c) ∷ adopt legacy cs

  -- `newPasskeyStore`: `none` is a file that does not exist; `now` is read by the migration.
  unfoldable pub new_passkey_store : Bytes → Option (PasskeyFile W) → ℕ → Io → PasskeyStore W
  unfolding adopt
  new_passkey_store path none now io = record {
    path = path;
    users = [];
    credentials = [];
    reg_sessions = [];
    login_sessions = [];
    auth_sessions = [];
    disk = none;
  }
  new_passkey_store path (some f) now io =
      let s : PasskeyStore W = record {
        path = path;
        users = f.users;
        credentials = f.credentials;
        reg_sessions = [];
        login_sessions = [];
        auth_sessions = [];
        disk = some f;
      } in
      let owner : UserRecord = record {
        id = f.legacy_user_id;
        name = legacy_user_name;
        created = now;
      } in
      if f.legacy_user_id == []
      then s
      else (save
          (record s {
            users = if has_user f.legacy_user_id f.users then f.users else f.users ++ owner ∷ [];
            credentials = adopt f.legacy_user_id f.credentials;
          })
          io).0

  unfoldable pub create_user : PasskeyStore W → Bytes → Bytes → ℕ → Io → PasskeyStore W × UserRecord
  create_user s name id now io =
      let rec : UserRecord = record { id = id; name = trim_space name; created = now } in
      ((save (record s { users = s.users ++ rec ∷ [] }) io).0, rec)

  unfoldable pub delete_user : PasskeyStore W → Bytes → Io → PasskeyStore W × Option PasskeyError
  delete_user s user_id io =
      if has_user user_id s.users
      then save
          (record s {
            users = keep (λ u. not (u.id == user_id)) s.users;
            credentials = keep (λ c. not (c.user_id == user_id)) s.credentials;
          })
          io
      else (s, some (no_user user_id))

  unfoldable pub list_users : PasskeyStore W → List UserRecord
  unfolding sort_users
  list_users s = sort_users s.users

  unfoldable pub find_user : PasskeyStore W → Bytes → Option UserRecord
  find_user s user_id = find_id user_id s.users

  unfoldable pub find_user_by_name : PasskeyStore W → Bytes → Option UserRecord
  unfolding find_name
  find_user_by_name s name = find_name (to_lower (trim_space name)) s.users

  unfoldable pub has_credentials : PasskeyStore W → Bool
  has_credentials s = elim s.credentials [ [] ↦ false | c ∷ cs ↦ true ]

  unfoldable pub insert_credential :
      StoredCredential W → List (StoredCredential W) → List (StoredCredential W)
  insert_credential c [] = c ∷ []
  insert_credential c (d ∷ ds) =
      if leb c.created d.created then c ∷ d ∷ ds else d ∷ insert_credential c ds

  unfoldable pub sort_credentials : List (StoredCredential W) → List (StoredCredential W)
  unfolding insert_credential
  sort_credentials [] = []
  sort_credentials (c ∷ cs) = insert_credential c (sort_credentials cs)

  -- An empty user id lists the credentials of all users.
  unfoldable pub list_credentials : PasskeyStore W → Bytes → List (StoredCredential W)
  unfolding sort_credentials
  list_credentials s user_id =
      sort_credentials (keep (λ c. (user_id == []) || (c.user_id == user_id)) s.credentials)

  abbrev pub has_credential : Bytes → List (StoredCredential W) → Bool
  has_credential id = any (λ c. c.id == id)

  unfoldable pub add_credential :
      PasskeyStore W → Bytes → Bytes → Credential → ℕ → Io → PasskeyStore W × Option PasskeyError
  add_credential s user_id label c now io =
      let id = hex_encode (raw_id c) in
      let stored : StoredCredential W = record {
        id = id;
        user_id = user_id;
        label = label;
        created = now;
        last_used = 0;
        credential = c;
      } in
      if has_credential id s.credentials
      then (s, some already_registered)
      else if has_user user_id s.users
      then save (record s { credentials = s.credentials ++ stored ∷ [] }) io
      else (s, some (unknown_user user_id))

  unfoldable pub delete_credential :
      PasskeyStore W → Bytes → Io → PasskeyStore W × Option PasskeyError
  delete_credential s id io =
      if has_credential id s.credentials
      then save (record s { credentials = keep (λ c. not (c.id == id)) s.credentials }) io
      else (s, some (no_credential id))

  -- The first credential with the id takes the new value and the time.
  unfoldable pub replace_credential :
      Bytes → Credential → ℕ → List (StoredCredential W) → List (StoredCredential W)
  replace_credential id c now [] = []
  replace_credential id c now (e ∷ es) =
      if e.id == id
      then record e { credential = c; last_used = now } ∷ es
      else e ∷ replace_credential id c now es

  unfoldable pub update_credential : PasskeyStore W → Credential → ℕ → Io → PasskeyStore W
  update_credential s c now io =
      let id = hex_encode (raw_id c) in
      if has_credential id s.credentials
      then (save (record s { credentials = replace_credential id c now s.credentials }) io).0
      else s

  unfoldable pub owner_of : Bytes → List (StoredCredential W) → Bytes
  owner_of id [] = []
  owner_of id (c ∷ cs) = if c.id == id then c.user_id else owner_of id cs

  -- No owner is the empty id.
  unfoldable pub credential_user_id : PasskeyStore W → Bytes → Bytes
  unfolding owner_of
  credential_user_id s raw = owner_of (hex_encode raw) s.credentials

  own_credentials : Bytes → List (StoredCredential W) → List Credential
  own_credentials user_id [] = []
  own_credentials user_id (c ∷ cs) =
      let rest = own_credentials user_id cs in
      if c.user_id == user_id then c.credential ∷ rest else rest

  -- The handle, the name and the credentials of `pkUser`.
  unfoldable pub user_by_id : PasskeyStore W → Bytes → Option (Bytes × Bytes × List Credential)
  unfolding own_credentials
  user_by_id s user_id = elim (find_id user_id s.users) [
    | none ↦ none
    | some u ↦ elim (decode u.id) [
      | none ↦ none
      | some handle ↦ some (handle, u.name, own_credentials user_id s.credentials)
    ]
  ]
