-- ===== src/Client/Admin/Commands.antt =====
-- The subcommands that change the server: the arguments and the request of each. The answers of the
-- server are arguments.
use mygrok.Base.{
  not, ◌&&◌, ◌||◌, List, [], ◌∷◌, ◌++◌, Option, none, some, Bytes, codes, ◌==◌, ltb, if◌then◌else◌,
  length, contains,
}
use mygrok.Base.Error.{Result, ok, err}
use mygrok.Base.Dict.{Dict, insert}
use mygrok.Client.Args.{split_args}
use mygrok.Client.Config.{require_server}
use mygrok.Client.Names.{looks_like_subdomain}
use mygrok.Client.Admin.{
  AdminFlags, Cli, Fault, bad_flags, usage, invalid_scope, invalid_subdomain, no_token, no_server,
  AdminClient, Post, ApiUser,
}

-- The one argument, or the two, that a subcommand wants.
abbrev sole : List Bytes → Option Bytes
sole [] = none
sole (a ∷ []) = some a
sole (a ∷ b ∷ rest) = none

abbrev pub pair : List Bytes → Option (Bytes × Bytes)
pair [] = none
pair (a ∷ []) = none
pair (a ∷ b ∷ []) = some (a, b)
pair (a ∷ b ∷ c ∷ rest) = none

module _ (X : Cli) where
  open X use {parse_flags, host_of, equal_fold}

  unfoldable pub new_admin_client : Bytes → Bytes → Result Fault AdminClient
  new_admin_client server auth = if auth == [] then err no_token else elim (require_server server) [
    | none ↦ err no_server
    | some s ↦ ok (record { base_url = codes "https://" ++ host_of s; auth = auth })
  ]

  abbrev post_to : AdminFlags → Bytes → Dict Bytes → Result Fault Post
  post_to f path form = elim (new_admin_client f.server f.auth) [
    | err e ↦ err e
    | ok c ↦ ok (record { client = c; path = path; form = form })
  ]

  -- The flags, and the only positional argument.
  with_one : List Bytes → (AdminFlags → Bytes → Result Fault Post) → Result Fault Post
  with_one args command =
      let (positional, flags) = split_args args in
      elim (parse_flags flags) [
        | none ↦ err bad_flags
        | some f ↦ elim (sole positional) [ none ↦ err usage | some a ↦ command f a ]
      ]

  -- The flags, and the two positional arguments.
  with_two : List Bytes → (AdminFlags → Bytes → Bytes → Result Fault Post) → Result Fault Post
  with_two args command =
      let (positional, flags) = split_args args in
      elim (parse_flags flags) [
        | none ↦ err bad_flags
        | some f ↦ elim (pair positional) [ none ↦ err usage | some (a, b) ↦ command f a b ]
      ]

  unfoldable pub rules_path : Bytes → Bytes
  rules_path scope =
      if scope == codes "global" then codes "/admin/ips" else codes "/admin/ips/" ++ scope

  unfoldable pub rules_form : Bytes → Bytes → Bytes → Bytes → Dict Bytes
  rules_form list op value note =
      let form =
        insert (codes "value") value (insert (codes "op") op (insert (codes "list") list [])) in
      if (op == codes "add") && not (note == []) then insert (codes "note") note form else form

  rules_post : Bytes → Bytes → AdminFlags → Bytes → Bytes → Result Fault Post
  unfolding rules_path rules_form
  rules_post list op f scope value =
      if not (scope == codes "global") && not (looks_like_subdomain scope)
      then err invalid_scope
      else post_to f (rules_path scope) (rules_form list op value f.note)

  unfoldable pub cmd_admin_mutate : Bytes → Bytes → List Bytes → Result Fault Post
  unfolding rules_post with_two
  cmd_admin_mutate list op args = with_two args (rules_post list op)

  unfoldable cmd_admin_lock_toggle : Bytes → List Bytes → Result Fault Post
  unfolding with_one
  cmd_admin_lock_toggle op args = with_one args (λ f sub.
      if not (looks_like_subdomain sub)
      then err invalid_subdomain
      else post_to f (codes "/admin/locks") (insert (codes "op") op (insert (codes "sub") sub [])))

  unfoldable cmd_admin_passkeys_delete : List Bytes → Result Fault Post
  unfolding with_one
  cmd_admin_passkeys_delete args =
      with_one args (λ f id. post_to f (codes "/admin/passkeys/delete") (insert (codes "id") id []))

  unfoldable cmd_admin_invite_create : List Bytes → Result Fault Post
  unfolding with_one
  cmd_admin_invite_create args =
      with_one args
        (λ f name. post_to f (codes "/admin/invites/create") (insert (codes "name") name []))

  unfoldable cmd_admin_invite_revoke : List Bytes → Result Fault Post
  unfolding with_one
  cmd_admin_invite_revoke args = with_one args (λ f token.
      post_to f (codes "/admin/invites")
        (insert (codes "token") token (insert (codes "op") (codes "revoke") [])))

  first_user : List ApiUser → Bytes → Bytes
  first_user [] ident = ident
  first_user (u ∷ us) ident =
      let rest = first_user us ident in
      if equal_fold u.name ident || (u.id == ident) then u.id else rest

  -- `listed` is the server's answer, or none for an error.
  unfoldable resolve_user_id : Option (List ApiUser) → Bytes → Bytes
  unfolding first_user
  resolve_user_id listed ident =
      if contains ident (codes "/") || ltb 32 (length ident)
      then ident
      else elim listed [ none ↦ ident | some us ↦ first_user us ident ]

  unfoldable cmd_admin_users_delete : Option (List ApiUser) → List Bytes → Result Fault Post
  unfolding with_one
  cmd_admin_users_delete listed args = with_one args (λ f uid.
      post_to f (codes "/admin/users/delete")
        (insert (codes "user_id") (resolve_user_id listed uid) []))

  unfoldable cmd_admin_grant_revoke : Option (List ApiUser) → Bytes → List Bytes → Result Fault Post
  unfolding with_two
  cmd_admin_grant_revoke listed op args = with_two args (λ f sub uid.
      post_to f (codes "/admin/grants") (
        insert (codes "op") op
          (insert (codes "user_id") (resolve_user_id listed uid) (insert (codes "sub") sub []))))
