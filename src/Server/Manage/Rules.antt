-- ===== src/Server/Manage/Rules.antt =====
-- The handlers of the address rules, of cmd/mygrokd/admin.go: `serveAdminIPs`,
-- `serveAdminTunnelIPs` and `applyACLMutation`.
use mygrok.Base.{
  Bool, false, not, ◌&&◌, Option, none, some, [], Bytes, codes, ◌==◌, if◌then◌else◌, trim_space,
}
use mygrok.Base.Error.{ok, err}
use mygrok.Server.Names.{looks_like_subdomain}
use mygrok.Server.Acl.{Net, Acl}
use mygrok.Server.Acl.Edit.{add, remove}
use mygrok.Server.Passkeys.{WebAuthn}
use mygrok.Server.Admin.{GoLib, Flags, issue, wants_json, read_post_form}
use mygrok.Server.Manage.{
  Host, Request, Moment, Problem, Reply, in_form, in_acl, unknown_op, invalid_subdomain, login,
  mutated, shown, failed, as_admin,
}

-- The key of a magic link is the token.
unfoldable pub magic_key : GoLib → Flags → Request → Bool
magic_key G cfg req = if req.raw_query == [] then false else elim (G.parse_query req.raw_query) [
  | none ↦ false
  | some q ↦
      not (q (codes "key") == [])
      && (not (cfg.auth_token == []) && (q (codes "key") == cfg.auth_token))
]

module _ {N : Net} (G : GoLib) where
  -- The change that a parsed form asks for.
  unfoldable pub acl_form : Acl N → Bytes → (Bytes → Bytes) → Moment → Acl N × Option Problem
  acl_form acl scope form t =
      let list = form (codes "list") in
      let op = form (codes "op") in
      let val = trim_space (form (codes "value")) in
      let (added, e) = add N acl scope list val (form (codes "note")) (t.io 0) in
      let (removed, d) = remove N acl scope list val (t.io 0) in
      if op == codes "add"
      then (added, elim e [ none ↦ none | some p ↦ some (in_acl p) ])
      else if op == codes "remove"
      then (removed, elim d [ none ↦ none | some p ↦ some (in_acl p) ])
      else (acl, some (unknown_op op))

  unfoldable pub apply_acl_mutation : Acl N → Bytes → Request → Moment → Acl N × Option Problem
  apply_acl_mutation acl scope req t = elim (read_post_form G req.raw req.left) [
    | err e ↦ (acl, some (in_form e))
    | ok form ↦ acl_form acl scope form t
  ]

module _ {N : Net} {W : WebAuthn} (G : GoLib) (cfg : Flags) where
  mutate_rules : Host N W → Bytes → Request → Moment → Host N W × Reply
  mutate_rules h scope req t =
      let (acl, problem) = apply_acl_mutation G h.acl scope req t in
      if req.method == codes "POST"
      then (record h { acl = acl }, mutated (wants_json req.raw) problem)
      else (h, shown (wants_json req.raw))

  unfoldable pub serve_admin_ips : Host N W → Request → Moment → Host N W × Reply
  unfolding mutate_rules
  serve_admin_ips h req t =
      let (sessions, sid) = issue h.admin t.random_id t.clock_id t.now in
      if magic_key G cfg req
      then (record h { admin = sessions }, login (codes "/admin/ips") sid)
      else as_admin G cfg h req t (λ h'. mutate_rules h' (codes "global") req t)

  unfoldable pub serve_admin_tunnel_ips : Host N W → Bytes → Request → Moment → Host N W × Reply
  unfolding mutate_rules
  serve_admin_tunnel_ips h sub req t = as_admin G cfg h req t (λ h'.
      if not (looks_like_subdomain sub)
      then (h', failed invalid_subdomain)
      else mutate_rules h' sub req t)
