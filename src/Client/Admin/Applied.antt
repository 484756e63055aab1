-- ===== src/Client/Admin/Applied.antt =====
-- The subcommands of cmd/mygrok/admin.go for address rules together with the handlers of
-- cmd/mygrokd/admin.go that serve them.
use mygrok.Base.{
  ◌≡◌, refl, sym, ap, ◌∙◌, ◌⊎◌, inl, inr, Bool, true, false, ◌||◌, List, [], ◌∷◌, Option, none,
  some, Bytes, codes, ◌==◌, eq_iff, if◌then◌else◌, has_prefix, trim_space, arith, Bool-cases,
  Option-cases,
}
use mygrok.Base.Error.{ok}
use mygrok.Base.Dict.{Dict}
use mygrok.Server.Disk.{Io}
use mygrok.Server.Names.{looks_like_subdomain}
use mygrok.Server.Acl.{Net, Acl, AclError}
use mygrok.Server.Acl.Edit.{Side, allow, block, bucket_slice, add, remove}
use mygrok.Server.Acl.Ruled.{IsRuled, add-IsRuled, remove-IsRuled}
use mygrok.Server.Passkeys.{WebAuthn}
use mygrok.Server.Admin.{GoLib, Flags, wants_json, read_post_form, admin_auth_ok, same_origin_post}
use mygrok.Server.Manage.{
  Host, Request, Moment, Problem, Reply, in_acl, invalid_subdomain, mutated, failed,
}
use mygrok.Server.Manage.Ceremony.{Ceremony}
use mygrok.Server.Manage.Rules.{
  magic_key, acl_form, apply_acl_mutation, serve_admin_ips, serve_admin_tunnel_ips,
}
use mygrok.Server.Manage.Dispatch.{
  admin_page, ips, tunnel_ips, request_of, page_of, serve_admin_page, serve_page, serve_admin,
}
use mygrok.Client.Args.{split_args}
use mygrok.Client.Admin.{AdminFlags, Cli, Post, value_of, mutate, cmd_admin}
use mygrok.Client.Admin.Sent.{
  cmd_admin_mutate-Intent, cmd_admin-mutate, Fields, rules_form-Fields, verb_for, list_for, op_for,
}
use mygrok.Client.Admin.Commands.{rules_path, cmd_admin_mutate}

page_of-rules_path :
    (X : Cli) (scope : Bytes)
    → page_of (rules_path X scope)
      ≡ (if scope == codes "global" then admin_page ips else admin_page (tunnel_ips scope))
unfolding rules_path page_of
page_of-rules_path X scope = elim (Bool-cases (scope == codes "global")) [
  | inl g ↦ rw g (unfold has_prefix ◌==◌ in refl)
  | inr n ↦ rw n (unfold has_prefix ◌==◌ in refl)
]

known : (side : Side) → bucket_slice (list_for side) ≡ some side
unfolding bucket_slice ◌==◌
known allow = refl
known block = refl

-- The change that the server makes for the subcommand.
abbrev ruling :
    {N : Net} → Acl N → Bytes → Bytes → Bytes → Bytes → Bytes → Io → Acl N × Option AclError
ruling {N} acl scope list op value note io =
    if op == codes "add"
    then add N acl scope list value note io
    else remove N acl scope list value io

abbrev shown_problem : Option AclError → Option Problem
shown_problem none = none
shown_problem (some e) = some (in_acl e)

acl_form-ruling :
    {N : Net} (G : GoLib) (acl : Acl N) (scope : Bytes) {fields : Dict Bytes}
    {list op value note : Bytes} (form : Bytes → Bytes) (t : Moment)
    → ((k : Bytes) → form k ≡ value_of fields k)
    → Fields fields list op value note
    → (adding : Bool) → op ≡ op_for adding
    → acl_form G acl scope form t ≡ (
      (ruling acl scope list op (trim_space value) note (t.io 0)).0,
      shown_problem (ruling acl scope list op (trim_space value) note (t.io 0)).1,
    )
unfolding acl_form ◌==◌
acl_form-ruling {N} G acl scope {fields} {list} {op} {value} {note} form t read w true a =
    let l = read (codes "list") ∙ w.a_list in
    let o = read (codes "op") ∙ w.an_op in
    let v = read (codes "value") ∙ w.a_value in
    let n = read (codes "note") ∙ w.a_note a in
    rw (l, o, v, n, a)
      (elim (Option-cases (add N acl scope list (trim_space value) note (t.io 0)).1) [
        | inl p ↦ rw p refl
        | inr (e, p) ↦ rw p refl
      ])
acl_form-ruling {N} G acl scope {fields} {list} {op} {value} {note} form t read w false a =
    let l = read (codes "list") ∙ w.a_list in
    let o = read (codes "op") ∙ w.an_op in
    let v = read (codes "value") ∙ w.a_value in
    rw (l, o, v, a)
      (elim (Option-cases (remove N acl scope list (trim_space value) (t.io 0)).1) [
        | inl p ↦ rw p refl
        | inr (e, p) ↦ rw p refl
      ])

magic_key_absent :
    (G : GoLib) (cfg : Flags) (req : Request) → req.raw_query ≡ [] → magic_key G cfg req ≡ false
unfolding magic_key ◌==◌
magic_key_absent G cfg req e = rw e refl

ruling-IsRuled :
    {N : Net} (l : Acl N) (scope value note : Bytes) {list op : Bytes} (io : Io) (side : Side)
    (adding : Bool)
    → list ≡ list_for side
    → op ≡ op_for adding
    → ((scope == codes "global") || looks_like_subdomain scope) ≡ true
    → IsRuled l side adding scope value note (ruling l scope list op value note io)
ruling-IsRuled l scope value note {list} io side true p q named =
    rw q (unfold ◌==◌ in add-IsRuled l scope list value note io (ground arith) (rw p (known side)))
ruling-IsRuled l scope value note {list} io side false p q named =
    rw q
      (unfold ◌==◌ in remove-IsRuled l scope list value note io (ground arith) (rw p (known side)))

module _ {N : Net} {W : WebAuthn} (G : GoLib) (C : Ceremony W) (cfg : Flags) where
  -- The bytes on the connection are the request `post` of an admin: what net/http sends for a form
  -- with basic authentication, and the server reads as such.
  pub record IsDelivered (h : Host N W) (raw left : Bytes) (t : Moment) (post : Post) : Type 0 where
    pub posted : (request_of raw left).method ≡ codes "POST"
    pub at_path : (request_of raw left).path ≡ post.path
    pub no_query : (request_of raw left).raw_query ≡ []
    pub same_site : same_origin_post G raw cfg.public_host ≡ true
    pub form : Bytes → Bytes
    pub body : read_post_form G (request_of raw left).raw (request_of raw left).left ≡ ok form
    pub fields : (k : Bytes) → form k ≡ value_of post.form k
    pub by_admin : (admin_auth_ok G cfg h.admin (request_of raw left).raw t.now).1 ≡ true

  -- The answer of the server to the subcommand for a scope.
  abbrev outcome : Host N W → Bytes → Moment → Bytes → Acl N × Option AclError → Host N W × Reply
  outcome h raw t scope (acl, e) =
      let sessions = (admin_auth_ok G cfg h.admin raw t.now).0 in
      if (scope == codes "global") || looks_like_subdomain scope
      then (record h { acl = acl; admin = sessions }, mutated (wants_json raw) (shown_problem e))
      else (record h { admin = sessions }, failed invalid_subdomain)

  apply_acl_mutation_read :
      (acl : Acl N) (scope : Bytes) (req : Request) (t : Moment) {form : Bytes → Bytes}
      → read_post_form G req.raw req.left ≡ ok form
      → apply_acl_mutation G acl scope req t ≡ acl_form G acl scope form t
  unfolding apply_acl_mutation
  apply_acl_mutation_read acl scope req t e = rw (apply_acl_mutation, e) refl

  serve_scope :
      (h : Host N W) (raw left : Bytes) (t : Moment) (scope : Bytes) {post : Post} {acl : Acl N}
      (e : Option AclError)
      → (d : IsDelivered h raw left t post)
      → acl_form G h.acl scope d.form t ≡ (acl, shown_problem e)
      → serve_page G C cfg
          (if scope == codes "global" then admin_page ips else admin_page (tunnel_ips scope))
          h
          (request_of raw left)
          t
        ≡ outcome h (request_of raw left).raw t scope (acl, e)
  unfolding serve_page serve_admin_page serve_admin_ips serve_admin_tunnel_ips ◌==◌
  serve_scope h raw left t scope {acl = acl} e d edit =
      let req = request_of raw left in
      let key = magic_key_absent G cfg req d.no_query in
      let change : apply_acl_mutation G h.acl scope req t ≡ (acl, shown_problem e) =
        apply_acl_mutation_read h.acl scope req t d.body ∙ edit in
      elim (Bool-cases (scope == codes "global")) [
        | inl g ↦
            let same : scope ≡ codes "global" = (eq_iff scope (codes "global")).0 g in
            let change' : apply_acl_mutation G h.acl (codes "global") req t
                ≡ (acl, shown_problem e) =
              ap (λ x. apply_acl_mutation G h.acl x req t) (sym same) ∙ change in
            rw (g, key, change', d.by_admin, d.posted) refl
        | inr n ↦ elim (Bool-cases (looks_like_subdomain scope)) [
          | inl v ↦ rw (n, v, change, d.by_admin, d.posted) refl
          | inr v ↦ rw (n, v, d.by_admin) refl
        ]
      ]

  serve_admin_same_site :
      (h : Host N W) (raw left : Bytes) (t : Moment)
      → same_origin_post G raw cfg.public_host ≡ true
      → serve_admin G C cfg h raw left t
        ≡ serve_page G C cfg (page_of (request_of raw left).path) h (request_of raw left) t
  unfolding serve_admin
  serve_admin_same_site h raw left t e = ground arith

  -- What the server did for the subcommand, in terms of its arguments.
  pub record IsApplied (X : Cli) (verb : Bytes) (args : List Bytes) (h : Host N W)
      (raw left : Bytes) (t : Moment) : Type 0 where
    pub side : Side
    pub adding : Bool
    pub spelt : verb ≡ verb_for side adding
    pub scope : Bytes
    pub value : Bytes
    pub flags : AdminFlags
    pub named : (split_args args).0 ≡ scope ∷ value ∷ []
    pub parsed : X.parse_flags (split_args args).1 ≡ some flags
    pub result : Acl N × Option AclError
    pub ruled :
        (((scope == codes "global") || looks_like_subdomain scope) ≡ false)
        ⊎ IsRuled h.acl side adding scope (trim_space value) flags.note result
    pub served :
        serve_admin G C cfg h raw left t ≡ outcome h (request_of raw left).raw t scope result

  -- A subcommand for address rules is one of "allow", "block", "unallow" and "unblock", and one that
  -- sends a request has exactly two arguments, a scope and an address, beside its flags. When the
  -- server reads the request as sent, as one of an admin's from no other site, then "allow" and
  -- "block" put the address with the note at the end of the allow list and of the block list of that
  -- very scope, and "unallow" and "unblock" take it off that list. No other list changes, and nothing
  -- else but the admin sessions. An address that does not parse, one to add that is there already and
  -- one to remove that is not there change no rule, and the answer is an error; otherwise the answer
  -- is one only if the file cannot be written. A scope that is neither "global" nor a subdomain for
  -- the server changes no rule.
  pub cmd_admin_mutate-IsApplied :
      (X : Cli) (verb : Bytes) {list op : Bytes} (args : List Bytes) (h : Host N W)
      (raw left : Bytes) (t : Moment) {post : Post}
      → cmd_admin (verb ∷ args) ≡ (mutate list op, args)
      → cmd_admin_mutate X list op args ≡ ok post
      → IsDelivered h raw left t post
      → IsApplied X verb args h raw left t
  cmd_admin_mutate-IsApplied X verb {list} {op} args h raw left t {post} chosen sent d =
      let i = cmd_admin_mutate-Intent X list op args sent in
      let result = ruling h.acl i.scope list op (trim_space i.value) i.flags.note (t.io 0) in
      let m = cmd_admin-mutate verb args chosen in
      let edit =
        acl_form-ruling G h.acl i.scope d.form t (λ k. d.fields k ∙ ap (λ f. value_of f k) i.form)
          (rules_form-Fields X list op i.value i.flags.note) m.adding m.op_is in
      let page = ap page_of (d.at_path ∙ i.path) ∙ page_of-rules_path X i.scope in
      record {
        side = m.side;
        adding = m.adding;
        spelt = m.spelt;
        scope = i.scope;
        value = i.value;
        flags = i.flags;
        named = i.two;
        parsed = i.parsed;
        result = result;
        ruled = elim (Bool-cases ((i.scope == codes "global") || looks_like_subdomain i.scope)) [
          | inl named ↦ inr (
              ruling-IsRuled h.acl i.scope (trim_space i.value) i.flags.note (t.io 0) m.side
                m.adding m.list_is m.op_is named)
          | inr n ↦ inl n
        ];
        served =
            serve_admin_same_site h raw left t d.same_site
            ∙ (ap (λ p. serve_page G C cfg p h (request_of raw left) t) page
                ∙ serve_scope h raw left t i.scope result.1 d edit);
      }
