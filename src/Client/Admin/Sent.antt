-- ===== src/Client/Admin/Sent.antt =====
-- What the subcommands of cmd/mygrok/admin.go for address rules send.
use mygrok.Base.{
  ◌≡◌, refl, sym, Bool, true, false, ◌⊎◌, inl, inr, List, [], ◌∷◌, none, some, Bytes, codes, ◌==◌,
  eq_iff, has_prefix, arith, Bool-cases, Option-cases,
}
use mygrok.Base.Error.{ok}
use mygrok.Base.Dict.{Dict, lookup, insert}
use mygrok.Server.Acl.Edit.{Side, allow, block}
use mygrok.Client.Args.{split_args}
use mygrok.Client.Admin.{AdminFlags, Cli, Post, value_of, mutate, command_of, cmd_admin}
use mygrok.Client.Admin.Commands.{rules_path, rules_form, cmd_admin_mutate, pair}

-- What the subcommand makes of its arguments.
pub record Intent (X : Cli) (list op : Bytes) (args : List Bytes) (post : Post) : Type 0 where
  pub scope : Bytes
  pub value : Bytes
  pub flags : AdminFlags
  pub two : (split_args args).0 ≡ scope ∷ value ∷ []
  pub parsed : X.parse_flags (split_args args).1 ≡ some flags
  pub path : post.path ≡ rules_path X scope
  pub form : post.form ≡ rules_form X list op value flags.note

pair-cases : (l : List Bytes) → (pair l ≡ none) ⊎ ((a : Bytes) × (b : Bytes) × (l ≡ a ∷ b ∷ []))
pair-cases [] = inl refl
pair-cases (a ∷ []) = inl refl
pair-cases (a ∷ b ∷ []) = inr (a, b, refl)
pair-cases (a ∷ b ∷ c ∷ l) = inl refl

pub cmd_admin_mutate-Intent :
    (X : Cli) (list op : Bytes) (args : List Bytes) {post : Post}
    → cmd_admin_mutate X list op args ≡ ok post
    → Intent X list op args post
unfolding cmd_admin_mutate
cmd_admin_mutate-Intent X list op args {post} e =
    elim (Option-cases (X.parse_flags (split_args args).1)) [
      | inl p ↦ absurd (ground arith)
      | inr (f, p) ↦ elim (pair-cases (split_args args).0) [
        | inl q ↦ absurd (ground arith)
        | inr (scope, value, q) ↦ record {
          scope = scope;
          value = value;
          flags = f;
          two = q;
          parsed = p;
          path = ground arith;
          form = ground arith;
        }
      ]
    ]

-- The verbs for a list, to add to it or to remove from it, and the texts that go to the server.
abbrev pub verb_for : Side → Bool → Bytes
verb_for allow true = codes "allow"
verb_for allow false = codes "unallow"
verb_for block true = codes "block"
verb_for block false = codes "unblock"

abbrev pub list_for : Side → Bytes
list_for allow = codes "allow"
list_for block = codes "block"

abbrev pub op_for : Bool → Bytes
op_for true = codes "add"
op_for false = codes "remove"

-- What a verb means.
pub record Means (verb list op : Bytes) : Type 0 where
  pub side : Side
  pub adding : Bool
  pub spelt : verb ≡ verb_for side adding
  pub list_is : list ≡ list_for side
  pub op_is : op ≡ op_for adding

command_of-mutate :
    (verb : Bytes) {list op : Bytes} → command_of verb ≡ mutate list op → Means verb list op
unfolding command_of
command_of-mutate verb {list} {op} e = elim (Bool-cases (verb == codes "allow")) [
  | inl p ↦ record {
    side = allow;
    adding = true;
    spelt = (eq_iff verb (codes "allow")).0 p;
    list_is = ground arith;
    op_is = ground arith;
  }
  | inr p ↦ elim (Bool-cases (verb == codes "block")) [
    | inl q ↦ record {
      side = block;
      adding = true;
      spelt = (eq_iff verb (codes "block")).0 q;
      list_is = ground arith;
      op_is = ground arith;
    }
    | inr q ↦ elim (Bool-cases (verb == codes "unallow")) [
      | inl r ↦ record {
        side = allow;
        adding = false;
        spelt = (eq_iff verb (codes "unallow")).0 r;
        list_is = ground arith;
        op_is = ground arith;
      }
      | inr r ↦ record {
        side = block;
        adding = false;
        spelt = (eq_iff verb (codes "unblock")).0 (ground arith);
        list_is = ground arith;
        op_is = ground arith;
      }
    ]
  ]
]

pub cmd_admin-mutate :
    (verb : Bytes) (args : List Bytes) {list op : Bytes}
    → cmd_admin (verb ∷ args) ≡ (mutate list op, args)
    → Means verb list op
unfolding cmd_admin
cmd_admin-mutate verb args {list} {op} e = elim (Bool-cases (has_prefix verb (codes "-"))) [
  | inl p ↦ absurd (ground arith)
  | inr p ↦ command_of-mutate verb {list = list} {op = op} (ground arith)
]

-- The fields that the server reads.
pub record Fields (form : Dict Bytes) (list op value note : Bytes) : Type 0 where
  pub a_list : value_of form (codes "list") ≡ list
  pub an_op : value_of form (codes "op") ≡ op
  pub a_value : value_of form (codes "value") ≡ value
  pub a_note : op ≡ codes "add" → value_of form (codes "note") ≡ note

pub rules_form-Fields :
    (X : Cli) (list op value note : Bytes)
    → Fields (rules_form X list op value note) list op value note
unfolding rules_form value_of lookup insert ◌==◌
rules_form-Fields X list op value note = elim (Bool-cases (op == codes "add")) [
  | inl a ↦ elim (Bool-cases (note == [])) [
    | inl n ↦ record {
      a_list = rw (a, n) refl;
      an_op = rw (a, n) refl;
      a_value = rw (a, n) refl;
      a_note = λ e. rw (a, n) (sym ((eq_iff note []).0 n));
    }
    | inr n ↦ record {
      a_list = rw (a, n) refl;
      an_op = rw (a, n) refl;
      a_value = rw (a, n) refl;
      a_note = λ e. rw (a, n) refl;
    }
  ]
  | inr a ↦ record {
    a_list = rw a refl;
    an_op = rw a refl;
    a_value = rw a refl;
    a_note = λ e. absurd (ground arith);
  }
]
