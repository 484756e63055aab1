-- ===== src/Server/Invites/Once.antt =====
-- The life of an invite: `Issue`, `Lookup` and `MarkConsumed` of cmd/mygrokd/invites.go.
use mygrok.Base.{
  ℕ, ◌+◌, ◌≡◌, refl, true, false, [], none, some, Bytes, ◌==◌, eq_iff, eq_refl, ltb, if◌then◌else◌,
  trim_space, arith, Option-cases, Bool-cases, inl, inr,
}
use mygrok.Base.Error.{ok, err}
use mygrok.Base.Dict.{lookup, insert, lookup-insert, lookup-erase}
use mygrok.Server.Disk.{Io}
use mygrok.Server.Invites.{
  Invite, InviteStore, InviteError, already_used, invite, save, issue, lookup_invite, mark_consumed,
  invite_default_ttl,
}

-- An invite that was issued is found by its token for seven days, the last instant included, and
-- then no more, it has not been used, and no other token leads to anything else than before.
lookup_invite-issue :
    (s : InviteStore) (name token other : Bytes) (now then_now later : ℕ) (io : Io) {rec : Invite}
    → (issue s name token now then_now io).1 ≡ ok rec
    → (lookup_invite (issue s name token now then_now io).0 other later ≡ (
        if token == other
        then if ltb (then_now + invite_default_ttl) later then none else some rec
        else lookup_invite s other later))
      × (rec.consumed ≡ false)
unfolding issue lookup_invite save
lookup_invite-issue s name token other now then_now later io {rec} e =
    elim (Bool-cases (trim_space name == [])) [
      | inl p ↦ absurd (ground arith)
      | inr p ↦
          elim (Option-cases
            (save (record s { by_token = insert token (invite name token now then_now) s.by_token })
              io).1) [
                | inr (d, q) ↦ absurd (ground arith)
                | inl q ↦ (
                  ground (
                    arith,
                    lookup-insert token other (invite name token now then_now) s.by_token,
                    eq_iff token other,
                  ),
                  ground arith,
                )
              ]
    ]

-- An invite that could not be issued leaves nothing behind: every token leads where it led before.
-- The new token is not one in use.
issue_failed :
    (s : InviteStore) (name token other : Bytes) (now then_now later : ℕ) (io : Io)
    {d : InviteError}
    → lookup token s.by_token ≡ none
    → (issue s name token now then_now io).1 ≡ err d
    → lookup_invite (issue s name token now then_now io).0 other later ≡ lookup_invite s other later
unfolding issue lookup_invite save
issue_failed s name token other now then_now later io {d} fresh e =
    elim (Bool-cases (trim_space name == [])) [
      | inl p ↦ ground arith
      | inr p ↦
          let rec = invite name token now then_now in
          let m = insert token rec s.by_token in
          elim (Option-cases (save (record s { by_token = m }) io).1) [
            | inl q ↦ absurd (ground arith)
            | inr (d, q) ↦ ground (
              arith,
              lookup-erase token other m,
              lookup-insert token other rec s.by_token,
              eq_iff token other,
            )
          ]
    ]

pub mark_consumed_used :
    (s : InviteStore) (token user_id : Bytes) (now : ℕ) (io : Io) {rec : Invite}
    → lookup token s.by_token ≡ some rec
    → rec.consumed ≡ true
    → mark_consumed s token user_id now io ≡ (s, some already_used)
unfolding mark_consumed
mark_consumed_used s token user_id now io live used = ground arith

mark_consumed_live :
    (s : InviteStore) (token user_id : Bytes) (now : ℕ) (io : Io) {rec : Invite}
    → lookup token s.by_token ≡ some rec
    → rec.consumed ≡ false
    → (mark_consumed s token user_id now io).0.by_token
      ≡ insert token
          (record rec { consumed = true; consumed_at = now; user_id = user_id })
          s.by_token
unfolding mark_consumed save
mark_consumed_live s token user_id now io live fresh = ground arith

-- Once an invite has been marked as used, marking it again fails and changes nothing, even if the
-- file could not be written.
pub mark_consumed_once :
    (s : InviteStore) (token user_id other_id : Bytes) (now later : ℕ) (io io' : Io) {rec : Invite}
    → lookup token s.by_token ≡ some rec
    → rec.consumed ≡ false
    → let t = (mark_consumed s token user_id now io).0 in
      mark_consumed t token other_id later io' ≡ (t, some already_used)
mark_consumed_once s token user_id other_id now later io io' {rec} live fresh =
    let used : Invite = record rec { consumed = true; consumed_at = now; user_id = user_id } in
    mark_consumed_used (mark_consumed s token user_id now io).0 token other_id later io'
      {rec = used}
      (ground (
        arith,
        mark_consumed_live s token user_id now io live fresh,
        lookup-insert token token used s.by_token,
        eq_refl token,
      ))
      refl
