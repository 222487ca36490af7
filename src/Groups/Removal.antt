-- ===== src/Groups/Removal.antt =====
-- What it does to a group to remove a member (capsules/hey-core/src/api/dms.rs).
use hey_capsule.Prelude.{
  ◌≡◌, ◌⊎◌, refl, ap, ◌∙◌, sym, subst, Bool, true, false, not, ◌&&◌, some, List, [], ◌∷◌, map, Text,
  text_eq, text_eq_iff, text_key, beq_refl, filter, find, find-some, take, is_empty, modify_first,
  find-modify_first, option_map, if◌then◌else◌, Bool-cases, inl, inr, arith, Result, ok, err,
  >>=-eq-ok, ◌>>=◌, ok_or, ok_or-eq-ok,
}
use hey_capsule.Prelude.Int.{ℤ}
use hey_capsule.Conversation.{Attachment}
use hey_capsule.Groups.{GroupMember, Group, GroupStore, is_group, group_ctx}
use hey_capsule.Groups.Roster.{
  Me, Sent, GroupBody, RosterError, no_such_group, empty_message, is_member, with_group, fan_out,
  announce, without, removal, has_none, trim, remove_group_member, send_group_message_inner,
}

is_empty-eq : (s : Text) → (s ≡ []) ⊎ (is_empty s ≡ false)
is_empty-eq [] = inl refl
is_empty-eq (c ∷ s) = inr refl

-- When a removal succeeds: this user may, and what comes of it.
pub removal-ok :
    (me : Me) (s s' : GroupStore) (member_did : Text) (g : Group) (sent : Sent)
    → removal me member_did s g ≡ ok (s', sent)
    → ((g.created_by ≡ []) ⊎ (g.created_by ≡ me.did_key))
      × (s' ≡ with_group (without member_did g) s)
      × (sent ≡ announce me (without member_did g))
unfolding removal
removal-ok me s s' member_did g sent e =
    ground (arith, e, is_empty-eq g.created_by, text_eq_iff g.created_by me.did_key)

find-with_group :
    (gid : Text) (s : GroupStore) (g g' : Group)
    → find (is_group gid) s.groups ≡ some g
    → g'.id ≡ g.id
    → find (is_group gid) (with_group g' s).groups ≡ some g'
find-with_group gid s g g' held same =
    let is = find-some (is_group gid) s.groups g held in
    let e : g'.id ≡ gid = same ∙ (text_eq_iff g.id gid).0 is in
    let found =
      find-modify_first (is_group gid) (λ _. g') s.groups
        (λ h _. ap (λ i. text_eq i gid) e ∙ beq_refl text_key gid) in
    ap (λ i. find (is_group gid) (modify_first (is_group i) (λ _. g') s.groups)) e
    ∙ found
    ∙ ap (option_map (λ _. g')) held

-- To whom a fan-out goes.
abbrev pub recipients : Sent → List Text
recipients sent = map (λ b. b.0) sent

recipients-fan_out :
    (me : Me) (b b' : GroupBody) (did : Text) (ms : List GroupMember)
    → recipients (fan_out me b (filter (λ m. not (is_member did m)) ms))
      ≡ filter (λ d. not (text_eq d did)) (recipients (fan_out me b' ms))
unfolding fan_out filter
recipients-fan_out me b b' did [] = refl
recipients-fan_out me b b' did (m ∷ ms) = ground (arith, recipients-fan_out me b b' did ms)

-- A message to the group with this id, and to whom it goes.
abbrev pub message_to :
    Text → ℤ → Me → GroupStore → Text → Text → List Attachment → Result RosterError (List Text)
message_to id now me s gid text as' =
    send_group_message_inner id now me s gid text as' >>= λ r. ok (recipients r.2)

abbrev text_body : Text → List Attachment → Group → GroupBody
text_body text as' g = record {
  text = some (take 4096 (trim text));
  attachments = as';
  group = group_ctx g;
}

message_to-held :
    (id : Text) (now : ℤ) (me : Me) (s : GroupStore) (gid text : Text) (as' : List Attachment)
    (g : Group)
    → find (is_group gid) s.groups ≡ some g
    → message_to id now me s gid text as' ≡ (
        if is_empty (trim text) && has_none as'
        then err empty_message
        else ok (
            recipients (
              fan_out me
                (record {
                  text = some (take 4096 (trim text));
                  attachments = as';
                  group = group_ctx g;
                })
                g.members)))
unfolding send_group_message_inner
message_to-held id now me s gid text as' g held =
    elim (Bool-cases (is_empty (trim text) && has_none as')) [
      | inl empty ↦ rw (send_group_message_inner, empty) refl
      | inr full ↦ rw (send_group_message_inner, full, held) refl
    ]

abbrev pub fewer : Text → Result RosterError (List Text) → Result RosterError (List Text)
fewer did r = r >>= λ ds. ok (filter (λ d. not (text_eq d did)) ds)

fewer-if :
    (b : Bool) (did : Text) (ds : List Text)
    → (if b then err empty_message else ok (filter (λ d. not (text_eq d did)) ds))
      ≡ fewer did (if b then err empty_message else ok ds)
fewer-if true did ds = refl
fewer-if false did ds = refl

to_fewer :
    (id : Text) (now : ℤ) (me : Me) (s : GroupStore) (gid member_did text : Text)
    (as' : List Attachment) (g : Group)
    → find (is_group gid) s.groups ≡ some g
    → (if is_empty (trim text) && has_none as'
        then err empty_message
        else ok (
            recipients (
              fan_out me
                (text_body text as' (without member_did g))
                (without member_did g).members)))
      ≡ (message_to id now me s gid text as' >>= λ ds.
          ok (filter (λ d. not (text_eq d member_did)) ds))
to_fewer id now me s gid member_did text as' g held =
    let body = text_body text as' g in
    ap (λ ds. if is_empty (trim text) && has_none as' then err empty_message else ok ds)
      (recipients-fan_out me (text_body text as' (without member_did g)) body member_did g.members)
    ∙ fewer-if (is_empty (trim text) && has_none as') member_did
        (recipients (fan_out me body g.members))
    ∙ sym (ap (fewer member_did) (message_to-held id now me s gid text as' g held))

-- A removal that succeeds is of a group that this user created or that records no creator; and a
-- message to the group after it goes to those that it would have gone to before, in their order,
-- without the removed member. A message that would have failed fails as before.
pub send_group_message-remove :
    (me : Me) (s s' : GroupStore) (gid member_did : Text) (sent : Sent) (id : Text) (now : ℤ)
    (text : Text) (as' : List Attachment)
    → remove_group_member me s gid member_did ≡ ok (s', sent)
    → ((g : Group) × (find (is_group gid) s.groups ≡ some g)
        × ((g.created_by ≡ []) ⊎ (g.created_by ≡ me.did_key)))
      × (message_to id now me s' gid text as' ≡ (
          message_to id now me s gid text as' >>= λ ds.
          ok (filter (λ d. not (text_eq d member_did)) ds)))
unfolding remove_group_member
send_group_message-remove me s s' gid member_did sent id now text as' e =
    let (g, found, removed) =
      >>=-eq-ok (ok_or (find (is_group gid) s.groups) no_such_group) (removal me member_did s) e in
    let held = ok_or-eq-ok (find (is_group gid) s.groups) no_such_group g found in
    let (owner, state, _) = removal-ok me s s' member_did g sent removed in
    let g' = without member_did g in
    let later : find (is_group gid) s'.groups ≡ some g' =
      subst (λ (t : GroupStore). find (is_group gid) t.groups ≡ some g') (sym state)
        (find-with_group gid s g g' held refl) in
    (
      (g, held, owner),
      message_to-held id now me s' gid text as' g' later
          ∙ to_fewer id now me s gid member_did text as' g held,
    )
