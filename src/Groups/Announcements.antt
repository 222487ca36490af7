-- ===== src/Groups/Announcements.antt =====
-- What the announcement of a removal does at the other members (capsules/hey-core/src/api/dms.rs).
use hey_capsule.Prelude.{
  ℕ, ◌≤◌, ◌≡◌, ap, ◌∙◌, sym, subst, true, not, ◌||◌, some, List, [], ◌∷◌, Text, text_eq,
  text_eq_iff, text_key, any, filter, find, find-some, length, length-filter-le, is_empty, All,
  modify_first, find-modify_first, option_map, Bool-cases, inl, inr, arith, ok, >>=-eq-ok, ok_or,
  ok_or-eq-ok,
}
use hey_capsule.Prelude.Int.{ℤ}
use hey_capsule.Contacts.Bootstrap.{Minted}
use hey_capsule.Groups.{
  GroupMember, Group, GroupCtx, GroupStore, is_group, group_ctx, refreshed, or_default,
}
use hey_capsule.Groups.Incoming.{Contacts, upsert_record, upsert_group_from_ctx}
use hey_capsule.Groups.Removal.{removal-ok}
use hey_capsule.Groups.Roster.{
  Me, Sent, GroupBody, no_such_group, is_member, fan_out, announce, without, removal,
  remove_group_member,
}

refreshed-id :
    (gid : Text) (ctx : GroupCtx) (g : Group)
    → is_group gid g ≡ true
    → is_group gid (refreshed ctx g) ≡ true
unfolding refreshed
refreshed-id gid ctx g e = e

refreshed-members :
    (ctx : GroupCtx) (g : Group)
    → length (or_default ctx.members []) ≤ length g.members
    → (refreshed ctx g).members ≡ g.members
unfolding refreshed
refreshed-members ctx g le = ground (arith, le)

All-fan_out :
    (P : GroupBody → Type 0) (me : Me) (body : GroupBody) (ms : List GroupMember)
    → P body
    → All (λ (b : Text × GroupBody). P b.1) (fan_out me body ms)
unfolding fan_out filter
All-fan_out P me body [] h = tt
All-fan_out P me body (m ∷ ms) h = elim (Bool-cases (is_member me.did_key m)) [
  | inl mine ↦ rw mine (All-fan_out P me body ms h)
  | inr other ↦ rw other (h, All-fan_out P me body ms h)
]

upsert_record-members :
    (now : ℤ) (gid : Text) (ctx : GroupCtx) (gs : List Group) (h : Group)
    → find (is_group gid) gs ≡ some h
    → length (or_default ctx.members []) ≤ length h.members
    → option_map (λ (k : Group). k.members) (find (is_group gid) (upsert_record now gid ctx gs))
      ≡ some h.members
unfolding upsert_record
upsert_record-members now gid ctx gs h there le =
    let found : find (is_group gid) (modify_first (is_group gid) (refreshed ctx) gs)
        ≡ some (refreshed ctx h) =
      find-modify_first (is_group gid) (refreshed ctx) gs (λ k e. refreshed-id gid ctx k e)
      ∙ ap (option_map (refreshed ctx)) there in
    rw (there, upsert_record)
      (ap (option_map (λ (k : Group). k.members)) found ∙ ap some (refreshed-members ctx h le))

module _ (sha256 : List ℕ → List ℕ) (mint : ℕ → Minted) (my_did : Text) (now : ℤ) where
  upsert-members :
      (gid : Text) (ctx : GroupCtx) (stored : Contacts) (r : GroupStore) (h : Group)
      → ctx.id ≡ some gid
      → find (is_group gid) r.groups ≡ some h
      → length (or_default ctx.members []) ≤ length h.members
      → option_map
          (λ (k : Group). k.members)
          (find (is_group gid) (upsert_group_from_ctx sha256 mint my_did now ctx stored r).2.groups)
        ≡ some h.members
  unfolding upsert_group_from_ctx
  upsert-members gid ctx stored r h e there le =
      elim (Bool-cases (is_empty gid || any (λ d. text_eq d gid) r.declined)) [
        | inl refused ↦
            rw (e, upsert_group_from_ctx, refused)
              (ap (option_map (λ (k : Group). k.members)) there)
        | inr taken ↦
            rw (e, upsert_group_from_ctx, taken)
              (upsert_record-members now gid ctx r.groups h there le)
      ]

-- The announcement of a removal, as another member that holds the same roster takes it, leaves the
-- roster there as it is: it changes a roster only where it grows. So the removed member stays a
-- recipient of what that member sends.
pub announce-without :
    (sha256 : List ℕ → List ℕ) (mint : ℕ → Minted) (my_did : Text) (now : ℤ) (me : Me)
    (s s' : GroupStore) (gid member_did : Text) (sent : Sent) (g h : Group) (stored : Contacts)
    (r : GroupStore)
    → remove_group_member me s gid member_did ≡ ok (s', sent)
    → find (is_group gid) s.groups ≡ some g
    → find (is_group gid) r.groups ≡ some h
    → h.members ≡ g.members
    → All
        (λ (b : Text × GroupBody).
          option_map
            (λ (k : Group). k.members)
            (find
              (is_group gid)
              (upsert_group_from_ctx sha256 mint my_did now b.1.group stored r).2.groups)
          ≡ some g.members)
        sent
unfolding remove_group_member group_ctx
announce-without sha256 mint my_did now me s s' gid member_did sent g h stored r e held there same =
    let (g0, found, removed) =
      >>=-eq-ok (ok_or (find (is_group gid) s.groups) no_such_group) (removal me member_did s) e in
    let at_g = sym (ok_or-eq-ok (find (is_group gid) s.groups) no_such_group g0 found) ∙ held in
    let announced : sent ≡ announce me (without member_did g0) =
      (removal-ok me s s' member_did g0 sent removed).2 in
    let is : g0 ≡ g = ground (arith, at_g) in
    let at_gid : g.id ≡ gid = (text_eq_iff g.id gid).0 (find-some (is_group gid) s.groups g held) in
    let P = λ (b : GroupBody).
      option_map (λ (k : Group). k.members)
        (find (is_group gid)
          (upsert_group_from_ctx sha256 mint my_did now b.group stored r).2.groups)
      ≡ some g.members in
    let shorter : length (without member_did g).members ≤ length h.members =
      omega
        (arith, ap length same, length-filter-le (λ m. not (is_member member_did m)) g.members) in
    subst (All (λ (b : Text × GroupBody). P b.1))
      (sym (announced ∙ ap (λ k. announce me (without member_did k)) is))
      (All-fan_out P me _ (without member_did g).members (
        upsert-members sha256 mint my_did now gid (group_ctx (without member_did g)) stored r h
          (ap some at_gid) there shorter
        ∙ ap some same))
