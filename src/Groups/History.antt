-- ===== src/Groups/History.antt =====
-- A history of group messages, as they come in one after another.
use hey_capsule.Prelude.{ℕ, Bool, ◌||◌, List, [], ◌∷◌, Text, text_eq, text_key, any, Result}
use hey_capsule.Prelude.Int.{ℤ}
use hey_capsule.Contacts.Bootstrap.{Minted}
use hey_capsule.Conversation.{Attachment, DmMessage}
use hey_capsule.Groups.{GroupCtx, GroupStore, read_group_conversation}
use hey_capsule.Groups.Incoming.{Contacts, GroupError, store_incoming_group_message, no_content}

pub record GroupMessage : Type 0 where
  pub ctx : GroupCtx
  pub sender_did : Text
  pub text : Text
  pub ts : ℤ
  pub dedup_id : Text
  pub attachments : List Attachment

abbrev pub is_known : GroupMessage → GroupStore → Text → Bool
is_known m s gid =
    no_content m.text m.attachments
    || any (λ (n : DmMessage). text_eq n.id m.dedup_id) (read_group_conversation s gid)

module _ (sha256 : List ℕ → List ℕ) (mint : ℕ → Minted) (my_did : Text) (now : ℤ) where
  -- The result of one message, and the state that it leaves.
  abbrev pub outcome :
      GroupMessage → Contacts → GroupStore → Result GroupError Bool × Contacts × GroupStore
  outcome m c s =
      store_incoming_group_message sha256 mint my_did now m.ctx c s m.sender_did m.text m.ts
        m.dedup_id m.attachments

  unfoldable pub receive_groups : List GroupMessage → Contacts → GroupStore → Contacts × GroupStore
  receive_groups [] c s = (c, s)
  receive_groups (m ∷ ms) c s = let out = outcome m c s in receive_groups ms out.1 out.2
