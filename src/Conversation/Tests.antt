-- ===== src/Conversation/Tests.antt =====
-- A conversation with one peer.
use hey_capsule.Prelude.{◌≡◌, refl, false, none, some, [], ◌∷◌, codes, text_key}
use hey_capsule.Prelude.Int.{pos}
use hey_capsule.Conversation.{Storage, conv_path, store_incoming_message}
use hey_capsule.Conversation.Keeping.{store_incoming_message_again}

abbrev empty : Storage
empty = record { conversations = []; contacts = none; expiry = (codes "ann", pos 60) ∷ [] }

same_path : conv_path (codes "did:a") ≡ conv_path (codes "did_a")
unfolding conv_path
same_path = refl

store_incoming_message_again_example :
    let first =
      (store_incoming_message [] empty
        (codes "ann")
        (codes "hi")
        (pos 7)
        (some (codes "m1"))
        []).1 in
    store_incoming_message [] first (codes "ann") (codes "yo") (pos 9) (some (codes "m1")) []
    ≡ (false, first)
store_incoming_message_again_example =
    store_incoming_message_again [] [] empty (codes "ann") (codes "hi") (codes "yo") (codes "m1")
      (pos 7) (pos 9) [] []
