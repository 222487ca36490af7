-- ===== src/Events/Tests.antt =====
-- A like of a post, signed and verified.
use hey_capsule.Prelude.{
  ℕ, ◌≡◌, refl, subst, true, Option, none, some, List, [], ◌∷◌, ◌++◌, Text, codes, replicate, ok,
  arith, length, strip_prefix, text_eq,
}
use hey_capsule.Prelude.Int.{pos, negsuc}
use hey_capsule.Identity.Hex.{hex_to_bytes, from_str_radix, hex_pairs, to_digit}
use hey_capsule.Identity.Base58.{
  did_key_to_public_key, base58_decode, decode_loop, decode_step, digit_of, index_of, key_of,
  leading, mul_add, push_carry,
}
use hey_capsule.Identity.Signing.{Check}
use hey_capsule.Events.{SignedEvent, valid, create_signed_event, verify_signed_event}
use hey_capsule.Events.Values.{
  Json, bool, number, string, array, object, nil, cons, end, field, whole, float, canonicalize,
  decimal_from, insert_entry, int_text, more_entries, number_text, sort_keys, text_ltb,
  write_entries,
}
use hey_capsule.Events.Canonical.{SameJson, fields, swapped, no_field, same_key, equal}
use hey_capsule.Events.Signed.{
  Signs, verify_signed_event-SameJson, verify_signed_event-create_signed_event,
}

abbrev quoted : Text → Text
quoted s = b'"' ∷ (s ++ (b'"' ∷ []))

abbrev like : Json
like = object (
    field (codes "post") (string (codes "p1")) (field (codes "n") (number (whole (negsuc 11))) end))

abbrev turned : Json
turned = object (
    field (codes "n") (number (whole (negsuc 11))) (field (codes "post") (string (codes "p1")) end))

canonical : canonicalize quoted like ≡ codes "{\"n\":-12,\"post\":\"p1\"}"
unfolding canonicalize write_entries sort_keys insert_entry text_ltb number_text int_text
    decimal_from more_entries
canonical = refl

fraction :
    canonicalize quoted (array (cons (number (float none)) (cons (bool true) nil)))
    ≡ codes "[0,true]"
unfolding canonicalize number_text
fraction = refl

like-turned : SameJson like turned
unfolding text_eq
like-turned = fields (swapped refl (same_key (equal refl) (same_key (equal refl) no_field)) refl)

abbrev key : List ℕ
key = replicate 32 1

abbrev did : Text
did = codes "did:key:z6MkeXBLjYiSvqnhFb6D7sHm8yKm4jV45wwBFRaatf1cfZ76"

did_key : did_key_to_public_key did ≡ ok key
unfolding did_key_to_public_key strip_prefix base58_decode decode_loop digit_of index_of key_of
    leading decode_step push_carry mul_add
did_key = refl

abbrev all_good : Check
all_good message sig pk = true

abbrev zeros_hex : Text
zeros_hex = replicate 128 48

abbrev sign_hex : Text → Option Text
sign_hex m = some zeros_hex

signs : Signs all_good sign_hex key
unfolding hex_to_bytes hex_pairs from_str_radix to_digit
signs = record {
  signed = λ m h e.
      let same : zeros_hex ≡ h = ground (arith, e) in
      subst
        (λ (s : Text).
          (length s ≡ 128)
          × ((sig : List ℕ) × (hex_to_bytes s ≡ ok sig) × (length sig ≡ 64) × (true ≡ true)))
        same (refl, (replicate 64 0, refl, refl, refl));
}

abbrev event : SignedEvent
event = record {
  event_type = codes "like";
  payload = like;
  sender_did = did;
  ts = pos 5;
  signature = zeros_hex;
}

verify_signed_event-SameJson_example :
    verify_signed_event quoted all_good (record event { payload = turned })
    ≡ verify_signed_event quoted all_good event
verify_signed_event-SameJson_example =
    verify_signed_event-SameJson quoted all_good event turned like-turned

created : create_signed_event quoted sign_hex (some did) (pos 5) (codes "like") like ≡ ok event
unfolding create_signed_event strip_prefix
created = refl

verify_signed_event-create_signed_event_example :
    verify_signed_event quoted all_good event ≡ ok valid
verify_signed_event-create_signed_event_example =
    verify_signed_event-create_signed_event quoted all_good sign_hex did key (pos 5) (codes "like")
      like event signs did_key refl created
