-- ===== src/Identity/Signing.antt =====
-- Signatures (`verify`, capsules/hey-core/src/identity.rs). The check of Ed25519 itself is `check`, on
-- the message, the 64 bytes of a signature and the public key.
use hey_capsule.Prelude.{ℕ, Bool, false, List, Text, length, ◌==◌, if◌then◌else◌, Result, ok, err}
use hey_capsule.Identity.Hex.{HexError, odd_length, invalid_hex, wrong_size, panicked, hex_to_bytes}

abbrev pub Check : Type 0
Check = List ℕ → List ℕ → List ℕ → Bool

-- A panic goes on; any other error is a signature that does not hold.
unfoldable pub verify_bytes :
    Check → List ℕ → Result HexError (List ℕ) → List ℕ → Result HexError Bool
verify_bytes check message (ok sig) public_key =
    ok (if length sig == 64 then check message sig public_key else false)
verify_bytes check message (err panicked) public_key = err panicked
verify_bytes check message (err odd_length) public_key = ok false
verify_bytes check message (err invalid_hex) public_key = ok false
verify_bytes check message (err wrong_size) public_key = ok false

unfoldable pub verify : Check → List ℕ → Text → List ℕ → Result HexError Bool
verify check message signature_hex public_key =
    verify_bytes check message (hex_to_bytes signature_hex) public_key
