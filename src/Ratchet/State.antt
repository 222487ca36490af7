-- ===== src/Ratchet/State.antt =====
-- The state of a ratchet and its stash of skipped keys (capsules/hey-core/src/api/dms.rs).
-- Key material is hexadecimal text, as in the source. Randomness is the argument `Fresh`. Times are
-- milliseconds since the epoch, and the counters are `u32`.
use hey_capsule.Prelude.{
  ℕ, suc, ◌+◌, ◌-◌, ◌*◌, ◌^◌, min, Bool, true, not, ◌&&◌, Option, none, some, List, [], ◌∷◌, Text,
  text_eq, filter, length, drop, leb, ltb, ◌==◌, if◌then◌else◌, Result, ok, err, ◌>>=◌, is_empty,
}
use hey_capsule.Identity.Hex.{HexError, seed32}
use hey_capsule.Crypto.Kdf.{Bytes}

abbrev pub max_skip : ℕ
max_skip = 1000

abbrev pub max_skipped_keys : ℕ
max_skipped_keys = 2000

abbrev pub skipped_ttl_ms : ℕ
skipped_ttl_ms = 7 * 24 * 60 * 60 * 1000

abbrev pub u32_max : ℕ
u32_max = 2 ^ 32 - 1

pub data Error : Type 0 where
  past_max_skip no_dhr no_sending_chain no_receiving_chain bad_base64 kem_failed : Error
  no_rolling_kem downgrade_refused combined_skip overflow : Error
  hex_error : HexError → Error

pub record RatchetHeader : Type 0 where
  pub dh : Text
  pub pn : ℕ
  pub n : ℕ
  pub kem_ct : Option Text
  pub kem_pub : Option Text

pub record SkippedKey : Type 0 where
  pub dh : Text
  pub n : ℕ
  pub mk : Text
  pub stored_at : ℕ

pub record RatchetState : Type 0 where
  pub rk : Text
  pub cks : Option Text
  pub ckr : Option Text
  pub dhs_priv : Text
  pub dhs_pub : Text
  pub dhr_pub : Option Text
  pub ns : ℕ
  pub nr : ℕ
  pub pn : ℕ
  pub skipped : List SkippedKey
  pub kem_priv : Option Text
  pub kem_pub : Option Text
  pub peer_kem_pub : Option Text
  pub send_kem_ct : Option Text

unfoldable pub is_bootstrapped : RatchetState → Bool
is_bootstrapped st = not (is_empty st.rk)

-- What a turn draws: an X25519 key pair, a rolling ML-KEM key pair (private and public each), and
-- the randomness of an encapsulation.
pub record Fresh : Type 0 where
  pub dh_priv : Bytes
  pub dh_pub : Bytes
  pub kem_priv : Bytes
  pub kem_pub : Bytes
  pub kem_randomness : Bytes

unfoldable pub b32 : Text → Result Error Bytes
b32 hex = elim (seed32 hex) [ ok k ↦ ok k | err e ↦ err (hex_error e) ]

abbrev pub saturating_add : ℕ → ℕ → ℕ
saturating_add a b = min (a + b) u32_max

-- An unsigned `+= 1` that does not fit is an overflow (a panic in a debug build).
abbrev pub increment : ℕ → Result Error ℕ
increment n = if ltb n u32_max then ok (suc n) else err overflow

-- `st.skipped.retain(stored_at >= now - SKIPPED_TTL_MS)`, then the oldest beyond the cap go.
unfoldable pub evict_skipped : ℕ → List SkippedKey → List SkippedKey
evict_skipped now skipped =
    let live = filter (λ (k : SkippedKey). leb now (k.stored_at + skipped_ttl_ms)) skipped in
    drop (length live - max_skipped_keys) live

abbrev pub is_key : Text → ℕ → SkippedKey → Bool
is_key dh_hex n k = text_eq k.dh dh_hex && k.n == n

-- The first stashed key for (`dh_hex`, `n`), and the stash without it.
unfoldable pub take_key : Text → ℕ → List SkippedKey → Option (SkippedKey × List SkippedKey)
take_key dh_hex n [] = none
take_key dh_hex n (k ∷ ks) =
    if is_key dh_hex n k
    then some (k, ks)
    else (elim (take_key dh_hex n ks) [ none ↦ none | some (k', rest) ↦ some (k', k ∷ rest) ])

unfoldable pub try_skipped : RatchetState → Text → ℕ → Result Error (Option (Bytes × RatchetState))
try_skipped st dh_hex n = elim (take_key dh_hex n st.skipped) [
  | none ↦ ok none
  | some (k, rest) ↦ do mk ← b32 k.mk; ok (some (mk, record st { skipped = rest }))
]

abbrev pub record_kem : RatchetState → Option Text → RatchetState
record_kem st none = st
record_kem st (some kp) = record st { peer_kem_pub = some kp }

abbrev pub is_new_epoch : RatchetState → Text → Bool
is_new_epoch st dh_hex = elim st.dhr_pub [ none ↦ true | some d ↦ not (text_eq d dh_hex) ]

abbrev pub total_skip : RatchetState → Text → ℕ → ℕ → ℕ
total_skip st dh_hex pn n =
    if is_new_epoch st dh_hex then saturating_add (pn - st.nr) n else saturating_add 0 (n - st.nr)
