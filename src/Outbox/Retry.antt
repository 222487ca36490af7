-- ===== src/Outbox/Retry.antt =====
-- The schedule of retries.
use hey_capsule.Prelude.{ℕ, ◌*◌, ◌^◌, ◌≡◌, min, arith}
use hey_capsule.Outbox.{backoff_cap_ms, backoff_for}

-- The delay doubles from five seconds with each retry, up to one hour: no product saturates before
-- the cap.
pub backoff_for_lem : (retries : ℕ) → backoff_for retries ≡ min (5000 * 2 ^ retries) backoff_cap_ms
unfolding backoff_for
backoff_for_lem retries = omega arith
