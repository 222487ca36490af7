-- ===== src/Ratchet/Tests.antt =====
-- Toy primitives that meet what the ratchet asks of HKDF, X25519, ML-KEM and base64, and the
-- theorems at concrete states.
use hey_capsule.Prelude.{
  ap, elem, filter, text_eq, ℕ, zero, suc, ◌+◌, ◌%◌, ◌≤◌, ◌≡◌, refl, none, some, List, [], ◌∷◌,
  ◌++◌, map, ok, length, replicate, length-replicate, All, arith,
}
use native.Mathlib.Nat.{mod-lt}
use hey_capsule.Identity.Hex.{
  IsKey, IsByte, bytes_to_hex, hex_digit, hex_to_bytes, hex_pairs, from_str_radix, to_digit, seed32,
}
use hey_capsule.Crypto.Kdf.{Meets, Bytes, Primitives, Documented, kdf_rk, kdf_ck, kdf_rk-IsKey}
use hey_capsule.Ratchet.State.{
  SkippedKey, b32, evict_skipped, take_key, try_skipped, RatchetState, Fresh, max_skip,
  max_skipped_keys,
}
use hey_capsule.Ratchet.Steps.{
  skip_loop, skip_message_keys, chain_step, advance, dh_ratchet, ratchet_step_recv, turn_secret,
}
use hey_capsule.Ratchet.Chain.{message_key, chain_key}
use hey_capsule.Ratchet.Exchange.{
  Arrival, send_all, receive_all, pages, send_all_lem, receive_all_lem,
}
use hey_capsule.Ratchet.Bounds.{length-ratchet_step_recv}
use hey_capsule.Ratchet.Turn.{IsFresh, Leads, dh_ratchet-Leads}

total : Bytes → ℕ
total [] = 0
total (b ∷ bs) = b + total bs

fill : ℕ → ℕ → Bytes
fill n b = replicate n (b % 256)

All-fill : (n b : ℕ) → All IsByte (fill n b)
unfolding fill
All-fill zero b = tt
All-fill (suc n) b = (mod-lt b (omega arith), All-fill n b)

length-fill : (n b : ℕ) → length (fill n b) ≡ n
unfolding fill
length-fill n b = length-replicate n (b % 256)

abbrev toy : Primitives
toy = record {
  hkdf = λ salt ikm info n. fill n (total ikm + total info);
  hkdf_prk = λ prk info n. fill n (total prk + total info);
  dh = λ priv pub_key. (total priv + total pub_key) ∷ [];
  b64_encode = λ s. s;
  b64_decode = λ s. some s;
  ml_kem_encapsulate = λ r pub_key. some (r, r ++ pub_key);
  ml_kem_decapsulate = λ ct priv. some (ct ++ priv);
}

abbrev toy_documented : Documented toy
toy_documented = record {
  hkdf_bytes = λ salt ikm info n. All-fill n _;
  hkdf_size = λ salt ikm info n. length-fill n _;
  hkdf_prk_bytes = λ prk info n. All-fill n _;
  hkdf_prk_size = λ prk info n. length-fill n _;
  b64_decode-b64_encode = λ s. refl;
}

comm :
    (a_priv a_pub b_priv b_pub : Bytes)
    → a_priv ≡ a_pub
    → b_priv ≡ b_pub
    → toy.dh a_priv b_pub ≡ toy.dh b_priv a_pub
comm a_priv a_pub b_priv b_pub a b =
    let e : total a_priv + total b_pub ≡ total b_priv + total a_pub =
      omega (arith, ap total a, ap total b) in
    ap (λ n. n ∷ []) e

opened :
    (r priv pub_key ct ss : Bytes)
    → priv ≡ pub_key
    → toy.ml_kem_encapsulate r pub_key ≡ some (ct, ss)
    → toy.ml_kem_decapsulate ct priv ≡ some ss
opened r priv pub_key ct ss pair e = cc

-- In the toy, the two keys of a pair are the same.
abbrev toy_meets : Meets toy
toy_meets = record {
  IsPair = λ priv pub_key. priv ≡ pub_key;
  dh_comm = λ a_priv a_pub b_priv b_pub a b. comm a_priv a_pub b_priv b_pub a b;
  IsKemPair = λ priv pub_key. priv ≡ pub_key;
  ml_kem_opens = λ r priv pub_key ct ss pair e. opened r priv pub_key ct ss pair e;
  ml_kem_works = λ r priv pub_key pair. (_, _, refl);
}

abbrev key : ℕ → Bytes
key b = fill 32 b

key-IsKey : (b : ℕ) → IsKey (key b)
key-IsKey b = record { bytes = All-fill 32 b; size = length-fill 32 b }

abbrev sender : RatchetState
sender = record {
  rk = bytes_to_hex (key 1);
  cks = some (bytes_to_hex (key 2));
  ckr = none;
  dhs_priv = bytes_to_hex (key 3);
  dhs_pub = bytes_to_hex (key 3);
  dhr_pub = none;
  ns = 0;
  nr = 0;
  pn = 0;
  skipped = [];
  kem_priv = some (key 4);
  kem_pub = some (key 4);
  peer_kem_pub = none;
  send_kem_ct = none;
}

abbrev receiver : RatchetState
receiver = record sender {
  ckr = some (bytes_to_hex (key 2));
  dhr_pub = some (bytes_to_hex (key 3));
}

abbrev fresh : Fresh
fresh = record {
  dh_priv = key 9;
  dh_pub = key 9;
  kem_priv = key 8;
  kem_pub = key 8;
  kem_randomness = key 7;
}

abbrev arrival : ℕ → ℕ → Arrival
arrival now n = record { now = now; n = n; pn = 0; kem_ct = none; kem_pub = none; fresh = fresh }

abbrev late_first : List Arrival
late_first = arrival 5 2 ∷ arrival 6 0 ∷ arrival 9 1 ∷ []

send_all_lem_example : send_all toy 2 sender ≡ ok (pages toy (key 2) (key 3) sender 0 2)
send_all_lem_example =
    send_all_lem toy toy_documented (key 2) (key 3) 2 sender (key-IsKey 2) (key-IsKey 3) refl refl
      refl (omega arith)

receive_all_lem_example :
    receive_all toy (bytes_to_hex (key 3)) (key 3) receiver late_first
    ≡ ok (map (λ (a : Arrival). message_key toy (key 2) a.n) late_first)
unfolding elem
receive_all_lem_example =
    receive_all_lem toy toy_documented (key 2) (bytes_to_hex (key 3)) (key 3) 5 receiver late_first
      (key-IsKey 2) refl refl refl refl
      (
        omega arith,
        omega arith,
        omega arith,
        refl,
        (
          omega arith,
          omega arith,
          omega arith,
          refl,
          (omega arith, omega arith, omega arith, refl, tt),
        ),
      )

abbrev stashed : ℕ → SkippedKey
stashed n = record {
  dh = bytes_to_hex (key 3);
  n = n;
  mk = bytes_to_hex (message_key toy (key 2) n);
  stored_at = 5;
}

abbrev two_stashed : RatchetState
two_stashed = record receiver {
  ckr = some (bytes_to_hex (chain_key toy (key 2) 3));
  nr = 3;
  skipped = stashed 0 ∷ stashed 1 ∷ [];
}

program : Unit {0}
unfolding elem fill total bytes_to_hex hex_digit hex_to_bytes hex_pairs from_str_radix to_digit
    seed32 b32 evict_skipped take_key try_skipped kdf_ck chain_key message_key filter text_eq
    skip_loop skip_message_keys chain_step advance ratchet_step_recv
program = tt

step_to_two :
    ratchet_step_recv toy fresh 5 receiver (bytes_to_hex (key 3)) (key 3) 0 2 none none
    ≡ ok (message_key toy (key 2) 2, two_stashed)
unfolding program
step_to_two = refl

length-ratchet_step_recv_example : (2 ≤ 0 + max_skip) × (2 ≤ max_skipped_keys)
length-ratchet_step_recv_example =
    length-ratchet_step_recv toy fresh 5 receiver (bytes_to_hex (key 3)) (key 3) 0 2 none none
      (message_key toy (key 2) 2) two_stashed (omega arith) step_to_two

abbrev root : Bytes × Bytes
root = kdf_rk toy (key 1) (toy.dh (key 5) (key 3))

abbrev leader : RatchetState
leader = record sender { rk = bytes_to_hex root.0; cks = some (bytes_to_hex root.1) }

abbrev follower : RatchetState
follower = record sender { dhs_priv = bytes_to_hex (key 5); dhs_pub = bytes_to_hex (key 5) }

leads : Leads toy toy_documented toy_meets leader follower
unfolding turn_secret
leads = record {
  a_priv = key 3;
  a_pub = key 3;
  b_priv = key 5;
  b_pub = key 5;
  rk_a = root.0;
  rk_b = key 1;
  ck = root.1;
  secret = none;
  a_pair = refl;
  b_pair = refl;
  a_priv_key = key-IsKey 3;
  b_priv_key = key-IsKey 5;
  rk_a_key = (kdf_rk-IsKey toy toy_documented _ _).0;
  rk_b_key = key-IsKey 1;
  a_priv_is = refl;
  a_pub_is = refl;
  b_priv_is = refl;
  rk_a_is = refl;
  rk_b_is = refl;
  cks_is = refl;
  root = refl;
  opens = refl;
  a_kem = record { priv = key 4; pub_key = key 4; pair = refl; priv_is = refl; pub_is = refl };
  b_kem = record { priv = key 4; pub_key = key 4; pair = refl; priv_is = refl; pub_is = refl };
}

fresh-IsFresh : IsFresh toy_meets fresh
fresh-IsFresh = record {
  dh_pair = refl;
  kem_pair = refl;
  dh_priv_key = key-IsKey 9;
  dh_pub_key = key-IsKey 9;
}

abbrev informed : RatchetState
informed = record follower { peer_kem_pub = leader.kem_pub }

dh_ratchet-Leads_example :
    (b' : RatchetState) × (dh_ratchet toy fresh informed leads.a_pub leads.secret ≡ ok b')
    × (b'.ckr ≡ leader.cks)
    × (b'.dhr_pub ≡ some leader.dhs_pub)
    × (b'.nr ≡ 0)
    × (b'.pn ≡ informed.ns)
    × (b'.ns ≡ 0)
    × Leads toy toy_documented toy_meets b' leader
dh_ratchet-Leads_example =
    dh_ratchet-Leads toy toy_documented toy_meets leader follower informed fresh leads fresh-IsFresh
      refl refl refl
