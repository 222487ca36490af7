-- ===== src/Frag/Codec.antt =====
-- A codec of fragments that meets the law asked of `serde_json`, for concrete runs.
use hey_capsule.Prelude.{
  zero, ◌≡◌, refl, Option, none, some, [], ◌∷◌, ◌++◌, Text, text_key, nat_eq, length, take, drop,
  ap,
}
use hey_capsule.Frag.{Fragment, Json}

-- Length-prefixed fields behind a byte that no wire begins with.
abbrev pub encode : Fragment → Text
encode f = 0 ∷ length f.t ∷ length f.id ∷ f.i ∷ f.n ∷ (f.t ++ (f.id ++ f.d))

abbrev pub decode : Text → Option Fragment
decode (zero ∷ a ∷ b ∷ i ∷ n ∷ s) =
    some (record { t = take a s; id = take b (drop a s); i = i; n = n; d = drop b (drop a s) })
decode _ = none

take-append : (s r : Text) → take (length s) (s ++ r) ≡ s
take-append [] r = refl
take-append (c ∷ s) r = ap (◌∷◌ c) (take-append s r)

drop-append : (s r : Text) → drop (length s) (s ++ r) ≡ r
drop-append [] r = refl
drop-append (c ∷ s) r = drop-append s r

pub decode-encode : (f : Fragment) → decode (encode f) ≡ some f
decode-encode f = rw (
  take-append f.t (f.id ++ f.d),
  drop-append f.t (f.id ++ f.d),
  take-append f.id f.d,
  drop-append f.id f.d,
)

abbrev pub codec : Json
codec = record { to_string = encode; from_str = decode; from_str-to_string = decode-encode }
