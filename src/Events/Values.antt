-- ===== src/Events/Values.antt =====
-- JSON values and their canonical form (`canonicalize`, capsules/hey-core/src/events.rs). An object's
-- keys differ, as in the map of serde_json; its entries stand in the order of the map.
use hey_capsule.Prelude.{
  ℕ, zero, suc, ◌+◌, ◌/◌, ◌%◌, Bool, true, false, Option, none, some, List, [], ◌∷◌, ◌++◌, Text,
  codes, text_eq, ltb, ◌==◌, if◌then◌else◌,
}
use hey_capsule.Prelude.Int.{ℤ, pos, negsuc}

-- A number that fits an `i64` or a `u64`, or a float: by the integer that it is where it is one of
-- absolute value less than 2^63.
pub data Number : Type 0 where
  whole : ℤ → Number
  float : Option ℤ → Number

mutual
  pub data Json : Type 0 where
    null : Json
    bool : Bool → Json
    number : Number → Json
    string : Text → Json
    array : Items → Json
    object : Fields → Json

  pub data Items : Type 0 where
    nil : Items
    cons : Json → Items → Items

  pub data Fields : Type 0 where
    end : Fields
    field : Text → Json → Fields → Fields

-- The value of a key; `none` where the value is no object.
unfoldable pub get_field : Text → Fields → Option Json
get_field key end = none
get_field key (field k v fs) = if text_eq k key then some v else get_field key fs

unfoldable pub get : Text → Json → Option Json
get key (object fs) = get_field key fs
get key _ = none

unfoldable pub as_str : Json → Option Text
as_str (string s) = some s
as_str _ = none

-- Decimal digits; a `u64` has at most twenty.
unfoldable pub decimal_from : ℕ → ℕ → Text
decimal_from zero n = []
decimal_from (suc more) n =
    let high = decimal_from more (n / 10) in
    if ltb n 10 then (48 + n) ∷ [] else high ++ ((48 + n % 10) ∷ [])

unfoldable pub int_text : ℤ → Text
int_text (pos n) = decimal_from 20 n
int_text (negsuc n) = b'-' ∷ decimal_from 20 (suc n)

unfoldable pub number_text : Number → Text
number_text (whole i) = int_text i
number_text (float (some i)) = int_text i
number_text (float none) = codes "0"

-- `str`'s order, by bytes.
unfoldable pub text_ltb : Text → Text → Bool
text_ltb [] [] = false
text_ltb [] (y ∷ ys) = true
text_ltb (x ∷ xs) [] = false
text_ltb (x ∷ xs) (y ∷ ys) = if ltb x y then true else if x == y then text_ltb xs ys else false

-- A key and what is written for its value.
abbrev pub Entry : Type 0
Entry = Text × Text

unfoldable pub insert_entry : Entry → List Entry → List Entry
insert_entry e [] = e ∷ []
insert_entry e (f ∷ fs) = if text_ltb f.0 e.0 then f ∷ insert_entry e fs else e ∷ f ∷ fs

unfoldable pub sort_keys : List Entry → List Entry
sort_keys [] = []
sort_keys (e ∷ es) = insert_entry e (sort_keys es)

module _ (quote : Text → Text) where
  -- The entries behind the first, each after a comma.
  unfoldable pub more_entries : List Entry → Text
  more_entries [] = codes "}"
  more_entries ((k, v) ∷ es) = b',' ∷ (quote k ++ (b':' ∷ (v ++ more_entries es)))

  unfoldable pub write_entries : List Entry → Text
  write_entries [] = codes "{}"
  write_entries ((k, v) ∷ es) = b'{' ∷ (quote k ++ (b':' ∷ (v ++ more_entries es)))

  unfoldable mutual
    pub canonicalize : Json → Text
    canonicalize null = codes "null"
    canonicalize (bool true) = codes "true"
    canonicalize (bool false) = codes "false"
    canonicalize (number n) = number_text n
    canonicalize (string s) = quote s
    canonicalize (array nil) = codes "[]"
    canonicalize (array (cons x xs)) = b'[' ∷ (canonicalize x ++ more_items xs)
    canonicalize (object fs) = write_entries (sort_keys (entries fs))

    pub more_items : Items → Text
    more_items nil = codes "]"
    more_items (cons x xs) = b',' ∷ (canonicalize x ++ more_items xs)

    pub entries : Fields → List Entry
    entries end = []
    entries (field k v fs) = (k, canonicalize v) ∷ entries fs
