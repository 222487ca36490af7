-- ===== src/Events/Canonical.antt =====
-- The canonical form does not see the order of keys (capsules/hey-core/src/events.rs).
use hey_capsule.Prelude.{◌≡◌, refl, ap, ◌∙◌, false, Text, text_eq}
use hey_capsule.Events.Values.{
  Json, Items, Fields, array, object, nil, cons, end, field, sort_keys, write_entries, canonicalize,
  more_items, entries,
}
use hey_capsule.Events.Order.{insert_entry-swap}

-- Values that differ at most in the order of the entries of their objects, at any depth.
mutual
  pub data SameJson : Json → Json → Type 0 where
    equal : {v w : Json} → v ≡ w → SameJson v w
    items : {xs ys : Items} → SameItems xs ys → SameJson (array xs) (array ys)
    fields : {fs gs : Fields} → SameFields fs gs → SameJson (object fs) (object gs)

  pub data SameItems : Items → Items → Type 0 where
    none_left : SameItems nil nil
    both :
        {x y : Json} {xs ys : Items}
        → SameJson x y
        → SameItems xs ys
        → SameItems (cons x xs) (cons y ys)

  pub data SameFields : Fields → Fields → Type 0 where
    no_field : SameFields end end
    same_key :
        {k : Text} {v w : Json} {fs gs : Fields}
        → SameJson v w
        → SameFields fs gs
        → SameFields (field k v fs) (field k w gs)
    swapped :
        {k l : Text} {v w : Json} {fs gs hs : Fields}
        → text_eq k l ≡ false
        → SameFields (field l w (field k v fs)) hs
        → gs ≡ field k v (field l w fs)
        → SameFields gs hs

module _ (quote : Text → Text) where
  mutual
    unfolding canonicalize more_items entries sort_keys

    canonicalize-same : {v w : Json} → SameJson v w → canonicalize quote v ≡ canonicalize quote w
    canonicalize-same (equal e) = ap (canonicalize quote) e
    canonicalize-same (items none_left) = refl
    canonicalize-same (items (both h hs)) = rw (canonicalize-same h, more_items-same hs) refl
    canonicalize-same (fields h) = ap (write_entries quote) (entries-same h)

    more_items-same : {xs ys : Items} → SameItems xs ys → more_items quote xs ≡ more_items quote ys
    more_items-same none_left = refl
    more_items-same (both h hs) = rw (canonicalize-same h, more_items-same hs) refl

    entries-same :
        {fs gs : Fields}
        → SameFields fs gs
        → sort_keys (entries quote fs) ≡ sort_keys (entries quote gs)
    entries-same no_field = refl
    entries-same (same_key h hs) = rw (canonicalize-same h, entries-same hs) refl
    entries-same (swapped {k = k} {l = l} {v = v} {w = w} {fs = fs} ne h e) =
        ap (λ gs. sort_keys (entries quote gs)) e
        ∙ insert_entry-swap (k, canonicalize quote v) (l, canonicalize quote w) ne
            (sort_keys (entries quote fs))
        ∙ entries-same h

  -- Values that differ at most in the order of their keys have one canonical form.
  pub canonicalize-SameJson :
      (v w : Json) → SameJson v w → canonicalize quote v ≡ canonicalize quote w
  canonicalize-SameJson v w h = canonicalize-same h
