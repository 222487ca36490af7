-- ===== src/Events/Order.antt =====
-- The order of texts, and that a sort by key forgets the order in which entries with different keys
-- came.
use hey_capsule.Prelude.{
  ◌≡◌, refl, ap, true, false, not, List, [], ◌∷◌, Text, text_eq, if◌then◌else◌, Bool-cases, inl,
  inr, arith,
}
use hey_capsule.Events.Values.{text_ltb, Entry, insert_entry}

text_ltb-flip : (s t : Text) → text_eq s t ≡ false → text_ltb t s ≡ not (text_ltb s t)
unfolding text_ltb text_eq
text_ltb-flip [] [] e = ground (arith, e)
text_ltb-flip [] (y ∷ t) e = refl
text_ltb-flip (x ∷ s) [] e = refl
text_ltb-flip (x ∷ s) (y ∷ t) e = ground (arith, e, text_ltb-flip s t)

-- What is not above a text is below what that is below.
text_ltb_trans : (r s t : Text) → text_ltb s r ≡ false → text_ltb s t ≡ true → text_ltb r t ≡ true
unfolding text_ltb
text_ltb_trans [] [] t h k = k
text_ltb_trans (x ∷ r) [] t h k = ground (arith, h)
text_ltb_trans r (y ∷ s) [] h k = ground (arith, k)
text_ltb_trans [] (y ∷ s) (z ∷ t) h k = refl
text_ltb_trans (x ∷ r) (y ∷ s) (z ∷ t) h k = ground (arith, h, k, text_ltb_trans r s t)

module _ (e f : Entry) (ne : text_eq e.0 f.0 ≡ false) where
  -- Where the two come next to each other, they come in one order only.
  pair_swap :
      (gs : List Entry)
      → (if text_ltb f.0 e.0 then f ∷ e ∷ gs else e ∷ f ∷ gs)
        ≡ (if text_ltb e.0 f.0 then e ∷ f ∷ gs else f ∷ e ∷ gs)
  pair_swap gs = ground (arith, text_ltb-flip e.0 f.0 ne)

  pub insert_entry-swap :
      (es : List Entry) → insert_entry e (insert_entry f es) ≡ insert_entry f (insert_entry e es)
  unfolding insert_entry
  insert_entry-swap [] = pair_swap []
  insert_entry-swap (g ∷ gs) = elim (Bool-cases (text_ltb g.0 f.0)) [
    | inl gf ↦ elim (Bool-cases (text_ltb g.0 e.0)) [
      | inl ge ↦ rw (gf, ge, gf) (ap (λ hs. g ∷ hs) (insert_entry-swap gs))
      | inr eg ↦ rw (gf, eg, gf, text_ltb_trans e.0 g.0 f.0 eg gf) refl
    ]
    | inr fg ↦ elim (Bool-cases (text_ltb g.0 e.0)) [
      | inl ge ↦ rw (fg, ge, fg, text_ltb_trans f.0 g.0 e.0 fg ge) refl
      | inr eg ↦ rw (fg, eg, fg) (pair_swap (g ∷ gs))
    ]
  ]
