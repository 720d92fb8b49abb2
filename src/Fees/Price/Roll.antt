-- ===== src/Fees/Price/Roll.antt =====
-- internal/fees/manager.go: the window after some seconds.
use hypersdk.Base.{
  ℕ, zero, suc, ◌+◌, ◌-◌, ◌*◌, ◌≤◌, ◌≡◌, refl, ap, sym, ◌∙◌, inl, inr, List, [], ◌∷◌, ◌++◌, min,
  ltb, length, drop, replicate, length-append, length-drop, length-replicate, append_assoc, arith,
  Bool-cases, subst, drop-of_length_le,
}
use hypersdk.Math.Checked.{CheckedMath, max_uint64}
use hypersdk.Binary.{AllUint64, encode_words}
use hypersdk.Binary.Words.{drop-append, copy_at-append, copy_at_one}
use hypersdk.Fees.Window.{window_size, update}
use hypersdk.Fees.Window.Slots.{IsSlots, roll_lem, update_lem}
use hypersdk.Fees.Price.{next_window}

-- The newest value with `units` added, up to the largest uint64.
abbrev pub add_to_last : List ℕ → ℕ → List ℕ
add_to_last [] units = []
add_to_last (w ∷ []) units = min (w + units) max_uint64 ∷ []
add_to_last (w ∷ x ∷ ws) units = w ∷ add_to_last (x ∷ ws) units

-- The parent's units count as the newest value's, and then the window rolls.
abbrev pub next_slots : List ℕ → ℕ → ℕ → List ℕ
next_slots ws units since = drop since (add_to_last ws units) ++ replicate (min since window_size) 0

-- A list that is not empty as its front and its last element.
record LastOf (ws : List ℕ) (n : ℕ) : Type 0 where
  front : List ℕ
  newest : ℕ
  split : ws ≡ front ++ newest ∷ []
  size : length front ≡ n

last_of : (n : ℕ) (ws : List ℕ) → length ws ≡ suc n → LastOf ws n
last_of n [] h = absurd (omega arith)
last_of zero (w ∷ []) h = record { front = []; newest = w; split = refl; size = refl }
last_of (suc n) (w ∷ []) h = absurd (omega arith)
last_of zero (w ∷ x ∷ ws) h = absurd (omega arith)
last_of (suc n) (w ∷ x ∷ ws) h =
    let r = last_of n (x ∷ ws) (omega arith) in
    record {
      front = w ∷ r.front;
      newest = r.newest;
      split = ap (◌∷◌ w) r.split;
      size = ap suc r.size;
    }

add_to_last-append :
    (front : List ℕ) (w units : ℕ)
    → add_to_last (front ++ w ∷ []) units ≡ front ++ min (w + units) max_uint64 ∷ []
add_to_last-append [] w units = refl
add_to_last-append (x ∷ []) w units = refl
add_to_last-append (x ∷ y ∷ front) w units = ap (◌∷◌ x) (add_to_last-append (y ∷ front) w units)

-- Fewer are dropped than stand before the last.
drop-front :
    (n : ℕ) (front : List ℕ) (w : ℕ)
    → n ≤ length front
    → drop n (front ++ w ∷ []) ≡ drop n front ++ w ∷ []
drop-front zero front w h = refl
drop-front (suc n) [] w h = absurd (omega arith)
drop-front (suc n) (x ∷ front) w h = drop-front n front w (omega arith)

AllUint64-last : (front : List ℕ) (w : ℕ) → AllUint64 (front ++ w ∷ []) → w ≤ max_uint64
AllUint64-last [] w h = h.0
AllUint64-last (x ∷ front) w h = AllUint64-last front w h.1

length-add_to_last : (ws : List ℕ) (units : ℕ) → length (add_to_last ws units) ≡ length ws
length-add_to_last [] units = refl
length-add_to_last (w ∷ []) units = refl
length-add_to_last (w ∷ x ∷ ws) units = ap suc (length-add_to_last (x ∷ ws) units)

-- It has ten values again.
pub length-next_slots :
    (ws : List ℕ) (units since : ℕ)
    → length ws ≡ window_size
    → length (next_slots ws units since) ≡ window_size
length-next_slots ws units since h = omega (
  arith,
  length-append (drop since (add_to_last ws units)) (replicate (min since window_size) 0),
  length-drop since (add_to_last ws units),
  length-add_to_last ws units,
  length-replicate {A = ℕ} (min since window_size) 0,
)

AllUint64-append : (xs ys : List ℕ) → AllUint64 xs → AllUint64 ys → AllUint64 (xs ++ ys)
AllUint64-append [] ys h k = k
AllUint64-append (x ∷ xs) ys h k = (h.0, AllUint64-append xs ys h.1 k)

AllUint64-drop : (n : ℕ) (xs : List ℕ) → AllUint64 xs → AllUint64 (drop n xs)
AllUint64-drop zero xs h = h
AllUint64-drop (suc n) [] h = h
AllUint64-drop (suc n) (x ∷ xs) h = AllUint64-drop n xs h.1

AllUint64-zeros : (n : ℕ) → AllUint64 (replicate n 0)
AllUint64-zeros zero = tt
AllUint64-zeros (suc n) = (omega arith, AllUint64-zeros n)

AllUint64-add_to_last : (ws : List ℕ) (units : ℕ) → AllUint64 ws → AllUint64 (add_to_last ws units)
AllUint64-add_to_last [] units h = tt
AllUint64-add_to_last (w ∷ []) units h = (omega arith, tt)
AllUint64-add_to_last (w ∷ x ∷ ws) units h = (h.0, AllUint64-add_to_last (x ∷ ws) units h.1)

pub AllUint64-next_slots :
    (ws : List ℕ) (units since : ℕ) → AllUint64 ws → AllUint64 (next_slots ws units since)
AllUint64-next_slots ws units since h =
    AllUint64-append (drop since (add_to_last ws units)) (replicate (min since window_size) 0)
      (AllUint64-drop since (add_to_last ws units) (AllUint64-add_to_last ws units h))
      (AllUint64-zeros (min since window_size))

module _ ⦃m : CheckedMath⦄ where
  -- For any time since the last block the new window is the old one with the parent's units in its
  -- newest value, rolled by that time.
  pub next_window_lem :
      (ws : List ℕ) (units since : ℕ)
      → IsSlots ws
      → units ≤ max_uint64
      → next_window (encode_words ws) units since ≡ encode_words (next_slots ws units since)
  unfolding next_window
  next_window_lem ws units since h u = elim (Bool-cases (ltb since window_size)) [
    | inl b ↦
        let r = last_of 9 ws h.0 in
        let zeros : List ℕ = replicate (min since window_size) 0 in
        let older = drop since r.front in
        let v = min (r.newest + units) max_uint64 in
        let before : length older ≡ 9 - since = omega (arith, length-drop since r.front, r.size) in
        let within : since ≤ length r.front = ground (arith, r.size) in
        let rolled : drop since ws ++ zeros ≡ older ++ r.newest ∷ zeros =
          ap (λ l. drop since l ++ zeros) r.split
          ∙ ap (λ l. l ++ zeros) (drop-front since r.front r.newest within)
          ∙ append_assoc older (r.newest ∷ []) zeros in
        let place : (window_size - 1 - since) * 8 ≡ 8 * (length older + 0) =
          omega (arith, before) in
        let small : r.newest ≤ max_uint64 =
          AllUint64-last r.front r.newest (subst AllUint64 r.split h.1) in
        let result : older ++ v ∷ zeros ≡ next_slots ws units since =
          sym (append_assoc older (v ∷ []) zeros)
          ∙ ap (λ l. l ++ zeros) (sym (drop-front since r.front v within))
          ∙ ap (λ l. drop since l ++ zeros)
              (sym (add_to_last-append r.front r.newest units)
                ∙ ap (λ l. add_to_last l units) (sym r.split)) in
        rw b (
          ap (λ l. update l ((window_size - 1 - since) * 8) units)
            (roll_lem ws since h ∙ ap encode_words rolled)
          ∙ ap (λ k. update (encode_words (older ++ r.newest ∷ zeros)) k units) place
          ∙ update_lem (older ++ r.newest ∷ zeros) (length older + 0) units r.newest zeros u small
              (drop-append older (r.newest ∷ zeros) 0)
          ∙ ap encode_words (
              copy_at-append older (r.newest ∷ zeros) (v ∷ []) 0
              ∙ ap (◌++◌ older) (copy_at_one r.newest v zeros)
              ∙ result))
    | inr b ↦
        let gone : drop since ws ≡ [] = drop-of_length_le since ws (ground (arith, h.0)) in
        let gone' : drop since (add_to_last ws units) ≡ [] =
          drop-of_length_le since (add_to_last ws units)
            (ground (arith, h.0, length-add_to_last ws units)) in
        rw b (
          roll_lem ws since h
          ∙ ap (λ l. encode_words (l ++ replicate (min since window_size) 0)) (gone ∙ sym gone'))
  ]
