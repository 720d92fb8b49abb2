-- ===== src/Replay/Fresh.antt =====
-- internal/validitywindow/validitywindow.go: `isRepeat` of one item that it is not to stop at.
use hypersdk.Base.{
  ℕ, zero, suc, ◌<◌, ◌≡◌, refl, Bool, true, false, ◌⊎◌, inl, inr, List, [], ◌∷◌, Option, Bytes,
  Bytes_eq, bytes_eq_iff, ltb, Bool-cases, Option-cases, ok, arith, ap, ◌∙◌,
}
use hypersdk.Replay.Emap.{Item, mark, contains_items}
use hypersdk.Replay.Window.{
  Block, Window, block_contains, any_marked, is_accepted, is_repeat_from, is_repeat_of, is_repeat,
  calculate_oldest_allowed,
}
use hypersdk.Replay.Walk.{
  Fails, Walk, here, up, Clear, Clear-old, Clear-accepted, Clear-up, Rises, HeightsRise,
}

Fails-one : (test : Bytes → Bool) (id : Bytes) → test id ≡ false → Fails test (id ∷ [])
Fails-one test id h j k = let same : j ≡ id = ground (arith, bytes_eq_iff j id) in ap test same ∙ h

module _ (get_block : Bytes → Option Block) (window_of : ℕ → ℕ) where
  -- The walk from the block comes to a block that is accepted or too old, and no block of it that is
  -- not too old is known to hold the identifier.
  pub record IsNew (w : Window) (oldest : ℕ) (b : Block) (id : Bytes) : Type 0 where
    pub last : Block
    pub reached : Walk get_block window_of w oldest last b
    pub ends : (last.timestamp < oldest) ⊎ (is_accepted w last ≡ true)
    pub clear : Clear get_block window_of w oldest b (id ∷ [])

  -- A mark stays.
  is_repeat_from-marked :
      (fuel : ℕ) (w : Window) (b : Block) (oldest : ℕ) (x : Item) (ys : List (Item × Bool))
      → is_repeat_from get_block window_of fuel w b oldest ((x, true) ∷ []) false ≡ ok ys
      → any_marked ys ≡ true
  unfolding is_repeat_from contains_items mark
  is_repeat_from-marked zero w b oldest x ys h = absurd (ground arith)
  is_repeat_from-marked (suc fuel) w b oldest x ys h = elim (Option-cases (get_block b.parent)) [
    | inl q ↦ ground arith
    | inr (p, q) ↦ ground (arith, is_repeat_from-marked fuel w p oldest x ys)
  ]

  is_repeat_from-IsNew :
      (fuel : ℕ) (w : Window) (b : Block) (oldest : ℕ) (x : Item) (ys : List (Item × Bool))
      → is_repeat_from get_block window_of fuel w b oldest ((x, false) ∷ []) false ≡ ok ys
      → any_marked ys ≡ false
      → IsNew w oldest b x.id
  unfolding is_repeat_from contains_items mark
  is_repeat_from-IsNew zero w b oldest x ys h m = absurd (ground arith)
  is_repeat_from-IsNew (suc fuel) w b oldest x ys h m = elim (Bool-cases (ltb b.timestamp oldest)) [
    | inl old ↦ record {
      last = b;
      reached = here refl;
      ends = inl (ground arith);
      clear = Clear-old get_block window_of w oldest b (x.id ∷ []) (ground arith);
    }
    | inr fresh ↦ elim (Bool-cases (is_accepted w b)) [
      | inl acc ↦ record {
        last = b;
        reached = here refl;
        ends = inr acc;
        clear =
            Clear-accepted get_block window_of w oldest b (x.id ∷ []) acc
              (Fails-one w.seen.seen x.id (ground arith));
      }
      | inr new ↦ elim (Option-cases (get_block b.parent)) [
        | inl q ↦ absurd (ground arith)
        | inr (p, q) ↦ elim (Bool-cases (block_contains b x.id)) [
          | inl k ↦ absurd (ground (arith, is_repeat_from-marked fuel w p oldest x ys))
          | inr k ↦
              let n = is_repeat_from-IsNew fuel w p oldest x ys (ground arith) m in
              record {
                last = n.last;
                reached = up p (ground arith) new q n.reached;
                ends = n.ends;
                clear =
                    Clear-up get_block window_of w oldest b p (x.id ∷ []) new q
                      (Fails-one (block_contains b) x.id k) n.clear;
              }
        ]
      ]
    ]
  ]

  Walk-is_repeat_from :
      (fuel : ℕ) (w : Window) (last b : Block) (oldest : ℕ) (x : Item)
      → HeightsRise get_block window_of
      → Rises get_block window_of b
      → b.height < fuel
      → (last.timestamp < oldest) ⊎ (is_accepted w last ≡ true)
      → Clear get_block window_of w oldest b (x.id ∷ [])
      → Walk get_block window_of w oldest last b
      → is_repeat_from get_block window_of fuel w b oldest ((x, false) ∷ []) false
        ≡ ok ((x, false) ∷ [])
  unfolding is_repeat_from contains_items mark
  Walk-is_repeat_from zero w last b oldest x rise own lt e c k = absurd (omega arith)
  Walk-is_repeat_from (suc fuel) w last b oldest x rise own lt e c (here q) =
      elim (Bool-cases (ltb b.timestamp oldest)) [
        | inl old ↦ ground arith
        | inr fresh ↦ elim e [
          | inl old ↦ absurd (ground arith)
          | inr acc ↦
              let at : is_accepted w b ≡ true = rw q at acc in
              let unseen : w.seen.seen x.id ≡ false =
                rw at at
                  (c b (here refl) (ground arith) x.id (ground (arith, bytes_eq_iff x.id x.id))) in
              ground arith
        ]
      ]
  Walk-is_repeat_from (suc fuel) w last b oldest x rise own lt e c (up p le new q k) =
      let unseen : block_contains b x.id ≡ false =
        rw new at (c b (here refl) le x.id (ground (arith, bytes_eq_iff x.id x.id))) in
      let rest =
        Walk-is_repeat_from fuel w last p oldest x rise (rise b.parent p q) (omega (arith, own p q))
          e (λ a r. c a (up p le new q r)) k in
      ground arith

  -- What `IsRepeat` says of one item.
  pub is_repeat_one-IsNew :
      (w : Window) (b : Block) (now : ℕ) (x : Item) (ys : List (Item × Bool))
      → is_repeat get_block window_of w b now (x ∷ []) ≡ ok ys
      → any_marked ys ≡ false
      → IsNew w (calculate_oldest_allowed get_block window_of now) b x.id
  unfolding is_repeat is_repeat_of
  is_repeat_one-IsNew w b now x ys h m =
      is_repeat_from-IsNew (suc b.height) w b (calculate_oldest_allowed get_block window_of now) x
        ys h m

  pub IsNew-is_repeat :
      (w : Window) (b : Block) (now : ℕ) (x : Item)
      → HeightsRise get_block window_of
      → Rises get_block window_of b
      → IsNew w (calculate_oldest_allowed get_block window_of now) b x.id
      → is_repeat get_block window_of w b now (x ∷ []) ≡ ok ((x, false) ∷ [])
  unfolding is_repeat is_repeat_of
  IsNew-is_repeat w b now x rise own n =
      Walk-is_repeat_from (suc b.height) w n.last b
        (calculate_oldest_allowed get_block window_of now) x rise own (omega arith) n.ends n.clear
        n.reached
