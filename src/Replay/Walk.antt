-- ===== src/Replay/Walk.antt =====
-- internal/validitywindow/validitywindow.go: what `VerifyExpiryReplayProtection` has looked at when
-- it accepts a block, and why it refuses one.
use hypersdk.Base.{
  ℕ, zero, suc, ◌≤◌, ◌<◌, ◌≡◌, ◌≢◌, refl, ap, ◌∙◌, subst, Bool, true, false, ◌⊎◌, inl, inr, List,
  [], ◌∷◌, map, Option, some, Bytes, Bytes_eq, bytes_eq_iff, contains, ltb, if◌then◌else◌,
  Bool-cases, Option-cases, Outcome, ok, err, arith,
}
use hypersdk.Replay.Emap.{Item, mark, contains_items}
use hypersdk.Replay.Distinct.{Distinct, Repeated, has_repeat-Distinct, has_repeat-Repeated}
use hypersdk.Replay.Window.{
  Block, Window, ReplayError, block_contains, has_repeat, unmarked, any_marked, is_accepted,
  out_of_fuel, is_repeat_from, is_repeat_of, is_repeat, duplicate_container,
  calculate_oldest_allowed, verify_expiry_replay_protection,
}

abbrev pub ids : List (Item × Bool) → List Bytes
ids [] = []
ids ((x, m) ∷ xs) = x.id ∷ ids xs

-- The test fails at every identifier of the list.
abbrev pub Fails : (Bytes → Bool) → List Bytes → Type 0
Fails test xs = (id : Bytes) → contains id xs ≡ true → test id ≡ false

-- The test holds at one of them.
abbrev pub Hits : (Bytes → Bool) → List Bytes → Type 0
Hits test xs = (id : Bytes) × (contains id xs ≡ true) × (test id ≡ true)

-- A pass over unmarked items that marks none leaves them as they are, and each fails the test.
mark-Fails :
    (test : Bytes → Bool) (stop : Bool) (xs : List (Item × Bool))
    → any_marked (mark test stop xs).0 ≡ false
    → (mark test stop xs ≡ (xs, false)) × Fails test (ids xs)
unfolding mark
mark-Fails test stop [] h = (refl, λ id k. cc)
mark-Fails test stop ((x, true) ∷ xs) h = absurd (ground arith)
mark-Fails test stop ((x, false) ∷ xs) h = elim (Bool-cases (test x.id)) [
  | inl e ↦ absurd (ground arith)
  | inr e ↦
      let (p, q) = mark-Fails test stop xs (ground arith) in
      (ground arith, λ id k. ground (arith, q id, bytes_eq_iff id x.id))
]

-- A pass over unmarked items marks one only if it passes the test, and then stops if it is to.
mark-Hits :
    (test : Bytes → Bool) (xs : List (Item × Bool))
    → any_marked xs ≡ false
    → ((mark test true xs ≡ (xs, false)) × Fails test (ids xs))
      ⊎ (((mark test true xs).1 ≡ true)
          × (any_marked (mark test true xs).0 ≡ true)
          × Hits test (ids xs))
unfolding mark
mark-Hits test [] h = inl (refl, λ id k. cc)
mark-Hits test ((x, true) ∷ xs) h = absurd (ground arith)
mark-Hits test ((x, false) ∷ xs) h = elim (Bool-cases (test x.id)) [
  | inl e ↦ inr (ground arith, ground arith, (x.id, ground (arith, bytes_eq_iff x.id x.id), e))
  | inr e ↦ elim (mark-Hits test xs (ground arith)) [
    | inl (p, q) ↦ inl (ground arith, λ id k. ground (arith, q id, bytes_eq_iff id x.id))
    | inr (p, m, (id, k, t)) ↦ inr (ground arith, ground arith, (id, ground arith, t))
  ]
]

-- Whether a block of the walk is known to hold an identifier: by the map, if it is accepted.
abbrev pub already : Window → Block → Bytes → Bool
already w b id = if is_accepted w b then w.seen.seen id else block_contains b id

module _ (get_block : Bytes → Option Block) (window_of : ℕ → ℕ) where
  -- The blocks that the walk comes to from a block: its ancestors, as long as they are not accepted
  -- and not too old.
  pub data Walk (w : Window) (oldest : ℕ) (a : Block) : Block → Type 0 where
    here : {b : Block} → a ≡ b → Walk w oldest a b
    up :
        {b : Block} (p : Block)
        → oldest ≤ b.timestamp
        → is_accepted w b ≡ false
        → get_block b.parent ≡ some p
        → Walk w oldest a p
        → Walk w oldest a b

  -- No block of the walk is known to hold an identifier of the list.
  abbrev pub Clear : Window → ℕ → Block → List Bytes → Type 0
  Clear w oldest b xs =
      (a : Block) → Walk w oldest a b → oldest ≤ a.timestamp → Fails (already w a) xs

  -- One does.
  pub record Repeats (w : Window) (oldest : ℕ) (b : Block) (xs : List Bytes) : Type 0 where
    pub ancestor : Block
    pub walk : Walk w oldest ancestor b
    pub fresh : oldest ≤ ancestor.timestamp
    pub hit : Hits (already w ancestor) xs

  pub Clear-old :
      (w : Window) (oldest : ℕ) (b : Block) (xs : List Bytes)
      → b.timestamp < oldest
      → Clear w oldest b xs
  Clear-old w oldest b xs lt a (here e) le = absurd (ground arith)
  Clear-old w oldest b xs lt a (up p le' n q k) le = absurd (omega arith)

  pub Clear-accepted :
      (w : Window) (oldest : ℕ) (b : Block) (xs : List Bytes)
      → is_accepted w b ≡ true
      → Fails w.seen.seen xs
      → Clear w oldest b xs
  Clear-accepted w oldest b xs acc f a (here e) le id k = rw (e, acc) (f id k)
  Clear-accepted w oldest b xs acc f a (up p le' n q r) le id k = absurd (ground arith)

  pub Clear-up :
      (w : Window) (oldest : ℕ) (b p : Block) (xs : List Bytes)
      → is_accepted w b ≡ false
      → get_block b.parent ≡ some p
      → Fails (block_contains b) xs
      → Clear w oldest p xs
      → Clear w oldest b xs
  Clear-up w oldest b p xs n q f c a (here e) le id k = rw (e, n) (f id k)
  Clear-up w oldest b p xs n q f c a (up p' le' n' q' r) le id k =
      let same : p' ≡ p = ground arith in c a (rw same at r) le id k

  -- What the walk comes to, from unmarked containers, if it is to stop at the first repeat.
  pub data Verdict (w : Window) (oldest : ℕ) (b : Block) (xs : List (Item × Bool))
      (r : Outcome ReplayError (List (Item × Bool))) : Type 0 where
    clear : r ≡ ok xs → Clear w oldest b (ids xs) → Verdict w oldest b xs r
    repeats :
        (ys : List (Item × Bool))
        → r ≡ ok ys
        → any_marked ys ≡ true
        → Repeats w oldest b (ids xs)
        → Verdict w oldest b xs r
    failed : (e : ReplayError) → r ≡ err e → e ≢ duplicate_container → Verdict w oldest b xs r

  Verdict-up :
      (w : Window) (oldest : ℕ) (b p : Block) (xs : List (Item × Bool))
      (r : Outcome ReplayError (List (Item × Bool)))
      → oldest ≤ b.timestamp
      → is_accepted w b ≡ false
      → get_block b.parent ≡ some p
      → Fails (block_contains b) (ids xs)
      → Verdict w oldest p xs r
      → Verdict w oldest b xs r
  Verdict-up w oldest b p xs r le n q f (clear e c) =
      clear e (Clear-up w oldest b p (ids xs) n q f c)
  Verdict-up w oldest b p xs r le n q f (repeats ys e m v) =
      repeats ys e m
        (record { ancestor = v.ancestor; walk = up p le n q v.walk; fresh = v.fresh; hit = v.hit })
  Verdict-up w oldest b p xs r le n q f (failed e h d) = failed e h d

  Hits-already :
      (w : Window) (b : Block) (test : Bytes → Bool) (xs : List Bytes)
      → ((id : Bytes) → already w b id ≡ test id)
      → Hits test xs
      → Hits (already w b) xs
  Hits-already w b test xs same (id, k, t) = (id, k, same id ∙ t)

  Verdict-hit :
      (w : Window) (oldest : ℕ) (b : Block) (xs ys : List (Item × Bool))
      (r : Outcome ReplayError (List (Item × Bool)))
      → oldest ≤ b.timestamp
      → r ≡ ok ys
      → any_marked ys ≡ true
      → Hits (already w b) (ids xs)
      → Verdict w oldest b xs r
  Verdict-hit w oldest b xs ys r le e m h =
      repeats ys e m (record { ancestor = b; walk = here refl; fresh = le; hit = h })

  is_repeat_from-Verdict :
      (fuel : ℕ) (w : Window) (b : Block) (oldest : ℕ) (xs : List (Item × Bool))
      → any_marked xs ≡ false
      → Verdict w oldest b xs (is_repeat_from get_block window_of fuel w b oldest xs true)
  unfolding is_repeat_from contains_items
  is_repeat_from-Verdict zero w b oldest xs m = failed out_of_fuel refl (λ k. cc)
  is_repeat_from-Verdict (suc fuel) w b oldest xs m = elim (Bool-cases (ltb b.timestamp oldest)) [
    | inl old ↦ clear (ground arith) (Clear-old w oldest b (ids xs) (ground arith))
    | inr fresh ↦
        let le : oldest ≤ b.timestamp = ground arith in
        elim (Bool-cases (is_accepted w b)) [
          | inl acc ↦ elim (mark-Hits w.seen.seen xs m) [
            | inl (p, f) ↦ clear (ground arith) (Clear-accepted w oldest b (ids xs) acc f)
            | inr (s, k, h) ↦
                Verdict-hit w oldest b xs (mark w.seen.seen true xs).0 _ le (ground arith) k
                  (Hits-already w b w.seen.seen (ids xs) (λ id. rw acc) h)
          ]
          | inr new ↦ elim (mark-Hits (block_contains b) xs m) [
            | inr (s, k, h) ↦
                Verdict-hit w oldest b xs (mark (block_contains b) true xs).0 _ le (ground arith) k
                  (Hits-already w b (block_contains b) (ids xs) (λ id. rw new) h)
            | inl (p, f) ↦ elim (Option-cases (get_block b.parent)) [
              | inl q ↦ failed ReplayError.missing_ancestor (ground arith) (λ k. cc)
              | inr (a, q) ↦
                  let rest = is_repeat_from-Verdict fuel w a oldest xs m in
                  subst (Verdict w oldest b xs) (stepped fuel w b a oldest xs fresh new p q)
                    (Verdict-up w oldest b a xs _ le new q f rest)
            ]
          ]
        ]
  ]
    where
      stepped :
          (fuel : ℕ) (w : Window) (b a : Block) (oldest : ℕ) (xs : List (Item × Bool))
          → ltb b.timestamp oldest ≡ false
          → is_accepted w b ≡ false
          → mark (block_contains b) true xs ≡ (xs, false)
          → get_block b.parent ≡ some a
          → is_repeat_from get_block window_of fuel w a oldest xs true
            ≡ is_repeat_from get_block window_of (suc fuel) w b oldest xs true
      stepped fuel w b a oldest xs fresh new p q = ground arith

  -- The height of a block is one more than that of its parent, where its parent is indexed.
  abbrev pub Rises : Block → Type 0
  Rises b = (p : Block) → get_block b.parent ≡ some p → b.height ≡ suc p.height

  -- So it is for every block that is indexed.
  abbrev pub HeightsRise : Type 0
  HeightsRise = (k : Bytes) (b : Block) → get_block k ≡ some b → Rises b

  is_repeat_from-ne-out_of_fuel :
      (fuel : ℕ) (w : Window) (b : Block) (oldest : ℕ) (xs : List (Item × Bool)) (stop : Bool)
      → HeightsRise
      → Rises b
      → b.height < fuel
      → is_repeat_from get_block window_of fuel w b oldest xs stop ≢ err out_of_fuel
  unfolding is_repeat_from
  is_repeat_from-ne-out_of_fuel zero w b oldest xs stop rise own lt = absurd (omega arith)
  is_repeat_from-ne-out_of_fuel (suc fuel) w b oldest xs stop rise own lt =
      elim (Option-cases (get_block b.parent)) [
        | inl q ↦ ground arith
        | inr (p, q) ↦
            let ys = (mark (block_contains b) stop xs).0 in
            let deeper : is_repeat_from get_block window_of fuel w p oldest ys stop
                ≢ err out_of_fuel =
              is_repeat_from-ne-out_of_fuel fuel w p oldest ys stop rise (rise b.parent p q)
                (omega (arith, own p q)) in
            ground arith
      ]

  -- Where every indexed block, and the block that the walk starts at, is one higher than its parent
  -- if that is indexed, IsRepeat ends with its marks or for want of an ancestor: the walk needs no
  -- more rounds than the height of the block that it starts at, and one.
  pub is_repeat_terminates :
      (w : Window) (b : Block) (now : ℕ) (xs : List Item)
      → HeightsRise
      → Rises b
      → is_repeat get_block window_of w b now xs ≢ err out_of_fuel
  unfolding is_repeat is_repeat_of
  is_repeat_terminates w b now xs rise own =
      is_repeat_from-ne-out_of_fuel (suc b.height) w b
        (calculate_oldest_allowed get_block window_of now) (unmarked xs) false rise own
        (omega arith)

  ids-unmarked : (xs : List Item) → ids (unmarked xs) ≡ map (λ x. x.id) xs
  ids-unmarked [] = refl
  ids-unmarked (x ∷ xs) = ap (◌∷◌ x.id) (ids-unmarked xs)

  any_marked-unmarked : (xs : List Item) → any_marked (unmarked xs) ≡ false
  any_marked-unmarked [] = refl
  any_marked-unmarked (x ∷ xs) = any_marked-unmarked xs

  is_repeat_of-Verdict :
      (w : Window) (b : Block) (oldest : ℕ) (xs : List Item)
      → Verdict w oldest b (unmarked xs) (is_repeat_of get_block window_of w b oldest xs true)
  unfolding is_repeat_of
  is_repeat_of-Verdict w b oldest xs =
      is_repeat_from-Verdict (suc b.height) w b oldest (unmarked xs) (any_marked-unmarked xs)

  abbrev pub container_ids : Block → List Bytes
  container_ids b = map (λ x. x.id) b.containers

  -- A block above the last accepted one that VerifyExpiryReplayProtection lets pass has a parent,
  -- the identifier of no container of it stands among those of the containers after it, and none of these is known to a block of the walk
  -- from the parent that is not too old: to the block itself, or to the expiry map if that block is
  -- accepted.
  pub verify-Clear :
      (w : Window) (b : Block)
      → w.last_accepted_block_height < b.height
      → verify_expiry_replay_protection get_block window_of w b ≡ ok tt
      → Distinct (container_ids b)
        × ((p : Block) × (get_block b.parent ≡ some p)
            × Clear w
                (calculate_oldest_allowed get_block window_of b.timestamp)
                p
                (container_ids b))
  unfolding verify_expiry_replay_protection
  verify-Clear w b lt h = elim (Option-cases (get_block b.parent)) [
    | inl q ↦ absurd (ground arith)
    | inr (p, q) ↦
        let oldest = calculate_oldest_allowed get_block window_of b.timestamp in
        elim (is_repeat_of-Verdict w p oldest b.containers) [
          | clear e c ↦ (
            has_repeat-Distinct b.containers (ground arith),
            (p, q, rw (ids-unmarked b.containers) at c),
          )
          | repeats ys e m v ↦ absurd (ground arith)
          | failed e k d ↦ absurd (ground arith)
        ]
  ]

  -- VerifyExpiryReplayProtection takes a block for a duplicate only if the identifiers of its
  -- containers are `pre ++ x ∷ mid ++ x ∷ post` for some `x`, or one of them is known to a block of the walk from its parent.
  pub verify-Repeats :
      (w : Window) (b : Block)
      → verify_expiry_replay_protection get_block window_of w b ≡ err duplicate_container
      → Repeated (container_ids b)
        ⊎ ((p : Block) × (get_block b.parent ≡ some p)
            × Repeats w
                (calculate_oldest_allowed get_block window_of b.timestamp)
                p
                (container_ids b))
  unfolding verify_expiry_replay_protection
  verify-Repeats w b h = elim (Bool-cases (has_repeat [] b.containers)) [
    | inl r ↦ inl (has_repeat-Repeated b.containers r)
    | inr r ↦ elim (Option-cases (get_block b.parent)) [
      | inl q ↦ absurd (ground arith)
      | inr (p, q) ↦
          let oldest = calculate_oldest_allowed get_block window_of b.timestamp in
          elim (is_repeat_of-Verdict w p oldest b.containers) [
            | clear e c ↦ absurd (ground (arith, any_marked-unmarked b.containers))
            | repeats ys e m v ↦ inr (p, q, rw (ids-unmarked b.containers) at v)
            | failed e k d ↦ absurd (ground arith)
          ]
    ]
  ]
