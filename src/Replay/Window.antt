-- ===== src/Replay/Window.antt =====
-- internal/validitywindow/validitywindow.go: `TimeValidityWindow`. The chain index and the function
-- that gives the length of the window are interfaces, and so parameters. A block whose parent is
-- not to be had ends the walk with an error. Marks stand beside the containers, for the bits of
-- `set.Bits`; an error carries none, since no caller reads them then. The lock is left out.
use hypersdk.Base.{
  ℕ, zero, suc, ◌-◌, Bool, true, false, ◌||◌, List, [], ◌∷◌, map, Option, none, some, Bytes,
  Bytes_eq, contains, ltb, leb, nat_eq, if◌then◌else◌, Outcome, ok, err, ◌>>=◌, ◌>>◌, guard, not,
}
use hypersdk.Replay.Emap.{Item, Emap, new_emap, add_items, set_min, mark, contains_items}

pub record Block : Type 0 where
  pub id : Bytes
  pub parent : Bytes
  pub timestamp : ℕ
  pub height : ℕ
  pub containers : List Item

-- `Contains`: an execution block keeps the set of the identifiers of its containers.
abbrev pub block_contains : Block → Bytes → Bool
block_contains b id = contains id (map (λ x. x.id) b.containers)

pub record Window : Type 0 where
  pub seen : Emap
  pub last_accepted_block_height : ℕ

-- `out_of_fuel` is no error of the source.
pub data ReplayError : Type 0 where
  duplicate_container missing_parent missing_ancestor out_of_fuel : ReplayError

-- `Accept`
unfoldable pub accept : Window → Block → Window
accept w b = record {
  seen = add_items (set_min w.seen b.timestamp).0 b.containers;
  last_accepted_block_height = b.height;
}

-- `AcceptHistorical`
unfoldable pub accept_historical : Window → Block → Window
accept_historical w b = record w { seen = add_items w.seen b.containers }

-- The loop of `populate` that accepts the blocks, the oldest first.
unfoldable pub accept_all : Window → List Block → Window
unfolding accept
accept_all w [] = w
accept_all w (b ∷ bs) = accept_all (accept w b) bs

-- The loop that finds two containers with one identifier, with the identifiers so far.
unfoldable pub has_repeat : List Bytes → List Item → Bool
has_repeat ids [] = false
has_repeat ids (x ∷ xs) = if contains x.id ids then true else has_repeat (x.id ∷ ids) xs

abbrev pub unmarked : List Item → List (Item × Bool)
unmarked [] = []
unmarked (x ∷ xs) = (x, false) ∷ unmarked xs

-- `dup.Len() > 0`
abbrev pub any_marked : List (Item × Bool) → Bool
any_marked [] = false
any_marked ((x, m) ∷ xs) = m || any_marked xs

-- Whether the walk has come to a block that is accepted.
abbrev pub is_accepted : Window → Block → Bool
is_accepted w b = leb b.height w.last_accepted_block_height || nat_eq b.height 0

module _ (get_block : Bytes → Option Block) (window_of : ℕ → ℕ) where
  -- `calculateOldestAllowed`
  unfoldable pub calculate_oldest_allowed : ℕ → ℕ
  calculate_oldest_allowed timestamp = timestamp - window_of timestamp

  -- The loop of `isRepeat`
  unfoldable pub is_repeat_from :
      ℕ → Window → Block → ℕ → List (Item × Bool) → Bool → Outcome ReplayError (List (Item × Bool))
  is_repeat_from zero w b oldest xs stop = err out_of_fuel
  is_repeat_from (suc fuel) w b oldest xs stop = elim (ltb b.timestamp oldest) [
    | true ↦ ok xs
    | false ↦ elim (is_accepted w b) [
      | true ↦ ok (contains_items w.seen xs stop)
      | false ↦
          let (ys, stopped) = mark (block_contains b) stop xs in
          elim stopped [
            | true ↦ ok ys
            | false ↦ elim (get_block b.parent) [
              | none ↦ err missing_ancestor
              | some p ↦ is_repeat_from fuel w p oldest ys stop
            ]
          ]
    ]
  ]

  -- `isRepeat`
  unfoldable pub is_repeat_of :
      Window → Block → ℕ → List Item → Bool → Outcome ReplayError (List (Item × Bool))
  unfolding is_repeat_from
  is_repeat_of w b oldest xs stop = is_repeat_from (suc b.height) w b oldest (unmarked xs) stop

  -- `IsRepeat`
  unfoldable pub is_repeat :
      Window → Block → ℕ → List Item → Outcome ReplayError (List (Item × Bool))
  unfolding is_repeat_of calculate_oldest_allowed
  is_repeat w b now xs = is_repeat_of w b (calculate_oldest_allowed now) xs false

  abbrev or_missing : ReplayError → Option Block → Outcome ReplayError Block
  or_missing e none = err e
  or_missing e (some b) = ok b

  -- `VerifyExpiryReplayProtection` of a block that is not accepted yet
  abbrev pub verify_new : Window → Block → Outcome ReplayError (Unit {0})
  verify_new w b = do
    guard (not (has_repeat [] b.containers)) duplicate_container
    p ← or_missing missing_parent (get_block b.parent)
    marked ← is_repeat_of w p (calculate_oldest_allowed b.timestamp) b.containers true
    guard (not (any_marked marked)) duplicate_container

  -- `VerifyExpiryReplayProtection`
  unfoldable pub verify_expiry_replay_protection : Window → Block → Outcome ReplayError (Unit {0})
  unfolding has_repeat is_repeat_of calculate_oldest_allowed
  verify_expiry_replay_protection w b =
      if leb b.height w.last_accepted_block_height then ok tt else verify_new w b

  -- The walk of `populate`, which collects the blocks, the oldest first, and says whether they fill
  -- the window.
  unfoldable pub ancestors_from : ℕ → Block → ℕ → List Block → List Block × Bool
  ancestors_from zero b oldest blocks = (blocks, nat_eq b.height 0)
  ancestors_from (suc fuel) b oldest blocks = elim (nat_eq b.height 0) [
    | true ↦ (blocks, true)
    | false ↦ elim (get_block b.parent) [
      | none ↦ (blocks, false)
      | some p ↦ elim (ltb p.timestamp oldest) [
        | true ↦ (p ∷ blocks, true)
        | false ↦ ancestors_from fuel p oldest (p ∷ blocks)
      ]
    ]
  ]

  -- `populate`
  unfoldable pub populate : Window → Block → Window × List Block × Bool
  unfolding ancestors_from accept_all calculate_oldest_allowed
  populate w b =
      let (blocks, full) =
        ancestors_from b.height b (calculate_oldest_allowed b.timestamp) (b ∷ []) in
      (accept_all w blocks, blocks, full)

  -- `NewTimeValidityWindow`
  unfoldable pub new_time_validity_window : Block → Window
  unfolding populate
  new_time_validity_window head =
      (populate (record { seen = new_emap; last_accepted_block_height = 0 }) head).0

  -- `Complete`
  unfoldable pub complete : Window → Block → Window × Bool
  unfolding populate
  complete w b = let (w', blocks, full) = populate w b in (w', full)
