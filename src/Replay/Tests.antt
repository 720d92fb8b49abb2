-- ===== src/Replay/Tests.antt =====
-- internal/emap and internal/validitywindow: runs at concrete inputs.
use hypersdk.Base.{
  ℕ, ◌≡◌, ◌≢◌, ◌⊎◌, refl, true, [], ◌∷◌, Option, none, some, Bytes, ◌==◌, Bytes_eq, if◌then◌else◌,
  Bool-cases, inl, inr, ok, err, arith,
}
use hypersdk.Replay.Emap.{Item, Emap, new_emap, set_min, add_items, add, mark}
use hypersdk.Replay.Tracking.{
  IsWellFormed, Evicts, new_emap-IsWellFormed, add_items-IsWellFormed, set_min-Evicts,
}
use hypersdk.Replay.Distinct.{Distinct, Repeated}
use hypersdk.Replay.Window.{
  Block, Window, accept_all, is_repeat, verify_expiry_replay_protection, out_of_fuel, is_repeat_of,
  calculate_oldest_allowed, duplicate_container,
}
use hypersdk.Replay.Walk.{
  Clear, Repeats, container_ids, HeightsRise, is_repeat_terminates, verify-Clear, verify-Repeats,
}
use hypersdk.Replay.Accepted.{accept_all-seen}

abbrev item_a : Item
item_a = record { id = 1 ∷ []; expiry = 10 }

abbrev item_b : Item
item_b = record { id = 2 ∷ []; expiry = 20 }

abbrev tracked : Emap
tracked = add_items new_emap (item_a ∷ item_b ∷ [])

tracked-IsWellFormed : IsWellFormed tracked
tracked-IsWellFormed = add_items-IsWellFormed new_emap (item_a ∷ item_b ∷ []) new_emap-IsWellFormed

-- Eviction at time 15 drops the first item and keeps the second.
set_min-Evicts_example : Evicts 15 tracked (set_min tracked 15).0 [] (set_min tracked 15).1
set_min-Evicts_example = set_min-Evicts tracked 15 tracked-IsWellFormed

set_min-tracked : (set_min tracked 15).1 ≡ (1 ∷ []) ∷ []
unfolding set_min add_items new_emap
set_min-tracked = refl

-- A genesis block, a child with one item, and a grandchild.
abbrev genesis : Block
genesis = record { id = 0 ∷ []; parent = []; timestamp = 0; height = 0; containers = [] }

abbrev child : Block
child = record { id = 7 ∷ []; parent = 0 ∷ []; timestamp = 5; height = 1; containers = item_a ∷ [] }

abbrev get_block : Bytes → Option Block
get_block k = if k == (0 ∷ []) then some genesis else if k == (7 ∷ []) then some child else none

abbrev window_of : ℕ → ℕ
window_of t = 60

abbrev empty : Window
empty = record { seen = new_emap; last_accepted_block_height = 0 }

abbrev fresh : Block
fresh = record { id = 8 ∷ []; parent = 7 ∷ []; timestamp = 6; height = 2; containers = item_b ∷ [] }

abbrev replay : Block
replay = record fresh { containers = item_a ∷ [] }

verify-fresh : verify_expiry_replay_protection get_block window_of empty fresh ≡ ok tt
unfolding verify_expiry_replay_protection is_repeat_of mark new_emap
    hypersdk.Replay.Emap.contains_items
verify-fresh = refl

verify-Clear_example :
    Distinct (container_ids get_block window_of fresh)
    × ((p : Block) × (get_block fresh.parent ≡ some p)
        × Clear get_block window_of empty
            (calculate_oldest_allowed get_block window_of fresh.timestamp)
            p
            (container_ids get_block window_of fresh))
verify-Clear_example = verify-Clear get_block window_of empty fresh (omega arith) verify-fresh

verify-replay :
    verify_expiry_replay_protection get_block window_of empty replay ≡ err duplicate_container
unfolding verify_expiry_replay_protection is_repeat_of mark new_emap
    hypersdk.Replay.Emap.contains_items
verify-replay = refl

verify-Repeats_example :
    Repeated (container_ids get_block window_of replay)
    ⊎ ((p : Block) × (get_block replay.parent ≡ some p)
        × Repeats get_block window_of empty
            (calculate_oldest_allowed get_block window_of replay.timestamp)
            p
            (container_ids get_block window_of replay))
verify-Repeats_example = verify-Repeats get_block window_of empty replay verify-replay

-- The index holds the genesis block and its child.
rises : HeightsRise get_block window_of
rises k b h p q = elim (Bool-cases (k == (0 ∷ []))) [
  | inl e ↦ absurd (ground arith)
  | inr e ↦ elim (Bool-cases (k == (7 ∷ []))) [
    | inl f ↦ ground arith
    | inr f ↦ absurd (ground arith)
  ]
]

is_repeat_terminates_example :
    is_repeat get_block window_of empty fresh 6 (item_b ∷ []) ≢ err out_of_fuel
is_repeat_terminates_example =
    is_repeat_terminates get_block window_of empty fresh 6 (item_b ∷ []) rises (λ p q. ground arith)

accept_all-seen_example : (accept_all empty (child ∷ fresh ∷ [])).seen.seen (1 ∷ []) ≡ true
accept_all-seen_example =
    accept_all-seen empty child (fresh ∷ []) [] [] item_a new_emap-IsWellFormed refl
      (unfold new_emap in refl) refl (omega arith) (omega arith)
