-- ===== src/Replay/Emap.antt =====
-- internal/emap/emap.go: the identifiers seen, in buckets by expiry. A bucket stands in `times` and
-- in the heap under one pointer, so its items are read from `times`, and the heap is the list of its
-- timestamps, of which `First` is the least. Times lie after 1970.
use hypersdk.Base.{
  ℕ, zero, suc, Bool, true, false, List, [], ◌∷◌, ◌++◌, Option, none, some, Bytes, ℕ_eq, Bytes_eq,
  GoMap, empty_map, assign, delete, GoSet, empty_set, include, exclude_all, ltb, nat_eq, length,
  if◌then◌else◌,
}

pub record Item : Type 0 where
  pub id : Bytes
  pub expiry : ℕ

pub record Emap : Type 0 where
  pub heap : List ℕ
  pub seen : GoSet Bytes
  pub times : GoMap ℕ (List Bytes)

-- `NewEMap`
unfoldable pub new_emap : Emap
new_emap = record { heap = []; seen = empty_set; times = empty_map }

-- `add`
unfoldable pub add : Emap → Bytes → ℕ → Emap
add e id t = if nat_eq t 0 then e else if e.seen id then e else elim (e.times t) [
  | some items ↦ record e { seen = include e.seen id; times = assign e.times t (items ++ id ∷ []) }
  | none ↦ record {
    seen = include e.seen id;
    times = assign e.times t (id ∷ []);
    heap = e.heap ++ t ∷ [];
  }
]

-- `Add`
unfoldable pub add_items : Emap → List Item → Emap
unfolding add
add_items e [] = e
add_items e (x ∷ xs) = add_items (add e x.id x.expiry) xs

-- The least timestamp of the heap, and the heap without it.
unfoldable pub pop_first : List ℕ → Option (ℕ × List ℕ)
pop_first [] = none
pop_first (t ∷ ts) = elim (pop_first ts) [
  | none ↦ some (t, [])
  | some (least, rest) ↦ if ltb least t then some (least, t ∷ rest) else some (t, ts)
]

abbrev pub items_of : Option (List Bytes) → List Bytes
items_of none = []
items_of (some items) = items

-- One round of `SetMin` on the bucket at the top of the heap.
abbrev pub drop_bucket : Emap → ℕ → List ℕ → Emap
drop_bucket e t rest = record {
  heap = rest;
  seen = exclude_all e.seen (items_of (e.times t));
  times = delete e.times t;
}

-- The loop of `SetMin`, on fuel: a round removes an entry of the heap.
unfoldable pub set_min_from : ℕ → ℕ → Emap → List Bytes → Emap × List Bytes
unfolding pop_first
set_min_from zero t e evicted = (e, evicted)
set_min_from (suc fuel) t e evicted = elim (pop_first e.heap) [
  | none ↦ (e, evicted)
  | some (least, rest) ↦ elim (ltb least t) [
    | false ↦ (e, evicted)
    | true ↦ set_min_from fuel t (drop_bucket e least rest) (evicted ++ items_of (e.times least))
  ]
]

-- `SetMin`
unfoldable pub set_min : Emap → ℕ → Emap × List Bytes
unfolding set_min_from
set_min e t = set_min_from (length e.heap) t e []

-- `Any`
unfoldable pub any : Emap → List Item → Bool
any e [] = false
any e (x ∷ xs) = if e.seen x.id then true else any e xs

-- A pass over items with their marks: it marks those that pass the test, and stops at the first such
-- if it is to. The flag says that it stopped. This is the loop of `Contains`.
unfoldable pub mark : (Bytes → Bool) → Bool → List (Item × Bool) → List (Item × Bool) × Bool
mark test stop [] = ([], false)
mark test stop ((x, true) ∷ xs) = let (ys, stopped) = mark test stop xs in ((x, true) ∷ ys, stopped)
mark test stop ((x, false) ∷ xs) =
    let (ys, stopped) = mark test stop xs in
    if test x.id
    then if stop then ((x, true) ∷ xs, true) else ((x, true) ∷ ys, stopped)
    else ((x, false) ∷ ys, stopped)

-- `Contains`
unfoldable pub contains_items : Emap → List (Item × Bool) → Bool → List (Item × Bool)
unfolding mark
contains_items e xs stop = (mark e.seen stop xs).0
