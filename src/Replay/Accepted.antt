-- ===== src/Replay/Accepted.antt =====
-- internal/validitywindow/validitywindow.go: how long `Accept` keeps a container in mind.
use hypersdk.Base.{
  ℕ, ◌≤◌, ◌≡◌, ◌≢◌, true, false, List, [], ◌∷◌, ◌++◌, Bytes, Bytes_eq, bytes_eq_iff, nat_eq_iff,
  arith,
}
use hypersdk.Replay.Emap.{Item, Emap, add, add_items, set_min}
use hypersdk.Replay.Tracking.{
  IsWellFormed, held, held-add, seen-add, add_items-IsWellFormed, set_min-Evicts, names,
}
use hypersdk.Replay.Window.{Block, Window, accept, accept_all}

held-add_items :
    (e : Emap) (xs : List Item) (j : Bytes) (t : ℕ)
    → held e j t ≡ true
    → held (add_items e xs) j t ≡ true
unfolding add_items
held-add_items e [] j t h = h
held-add_items e (x ∷ xs) j t h =
    held-add_items (add e x.id x.expiry) xs j t (ground (arith, held-add e x.id x.expiry j t))

-- The first item of its identifier is held at its expiry, unless that is zero.
held-add_items_new :
    (e : Emap) (before after : List Item) (x : Item)
    → e.seen x.id ≡ false
    → names before x.id ≡ false
    → x.expiry ≢ 0
    → held (add_items e (before ++ x ∷ after)) x.id x.expiry ≡ true
unfolding add_items
held-add_items_new e [] after x s n z = held-add_items (add e x.id x.expiry) after x.id x.expiry (
    ground (
      arith,
      held-add e x.id x.expiry x.id x.expiry,
      bytes_eq_iff x.id x.id,
      nat_eq_iff x.expiry x.expiry,
      nat_eq_iff x.expiry 0,
    ))
held-add_items_new e (y ∷ before) after x s n z =
    held-add_items_new (add e y.id y.expiry) before after x
      (ground (arith, seen-add e y.id y.expiry x.id)) (ground arith) z

pub accept-IsWellFormed :
    (w : Window) (b : Block) → IsWellFormed w.seen → IsWellFormed (accept w b).seen
unfolding accept
accept-IsWellFormed w b v =
    add_items-IsWellFormed (set_min w.seen b.timestamp).0 b.containers
      (set_min-Evicts w.seen b.timestamp v).valid

held-accept :
    (w : Window) (b : Block) (j : Bytes) (t : ℕ)
    → IsWellFormed w.seen
    → b.timestamp ≤ t
    → held w.seen j t ≡ true
    → held (accept w b).seen j t ≡ true
unfolding accept
held-accept w b j t v le h =
    held-add_items (set_min w.seen b.timestamp).0 b.containers j t
      (ground (arith, (set_min-Evicts w.seen b.timestamp v).holds j t))

-- No block of the list is later than the time.
abbrev pub NotAfter : ℕ → List Block → Type 0
NotAfter t [] = Unit
NotAfter t (b ∷ bs) = (b.timestamp ≤ t) × NotAfter t bs

accept_all-held :
    (w : Window) (bs : List Block) (j : Bytes) (t : ℕ)
    → IsWellFormed w.seen
    → NotAfter t bs
    → held w.seen j t ≡ true
    → (accept_all w bs).seen.seen j ≡ true
unfolding accept_all
accept_all-held w [] j t v n h = v.held-seen j t h
accept_all-held w (b ∷ bs) j t v n h =
    accept_all-held (accept w b) bs j t (accept-IsWellFormed w b v) n.1
      (held-accept w b j t v n.0 h)

-- On a well-formed map, a container with an expiry that is not zero and an identifier that is new to
-- the map and to the containers before it is seen after its block is accepted, and as long as no
-- block accepted since is later than its expiry.
pub accept_all-seen :
    (w : Window) (b : Block) (bs : List Block) (before after : List Item) (x : Item)
    → IsWellFormed w.seen
    → b.containers ≡ before ++ x ∷ after
    → w.seen.seen x.id ≡ false
    → names before x.id ≡ false
    → x.expiry ≢ 0
    → NotAfter x.expiry bs
    → (accept_all w (b ∷ bs)).seen.seen x.id ≡ true
unfolding accept_all
accept_all-seen w b bs before after x v e s n z late =
    accept_all-held (accept w b) bs x.id x.expiry (accept-IsWellFormed w b v) late (
      unfold accept in
      rw e (
        held-add_items_new (set_min w.seen b.timestamp).0 before after x
          (ground (arith, (set_min-Evicts w.seen b.timestamp v).sees x.id)) n z))
