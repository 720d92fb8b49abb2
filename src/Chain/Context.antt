-- ===== src/Chain/Context.antt =====
-- chain/builder.go and chain/processor.go: the metadata of a block, written over the values of the
-- parent by the one and over no storage by the other, leaves the same state.
use hypersdk.Base.{
  ℕ, ◌≡◌, ◌⊎◌, refl, ap, sym, ◌∙◌, Bool, true, false, Option, none, some, Bytes, ◌==◌, Bytes_eq,
  bytes_eq_iff, Outcome, ok, err, Outcome-cases, Option-cases, Bool-cases, inl, inr, arith, subst,
}
use hypersdk.Binary.{uint64_bytes}
use hypersdk.Keys.{verify_value}
use hypersdk.State.Permissions.{write, allocate}
use hypersdk.State.Scope.{complete_permissions}
use hypersdk.TState.View.{
  View, Error, not_found, insert, get_value_of, commit, is_unchanged, settle, overwrite, create,
  read_through, below, get_changed_value,
}
use hypersdk.TState.Reads.{insert-get_value}
use hypersdk.Chain.Processor.{
  MetadataManager, BlockContext, height_key, timestamp_key, fee_key, write_block_context,
}

insert-pending :
    (v : View) (key value : Bytes) (w : View)
    → insert v key value ≡ ok w
    → (w.ts ≡ v.ts)
      × (w.scope ≡ v.scope)
      × (w.storage ≡ v.storage)
      × (verify_value key value ≡ true)
      × ((j : Bytes) → (j == key) ≡ false → w.pending j ≡ v.pending j)
unfolding insert settle overwrite create
insert-pending v key value w h = elim (Outcome-cases (is_unchanged v key (some value))) [
  | inr (f, e) ↦ absurd (ground arith)
  | inl (u, e) ↦ elim (Outcome-cases (get_value_of v key)) [
    | inl (x, q) ↦ (ground arith, ground arith, ground arith, ground arith, λ j n. ground arith)
    | inr (not_found, q) ↦
        (ground arith, ground arith, ground arith, ground arith, λ j n. ground arith)
    | inr (f, q) ↦ absurd (ground arith)
  ]
]

-- A value that is found, or not.
abbrev Known : Outcome Error Bytes → Type 0
Known o = ((x : Bytes) × (o ≡ ok x)) ⊎ (o ≡ err not_found)

read_through-Known :
    (o : Option (Option Bytes)) (under : Outcome Error Bytes)
    → Known under
    → Known (read_through o under)
read_through-Known none under h = h
read_through-Known (some none) under h = inr refl
read_through-Known (some (some x)) under h = inl (x, refl)

same_value-Known :
    (v : View) (key value : Bytes)
    → Known (below v key)
    → (u : Bool) × (is_unchanged v key (some value) ≡ ok u)
unfolding is_unchanged
same_value-Known v key value (inl (x, e)) = (x == value, rw (e, is_unchanged) refl)
same_value-Known v key value (inr e) = (false, rw (e, is_unchanged) refl)

-- A view with all permissions takes every value that fits its key, where it knows what is there.
insert_anywhere :
    (v : View) (key value : Bytes)
    → v.scope ≡ complete_permissions
    → Known (v.storage key)
    → verify_value key value ≡ true
    → (w : View) × (insert v key value ≡ ok w)
unfolding insert complete_permissions get_value_of below get_changed_value
insert_anywhere v key value full known fits =
    let base = read_through-Known (v.ts.changed_keys key) (v.storage key) known in
    let (u, q) = same_value-Known v key value base in
    let allowed : (p : ℕ) → v.scope key p ≡ true = λ p. ap (λ s. s key p) full in
    elim (Outcome-cases (insert v key value)) [
      | inl done ↦ done
      | inr (f, e) ↦ elim (read_through-Known (v.pending key) (below v key) base) [
        | inl (x, b) ↦
            absurd (ground (arith, allowed write, q, b, fits, e, Bool-cases (x == value)))
        | inr b ↦ absurd (ground (arith, allowed write, allowed allocate, q, b, fits, e))
      ]
    ]

module _ (im : Bytes → Outcome Error Bytes) where
  -- What a key is in the state that the view makes of that of the parent.
  abbrev pub shown : View → Bytes → Outcome Error Bytes
  shown v k = read_through (v.pending k) (read_through (v.ts.changed_keys k) (im k))

  -- A view over the storage of the parent, and one over no storage, that leave the same state.
  pub record Agrees (v v' : View) : Type 0 where
    pub same_state : (k : Bytes) → shown v k ≡ shown v' k
    pub unstored : (k : Bytes) → v'.storage k ≡ err not_found
    pub unlimited : v'.scope ≡ complete_permissions

  -- What is found without the storage is found with it.
  read_through-ok :
      (o : Option (Option Bytes)) (k x : Bytes)
      → read_through o (err not_found) ≡ ok x
      → read_through o (im k) ≡ ok x
  read_through-ok none k x e = absurd (ground (arith, e))
  read_through-ok (some c) k x e = e

  shown-found :
      (v : View) (k x : Bytes)
      → v.storage k ≡ err not_found
      → get_value_of v k ≡ ok x
      → shown v k ≡ ok x
  unfolding get_value_of below get_changed_value
  shown-found v k x e h = elim (Option-cases (v.pending k)) [
    | inl q ↦ rw q (read_through-ok (v.ts.changed_keys k) k x (ground (arith, q, e, h)))
    | inr (c, q) ↦ rw q (ground (arith, q, h))
  ]

  shown-stored :
      (v : View) (k x : Bytes) → v.storage k ≡ im k → get_value_of v k ≡ ok x → shown v k ≡ ok x
  unfolding get_value_of below get_changed_value
  shown-stored v k x e h =
      ap (λ o. read_through (v.pending k) (read_through (v.ts.changed_keys k) o)) (sym e) ∙ h

  shown-other :
      (v w : View) (k : Bytes) → w.ts ≡ v.ts → w.pending k ≡ v.pending k → shown w k ≡ shown v k
  shown-other v w k e q = rw (q, e) refl

  insert-Agrees :
      (v v' w : View) (key value : Bytes)
      → Agrees v v'
      → v.storage key ≡ im key
      → insert v key value ≡ ok w
      → (w' : View) × (insert v' key value ≡ ok w') × Agrees w w' × (w.storage ≡ v.storage)
  insert-Agrees v v' w key value h s e =
      let (ts, scope, storage, fits, others) = insert-pending v key value w e in
      let (w', e') = insert_anywhere v' key value h.unlimited (inr (h.unstored key)) fits in
      let (ts', scope', storage', fits', others') = insert-pending v' key value w' e' in
      let bare : (k : Bytes) → w'.storage k ≡ err not_found =
        λ k. ap (λ f. f k) storage' ∙ h.unstored k in
      (
        w',
        e',
        record {
          same_state = λ k. elim (Bool-cases (k == key)) [
            | inl q ↦
                subst (λ j. shown w j ≡ shown w' j) (sym ((bytes_eq_iff k key).0 q))
                  (shown-stored w key value (ap (λ f. f key) storage ∙ s)
                      (insert-get_value v key value {w = w} e).0
                    ∙ sym (
                        shown-found w' key value (bare key)
                          (insert-get_value v' key value {w = w'} e').0))
            | inr q ↦
                shown-other v w k ts (others k q)
                ∙ h.same_state k
                ∙ sym (shown-other v' w' k ts' (others' k q))
          ];
          unstored = bare;
          unlimited = scope' ∙ h.unlimited;
        },
        storage,
      )

  pub write_block_context-Agrees :
      (mm : MetadataManager) (v v' w : View) (bc : BlockContext)
      → Agrees v v'
      → v.storage (height_key mm) ≡ im (height_key mm)
      → v.storage (timestamp_key mm) ≡ im (timestamp_key mm)
      → v.storage (fee_key mm) ≡ im (fee_key mm)
      → write_block_context mm v bc ≡ ok w
      → (w' : View) × (write_block_context mm v' bc ≡ ok w') × Agrees w w'
  unfolding write_block_context
  write_block_context-Agrees mm v v' w bc h a b c e =
      elim (Outcome-cases (insert v (height_key mm) (uint64_bytes bc.height))) [
        | inr (f, q) ↦ absurd (ground (arith, q, e))
        | inl (v1, e1) ↦
            elim (Outcome-cases (insert v1 (timestamp_key mm) (uint64_bytes bc.timestamp))) [
              | inr (f, q) ↦ absurd (ground (arith, e1, q, e))
              | inl (v2, e2) ↦
                  let e3 : insert v2 (fee_key mm) bc.fee_manager ≡ ok w =
                    ground (arith, e1, e2, e) in
                  let (w1, f1, h1, s1) =
                    insert-Agrees v v' v1 (height_key mm) (uint64_bytes bc.height) h a e1 in
                  let (w2, f2, h2, s2) =
                    insert-Agrees v1 w1 v2 (timestamp_key mm) (uint64_bytes bc.timestamp) h1
                      (ap (λ f. f (timestamp_key mm)) s1 ∙ b) e2 in
                  let (w3, f3, h3, s3) =
                    insert-Agrees v2 w2 w (fee_key mm) bc.fee_manager h2
                      (ap (λ f. f (fee_key mm)) s2 ∙ ap (λ f. f (fee_key mm)) s1 ∙ c) e3 in
                  (w3, rw (f1, f2, f3) refl, h3)
            ]
      ]

  pub shown-commit :
      (v : View) (k : Bytes) → read_through ((commit v).changed_keys k) (im k) ≡ shown v k
  unfolding commit
  shown-commit v k = elim (Option-cases (v.pending k)) [
    | inl e ↦ rw e refl
    | inr (c, e) ↦ rw e refl
  ]
