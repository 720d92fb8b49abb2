-- ===== src/Metadata.antt =====
-- state/metadata/state_manager.go: the prefixes of the keys that the chain keeps for itself, and the
-- check that no prefix of the VM conflicts with them.
mod Tests
use hypersdk.Base.{
  ℕ, zero, suc, ◌+◌, ◌≤◌, ◌≡◌, ◌↔◌, refl, Bool, true, false, ◌&&◌, ◌||◌, List, [], ◌∷◌, ◌++◌, Bytes,
  nat_eq, nat_eq_iff, Bool-cases, inl, inr, append_assoc, append-nil, if◌then◌else◌, arith,
}
use hypersdk.Chain.Processor.{MetadataManager}

-- `bytes.HasPrefix`
unfoldable pub has_prefix : Bytes → Bytes → Bool
has_prefix k [] = true
has_prefix [] (p ∷ ps) = false
has_prefix (b ∷ k) (p ∷ ps) = nat_eq b p && has_prefix k ps

-- The inner loop of `HasConflictingPrefixes`
unfoldable pub conflicts : Bytes → List Bytes → Bool
unfolding has_prefix
conflicts p [] = false
conflicts p (vp ∷ vps) = has_prefix p vp || has_prefix vp p || conflicts p vps

-- Its outer loop, with the prefixes verified so far.
unfoldable pub conflicts_from : List Bytes → List Bytes → Bool
unfolding conflicts
conflicts_from verified [] = false
conflicts_from verified (p ∷ ps) = conflicts p verified || conflicts_from (verified ++ p ∷ []) ps

abbrev pub all_prefixes : MetadataManager → List Bytes → List Bytes
all_prefixes m vm_prefixes = m.height_prefix ∷ m.fee_prefix ∷ m.timestamp_prefix ∷ vm_prefixes

-- `HasConflictingPrefixes`
unfoldable pub has_conflicting_prefixes : MetadataManager → List Bytes → Bool
unfolding conflicts_from
has_conflicting_prefixes m vm_prefixes = conflicts_from [] (all_prefixes m vm_prefixes)

-- `NewDefaultManager`
abbrev pub new_default_manager : MetadataManager
new_default_manager = record {
  height_prefix = 0 ∷ [];
  fee_prefix = 2 ∷ [];
  timestamp_prefix = 1 ∷ [];
}

-- How many of the prefixes a key starts with.
abbrev pub starts : Bytes → List Bytes → ℕ
starts k [] = 0
starts k (p ∷ ps) = (if has_prefix k p then 1 else 0) + starts k ps

starts-append : (k : Bytes) (ps qs : List Bytes) → starts k (ps ++ qs) ≡ starts k ps + starts k qs
starts-append k [] qs = omega arith
starts-append k (p ∷ ps) qs = omega (arith, starts-append k ps qs)

has_prefix_self : (p : Bytes) → has_prefix p p ≡ true
unfolding has_prefix
has_prefix_self [] = refl
has_prefix_self (b ∷ p) = ground (arith, has_prefix_self p)

-- Of two prefixes of one key, one is a prefix of the other.
has_prefix_both :
    (k p q : Bytes)
    → has_prefix k p ≡ true
    → has_prefix k q ≡ true
    → has_prefix p q || has_prefix q p ≡ true
unfolding has_prefix
has_prefix_both k [] [] g h = refl
has_prefix_both k [] (c ∷ q) g h = refl
has_prefix_both k (b ∷ p) [] g h = refl
has_prefix_both [] (b ∷ p) (c ∷ q) g h = absurd (ground arith)
has_prefix_both (a ∷ k) (b ∷ p) (c ∷ q) g h = ground (arith, has_prefix_both k p q)

conflicts-none :
    (k p : Bytes) (vps : List Bytes)
    → conflicts p vps ≡ false
    → has_prefix k p ≡ true
    → starts k vps ≡ 0
unfolding conflicts
conflicts-none k p [] h s = refl
conflicts-none k p (q ∷ vps) h s = ground (arith, conflicts-none k p vps, has_prefix_both k p q)

conflicts-some :
    (p : Bytes) (vps : List Bytes)
    → conflicts p vps ≡ true
    → (k : Bytes) × (has_prefix k p ≡ true) × (1 ≤ starts k vps)
unfolding conflicts
conflicts-some p [] h = absurd (ground arith)
conflicts-some p (q ∷ vps) h = elim (Bool-cases (has_prefix p q)) [
  | inl e ↦ (p, has_prefix_self p, ground arith)
  | inr e ↦ elim (Bool-cases (has_prefix q p)) [
    | inl r ↦ (q, r, ground (arith, has_prefix_self q))
    | inr r ↦ let (k, s, n) = conflicts-some p vps (ground arith) in (k, s, ground arith)
  ]
]

conflicts_from-false :
    (k : Bytes) (vps ps : List Bytes)
    → conflicts_from vps ps ≡ false
    → starts k vps ≤ 1
    → starts k vps + starts k ps ≤ 1
unfolding conflicts_from
conflicts_from-false k vps [] h n = omega arith
conflicts_from-false k vps (p ∷ ps) h n = ground (
  arith,
  conflicts_from-false k (vps ++ p ∷ []) ps,
  starts-append k vps (p ∷ []),
  conflicts-none k p vps,
)

conflicts_from-true :
    (vps ps : List Bytes)
    → conflicts_from vps ps ≡ true
    → (k : Bytes) × (2 ≤ starts k vps + starts k ps)
unfolding conflicts_from
conflicts_from-true vps [] h = absurd (ground arith)
conflicts_from-true vps (p ∷ ps) h = elim (Bool-cases (conflicts p vps)) [
  | inl e ↦ let (k, s, n) = conflicts-some p vps e in (k, ground arith)
  | inr e ↦
      let (k, n) = conflicts_from-true (vps ++ p ∷ []) ps (ground arith) in
      (k, omega (arith, n, starts-append k vps (p ∷ [])))
]

-- HasConflictingPrefixes finds no conflict exactly if every key starts with at most one of the
-- prefixes, those of the chain and those of the VM.
pub has_conflicting_prefixes_iff :
    (m : MetadataManager) (vm_prefixes : List Bytes)
    → (has_conflicting_prefixes m vm_prefixes ≡ false)
      ↔ ((k : Bytes) → starts k (all_prefixes m vm_prefixes) ≤ 1)
unfolding has_conflicting_prefixes
has_conflicting_prefixes_iff m vm_prefixes = (
  λ h k. omega (arith, conflicts_from-false k [] (all_prefixes m vm_prefixes) h (omega arith)),
  λ f. elim (Bool-cases (conflicts_from [] (all_prefixes m vm_prefixes))) [
    | inl e ↦
        let (k, n) = conflicts_from-true [] (all_prefixes m vm_prefixes) e in
        absurd (omega (arith, n, f k))
    | inr e ↦ e
  ],
)
