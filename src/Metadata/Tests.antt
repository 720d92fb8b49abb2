-- ===== src/Metadata/Tests.antt =====
-- state/metadata/state_manager.go: runs at concrete inputs.
use hypersdk.Base.{◌≤◌, ◌≡◌, ◌↔◌, refl, true, false, [], ◌∷◌, Bytes}
use hypersdk.Metadata.{
  has_conflicting_prefixes, new_default_manager, all_prefixes, starts, has_conflicting_prefixes_iff,
}

-- The first prefix that the framework leaves to a VM does not conflict, and that of the height does.
free_prefix : has_conflicting_prefixes new_default_manager ((3 ∷ []) ∷ []) ≡ false
unfolding has_conflicting_prefixes
free_prefix = refl

taken_prefix : has_conflicting_prefixes new_default_manager ((0 ∷ 5 ∷ []) ∷ []) ≡ true
unfolding has_conflicting_prefixes
taken_prefix = refl

has_conflicting_prefixes_iff_example :
    (has_conflicting_prefixes new_default_manager ((3 ∷ []) ∷ []) ≡ false)
    ↔ ((k : Bytes) → starts k (all_prefixes new_default_manager ((3 ∷ []) ∷ [])) ≤ 1)
has_conflicting_prefixes_iff_example =
    has_conflicting_prefixes_iff new_default_manager ((3 ∷ []) ∷ [])
