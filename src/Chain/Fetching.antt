-- ===== src/Chain/Fetching.antt =====
-- chain/builder.go: what a transaction is given of the parent's state, from the cache or from disk.
use hypersdk.Base.{
  ℕ, zero, suc, ◌≡◌, refl, ap, ◌∙◌, length, replicate, List, ◌++◌, contains-append, true, false, [],
  ◌∷◌, Option, none, some, Bytes, ◌==◌, Bytes_eq, bytes_eq_iff, GoMap, empty_map, assign, map,
  contains, Outcome, ok, err, Outcome-cases, Option-cases, Bool-cases, inl, inr, arith, subst,
  fun_ext,
}
use hypersdk.Keys.{num_chunks}
use hypersdk.State.Scope.{Keys, without_permissions}
use hypersdk.TState.View.{Error, not_found, value_or_not_found}
use hypersdk.Chain.Processor.{all_readable, fetched, is_readable}
use hypersdk.Chain.Builder.{to_cache, fetch_key, fetch_keys, stored, cache_all}

module _ (im : Bytes → Outcome Error Bytes) where
  -- A cache has what the parent's state holds.
  abbrev pub IsCache : GoMap Bytes (Option Bytes) → Type 0
  IsCache cache =
      (k : Bytes) (d : Option Bytes)
      → cache k ≡ some d
      → (value_or_not_found d ≡ im k) × (is_readable (im k) ≡ true)

  to_cache-value :
      (o : Outcome Error Bytes) (d : Option Bytes)
      → to_cache o ≡ ok d
      → (value_or_not_found d ≡ o) × (is_readable o ≡ true)
  to_cache-value (ok v) d e = elim (Option-cases (num_chunks v)) [
    | inl q ↦ absurd (ground arith)
    | inr (n, q) ↦ (ground (arith, q, e), ground (arith, q))
  ]
  to_cache-value (err x) d e = (ground arith, ground arith)

  fetch_key-value :
      (cache : GoMap Bytes (Option Bytes)) (k : Bytes) (d : Option Bytes)
      → IsCache cache
      → fetch_key im cache k ≡ ok d
      → (value_or_not_found d ≡ im k) × (is_readable (im k) ≡ true)
  unfolding fetch_key
  fetch_key-value cache k d h e = elim (Option-cases (cache k)) [
    | inl q ↦ to_cache-value (im k) d (ground (arith, q, e))
    | inr (x, q) ↦ h k d (ground (arith, q, e))
  ]

  pub record Fetches (ks : Keys) (found : GoMap Bytes (Option Bytes)) : Type 0 where
    pub all_found : all_readable im (map (λ e. e.0) ks) ≡ true
    pub is_cache : IsCache found
    pub declared : (k : Bytes) → contains k (map (λ e. e.0) ks) ≡ true → found k ≡ none → ⊥
    pub undeclared : (k : Bytes) → contains k (map (λ e. e.0) ks) ≡ false → found k ≡ none

  Fetches-nil : Fetches [] empty_map
  unfolding all_readable
  Fetches-nil = record {
    all_found = refl;
    is_cache = λ k d e. cc;
    declared = λ k e q. cc;
    undeclared = λ k e. refl;
  }

  Fetches-cons :
      (k : Bytes) (p : ℕ) (ks : Keys) (d : Option Bytes) (rest : GoMap Bytes (Option Bytes))
      → (value_or_not_found d ≡ im k) × (is_readable (im k) ≡ true)
      → Fetches ks rest
      → Fetches ((k, p) ∷ ks) (assign rest k d)
  unfolding all_readable
  Fetches-cons k p ks d rest (v, r) h = record {
    all_found = ground (arith, r, h.all_found);
    is_cache = λ j c e. elim (Bool-cases (j == k)) [
      | inl q ↦
          let same : j ≡ k = (bytes_eq_iff j k).0 q in
          (ground (arith, v, ap im same, ap value_or_not_found {x = c} {y = d}), rw same r)
      | inr q ↦ h.is_cache j c (ground arith)
    ];
    declared = λ j e q. ground (arith, h.declared j, bytes_eq_iff j k);
    undeclared = λ j e. ground (arith, h.undeclared j, bytes_eq_iff j k);
  }

  pub fetch_keys-Fetches :
      (cache : GoMap Bytes (Option Bytes)) (ks : Keys) (found : GoMap Bytes (Option Bytes))
      → IsCache cache
      → fetch_keys im cache ks ≡ ok found
      → Fetches ks found
  unfolding fetch_keys all_readable
  fetch_keys-Fetches cache [] found h e = subst (Fetches []) (ground (arith, e)) Fetches-nil
  fetch_keys-Fetches cache ((k, p) ∷ ks) found h e = elim (Outcome-cases (fetch_key im cache k)) [
    | inr (f, q) ↦ absurd (ground (arith, q, e))
    | inl (d, q) ↦ elim (Outcome-cases (fetch_keys im cache ks)) [
      | inr (f, c) ↦ absurd (ground (arith, q, c, e))
      | inl (rest, c) ↦ subst (Fetches ((k, p) ∷ ks)) (ground (arith, q, c, e)) (
          Fetches-cons k p ks d rest (fetch_key-value cache k d h q)
            (fetch_keys-Fetches cache ks rest h c))
    ]
  ]

  module _ (no_empty : im [] ≡ err not_found) where
    all_readable-filled :
        (n : ℕ) (ks : List Bytes)
        → all_readable im ks ≡ true
        → all_readable im (replicate n [] ++ ks) ≡ true
    unfolding all_readable
    all_readable-filled zero ks h = h
    all_readable-filled (suc n) ks h = rw (no_empty) (all_readable-filled n ks h)

    -- The processor reads the empty key too, which changes nothing.
    pub all_readable-found :
        (ks : Keys) (found : GoMap Bytes (Option Bytes))
        → Fetches ks found
        → all_readable im (without_permissions ks) ≡ true
    unfolding without_permissions
    all_readable-found ks found h = all_readable-filled (length ks) (map (λ e. e.0) ks) h.all_found

    contains-filled : (k : Bytes) (n : ℕ) → contains k (replicate n []) ≡ true → k ≡ []
    contains-filled k zero h = absurd (ground arith)
    contains-filled k (suc n) h = elim (Bool-cases (k == [])) [
      | inl q ↦ (bytes_eq_iff k []).0 q
      | inr q ↦ contains-filled k n (ground arith)
    ]

    -- The storage of a transaction is what the processor fetches for it.
    pub stored-fetched :
        (ks : Keys) (found : GoMap Bytes (Option Bytes))
        → Fetches ks found
        → stored found ≡ fetched im (without_permissions ks)
    unfolding stored fetched without_permissions
    stored-fetched ks found h = fun_ext (λ k.
        let all = contains-append k (replicate (length ks) []) (map (λ e. e.0) ks) in
        elim (Bool-cases (contains k (map (λ e. e.0) ks))) [
          | inl q ↦ elim (Option-cases (found k)) [
            | inl c ↦ absurd (h.declared k q c)
            | inr (d, c) ↦
                let here : contains k (replicate (length ks) [] ++ map (λ e. e.0) ks) ≡ true =
                  ground (arith, all, q) in
                rw (here, c) (h.is_cache k d c).0
          ]
          | inr q ↦ elim (Bool-cases (contains k (replicate (length ks) []))) [
            | inr e ↦
                let gone : contains k (replicate (length ks) [] ++ map (λ e. e.0) ks) ≡ false =
                  ground (arith, all, q, e) in
                rw (gone, h.undeclared k q) refl
            | inl e ↦
                let here : contains k (replicate (length ks) [] ++ map (λ e. e.0) ks) ≡ true =
                  ground (arith, all, q, e) in
                let at : im k ≡ err not_found =
                  ap im (contains-filled k (length ks) e) ∙ no_empty in
                rw (here, h.undeclared k q, at) refl
          ]
        ])

  pub cache_all-IsCache :
      (found cache : GoMap Bytes (Option Bytes))
      → IsCache found
      → IsCache cache
      → IsCache (cache_all found cache)
  unfolding cache_all
  cache_all-IsCache found cache h g k d e = elim (Option-cases (found k)) [
    | inl q ↦ g k d (ground (arith, q, e))
    | inr (x, q) ↦ h k d (ground (arith, q, e))
  ]
