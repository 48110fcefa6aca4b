-- ===== src/Audit/Chain.antt =====
-- audit.go: what `VerifyChain` decides.
use korai_sdk_go.Prelude.{
  ℕ, suc, ◌+◌, ◌<◌, String, ◌≡◌, true, false, some, List, [], ◌∷◌, ◌++◌, ◌⊎◌, length, take, ◌==◌,
  eq_iff, arith, Bool-cases, inl, inr,
}
use korai_sdk_go.Prelude.Sorting.{sort_by}
use korai_sdk_go.Audit.{
  AuditEntry, AuditStore, AuditLibrary, of_organization, compute_row_hash, verify_from, by_sequence,
  verify_chain,
}

module _ {Payload : Type 0} (L : AuditLibrary Payload) where
  -- Each entry names the hash before it and carries its own.
  abbrev pub IsChain : String → List (AuditEntry Payload) → Type 0
  IsChain prev [] = Unit
  IsChain prev (e ∷ es) =
      (e.prev_hash ≡ prev) × (compute_row_hash L e ≡ e.row_hash) × IsChain e.row_hash es

  -- The hash that the next entry is to name.
  abbrev pub end_hash : String → List (AuditEntry Payload) → String
  end_hash prev [] = prev
  end_hash prev (e ∷ es) = end_hash e.row_hash es

  pub IsChain-append :
      (prev : String) (es : List (AuditEntry Payload)) (e : AuditEntry Payload)
      → IsChain prev es
      → e.prev_hash ≡ end_hash prev es
      → compute_row_hash L e ≡ e.row_hash
      → IsChain prev (es ++ e ∷ [])
  IsChain-append prev [] e h p q = (p, q, tt)
  IsChain-append prev (d ∷ es) e (a, b, h) p q = (a, b, IsChain-append d.row_hash es e h p q)

  pub verify_from_of_chain :
      (prev : String) (i : ℕ) (es : List (AuditEntry Payload))
      → IsChain prev es
      → verify_from L prev i es ≡ (true, i + length es)
  unfolding verify_from
  verify_from_of_chain prev i [] h = ground arith
  verify_from_of_chain prev i (e ∷ es) (p, q, h) = ground (
    arith,
    eq_iff e.prev_hash prev,
    eq_iff (compute_row_hash L e) e.row_hash,
    verify_from_of_chain e.row_hash (i + 1) es h,
  )

  verify_from_lem :
      (prev : String) (i : ℕ) (es : List (AuditEntry Payload))
      → (IsChain prev es × (verify_from L prev i es ≡ (true, i + length es)))
        ⊎ ((k : ℕ) × (k < length es)
            × IsChain prev (take k es)
            × (¬ (IsChain prev (take (suc k) es)))
            × (verify_from L prev i es ≡ (false, i + k + 1)))
  unfolding verify_from
  verify_from_lem prev i [] = inl (tt, ground arith)
  verify_from_lem prev i (e ∷ es) = elim (Bool-cases (e.prev_hash == prev)) [
    | inr p ↦
        inr
          (0, omega arith, tt, λ c. ground (arith, c.0, eq_iff e.prev_hash prev), ground (arith, p))
    | inl p ↦ elim (Bool-cases (compute_row_hash L e == e.row_hash)) [
      | inr q ↦ inr (
        0,
        omega arith,
        tt,
        λ c. ground (arith, c.1, eq_iff (compute_row_hash L e) e.row_hash),
        ground (arith, p, q),
      )
      | inl q ↦
          let a : e.prev_hash ≡ prev = (eq_iff e.prev_hash prev).0 p in
          let b : compute_row_hash L e ≡ e.row_hash =
            (eq_iff (compute_row_hash L e) e.row_hash).0 q in
          elim (verify_from_lem e.row_hash (i + 1) es) [
            | inl (c, run) ↦ inl ((a, b, c), ground (arith, p, q, run))
            | inr (k, below, c, broken, run) ↦
                inr (suc k, omega arith, (a, b, c), λ d. broken d.2, ground (arith, p, q, run))
          ]
    ]
  ]

  -- `VerifyChain` sorts what the store lists. It answers yes for a chain, and then counts all
  -- entries; otherwise the list has a longest part in front that is a chain, and `VerifyChain`
  -- answers no with the number, from 1, of the entry behind that part.
  pub verify_chain_lem :
      (S : AuditStore Payload) (st : S.State) (org : String) (listed : List (AuditEntry Payload))
      → S.list st (of_organization org) ≡ some listed
      → (IsChain "" (sort_by (by_sequence L) listed)
          × (verify_chain L S st org ≡ some (true, length (sort_by (by_sequence L) listed))))
        ⊎ ((k : ℕ) × (k < length (sort_by (by_sequence L) listed))
            × IsChain "" (take k (sort_by (by_sequence L) listed))
            × (¬ (IsChain "" (take (suc k) (sort_by (by_sequence L) listed))))
            × (verify_chain L S st org ≡ some (false, k + 1)))
  unfolding verify_chain
  verify_chain_lem S st org listed h =
      elim (verify_from_lem "" 0 (sort_by (by_sequence L) listed)) [
        | inl (c, run) ↦ inl (c, rw (h, verify_chain) (ground (arith, run)))
        | inr (k, below, c, broken, run) ↦
            inr (k, below, c, broken, rw (h, verify_chain) (ground (arith, run)))
      ]
