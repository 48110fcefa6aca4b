-- ===== src/Audit/Logged.antt =====
-- audit.go: what `Log` leaves in the store in memory.
use korai_sdk_go.Prelude.{
  ℕ, suc, ◌+◌, String, ◌≡◌, ◌≢◌, refl, ap, ◌∙◌, true, false, none, some, List, [], ◌∷◌, ◌++◌,
  length, ◌==◌, eq_iff, eq_refl, arith, if◌then◌else◌, All, Bool-cases, Option-cases, inl, inr,
}
use korai_sdk_go.Prelude.Dict.{Dict, lookup, insert, lookup-insert}
use korai_sdk_go.Prelude.Sorting.{sort_by, IsSorted, sort_by_of_sorted}
use korai_sdk_go.Audit.{
  AuditEntry, AuditLibrary, of_organization, compute_row_hash, enriched, linked, hashed,
  by_sequence, log_linked, log, verify_from, verify_chain,
}
use korai_sdk_go.Audit.Memory.{
  matches_filter, matching, entries_or_nil, limited, last_entry, memory_store,
}
use korai_sdk_go.Audit.Chain.{IsChain, end_hash, IsChain-append, verify_from_of_chain}

module _ {Payload : Type 0} where
  -- The sequence numbers count from `n`.
  abbrev Numbered : ℕ → List (AuditEntry Payload) → Type 0
  Numbered n [] = Unit
  Numbered n (e ∷ es) = (e.sequence_no ≡ n) × Numbered (suc n) es

  Numbered-append :
      (n : ℕ) (es : List (AuditEntry Payload)) (e : AuditEntry Payload)
      → Numbered n es
      → e.sequence_no ≡ n + length es
      → Numbered n (es ++ e ∷ [])
  Numbered-append n [] e h q = (omega arith, tt)
  Numbered-append n (d ∷ es) e (p, h) q = (p, Numbered-append (suc n) es e h (omega arith))

  matching_all :
      (org : String) (es : List (AuditEntry Payload)) → matching (of_organization org) es ≡ es
  unfolding matching matches_filter
  matching_all org [] = refl
  matching_all org (e ∷ es) = ap (λ t. e ∷ t) (matching_all org es)

  last_entry-none : (es : List (AuditEntry Payload)) → last_entry es ≡ none → es ≡ []
  unfolding last_entry
  last_entry-none [] h = refl
  last_entry-none (e ∷ []) h = absurd (ground (arith, h))
  last_entry-none (e ∷ e' ∷ es) h = absurd (ground (arith, h, last_entry-none (e' ∷ es) h))

module _ {Payload : Type 0} (L : AuditLibrary Payload) where
  Numbered-IsSorted :
      (n : ℕ) (es : List (AuditEntry Payload)) → Numbered n es → IsSorted (by_sequence L) es
  Numbered-IsSorted n [] h = tt
  Numbered-IsSorted n (e ∷ []) h = tt
  Numbered-IsSorted n (e ∷ d ∷ es) (p, h) =
      (ground (arith, p, h.0), Numbered-IsSorted (suc n) (d ∷ es) h)

  last_entry-some :
      (prev : String) (n : ℕ) (es : List (AuditEntry Payload)) (last : AuditEntry Payload)
      → Numbered n es
      → last_entry es ≡ some last
      → (last.row_hash ≡ end_hash L prev es) × (last.sequence_no + 1 ≡ n + length es)
  unfolding last_entry
  last_entry-some prev n [] last h q = absurd (ground (arith, q))
  last_entry-some prev n (e ∷ []) last (p, h) q = (ground (arith, q), ground (arith, p, q))
  last_entry-some prev n (e ∷ d ∷ es) last (p, h) q =
      let (a, b) = last_entry-some e.row_hash (suc n) (d ∷ es) last h q in (a, omega arith)

  record IsHealthy (es : List (AuditEntry Payload)) : Type 0 where
    chain : IsChain L "" es
    numbered : Numbered 1 es

  IsHealthy-append :
      (es : List (AuditEntry Payload)) (e : AuditEntry Payload)
      → IsHealthy es
      → e.prev_hash ≡ ""
      → IsHealthy (es ++ hashed L (linked L (last_entry es) e) ∷ [])
  unfolding compute_row_hash
  IsHealthy-append es e h blank = elim (Option-cases (last_entry es)) [
    | inl q ↦
        rw (q, last_entry-none es q) (record { chain = (blank, refl, tt); numbered = (refl, tt) })
    | inr (last, q) ↦
        let (a, b) = last_entry-some "" 1 es last h.numbered q in
        rw q (record {
          chain = IsChain-append L "" es (hashed L (linked L (some last) e)) h.chain a refl;
          numbered = Numbered-append 1 es (hashed L (linked L (some last) e)) h.numbered b;
        })
  ]

  abbrev entries_of : String → Dict (List (AuditEntry Payload)) → List (AuditEntry Payload)
  entries_of org st = entries_or_nil (lookup org st)

  verify_chain-IsHealthy :
      (st : Dict (List (AuditEntry Payload))) (org : String)
      → IsHealthy (entries_of org st)
      → verify_chain L memory_store st org ≡ some (true, length (entries_of org st))
  unfolding verify_chain limited
  verify_chain-IsHealthy st org h =
      let es = entries_of org st in
      rw
        (
          matching_all org es,
          sort_by_of_sorted (by_sequence L) es (Numbered-IsSorted 1 es h.numbered),
          verify_from_of_chain L "" 0 es h.chain,
        )
        (ground arith)

  entries_of-insert :
      (org k : String) (es : List (AuditEntry Payload)) (st : Dict (List (AuditEntry Payload)))
      → entries_of org (insert k es st) ≡ (if k == org then es else entries_of org st)
  entries_of-insert org k es st = ground (arith, lookup-insert org k es st)

  entries_of-log :
      (e : AuditEntry Payload) (st : Dict (List (AuditEntry Payload))) (org : String)
      → entries_of org (log L memory_store e st).1 ≡ (
          if e.event_type == ""
          then entries_of org st
          else if e.organization_id == org
          then entries_of org st
            ++ hashed L (linked L (last_entry (entries_of org st)) (enriched L e)) ∷ []
          else entries_of org st)
  unfolding log
  entries_of-log e st org = ground (
    arith,
    eq_iff e.organization_id org,
    entries_of-insert org e.organization_id
        (entries_of e.organization_id st
          ++ hashed L (linked L (last_entry (entries_of e.organization_id st)) (enriched L e)) ∷ [])
        st,
  )

  prev_hash-enriched : (e : AuditEntry Payload) → (enriched L e).prev_hash ≡ e.prev_hash
  unfolding enriched
  prev_hash-enriched e = refl

  IsHealthy-log :
      (e : AuditEntry Payload) (st : Dict (List (AuditEntry Payload))) (org : String)
      → e.prev_hash ≡ ""
      → IsHealthy (entries_of org st)
      → IsHealthy (entries_of org (log L memory_store e st).1)
  IsHealthy-log e st org blank h =
      let grown =
        IsHealthy-append (entries_of org st) (enriched L e) h (prev_hash-enriched e ∙ blank) in
      rw (entries_of-log e st org) (elim (Bool-cases (e.event_type == "")) [
        | inl p ↦ rw p h
        | inr p ↦ elim (Bool-cases (e.organization_id == org)) [
          | inl q ↦ rw (p, q) grown
          | inr q ↦ rw (p, q) h
        ]
      ])

  -- Entries logged one after another.
  abbrev pub log_all :
      List (AuditEntry Payload)
      → Dict (List (AuditEntry Payload))
      → Dict (List (AuditEntry Payload))
  log_all [] st = st
  log_all (e ∷ es) st = log_all es (log L memory_store e st).1

  IsHealthy-log_all :
      (es : List (AuditEntry Payload)) (st : Dict (List (AuditEntry Payload))) (org : String)
      → All (λ e. e.prev_hash ≡ "") es
      → IsHealthy (entries_of org st)
      → IsHealthy (entries_of org (log_all es st))
  IsHealthy-log_all [] st org b h = h
  IsHealthy-log_all (e ∷ es) st org (p, b) h =
      IsHealthy-log_all es (log L memory_store e st).1 org b (IsHealthy-log e st org p h)

  -- After any entries have been logged into the empty store in memory, refused ones among them,
  -- the chain of every organization verifies, and the number reported is that of its entries. The
  -- caller gives no previous hash.
  pub verify_chain-log_all :
      (es : List (AuditEntry Payload)) (org : String)
      → All (λ e. e.prev_hash ≡ "") es
      → verify_chain L memory_store (log_all es []) org
        ≡ some (true, length (entries_or_nil (lookup org (log_all es []))))
  unfolding lookup
  verify_chain-log_all es org b =
      verify_chain-IsHealthy (log_all es []) org
        (IsHealthy-log_all es [] org b (record { chain = tt; numbered = tt }))

  -- A first entry that comes with a previous hash is accepted, and then the chain of its
  -- organization does not verify.
  pub verify_chain-log_given :
      (e : AuditEntry Payload)
      → e.event_type ≢ ""
      → e.prev_hash ≢ ""
      → ((c : AuditEntry Payload) × ((log L memory_store e []).0 ≡ some c))
        × (verify_chain L memory_store (log L memory_store e []).1 e.organization_id
            ≡ some (false, 1))
  unfolding log log_linked verify_chain verify_from limited matching matches_filter lookup insert
      sort_by last_entry enriched
  verify_chain-log_given e t p =
      let typed : (e.event_type == "") ≡ false = ground (arith, eq_iff e.event_type "") in
      let given : (e.prev_hash == "") ≡ false = ground (arith, eq_iff e.prev_hash "") in
      (
        (hashed L (linked L none (enriched L e)), rw (typed, log) refl),
        rw (typed, eq_refl e.organization_id, given, verify_chain) refl,
      )
