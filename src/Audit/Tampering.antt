-- ===== src/Audit/Tampering.antt =====
-- audit.go: changes of a log, and the verdict of `VerifyChain` on them.
use korai_sdk_go.Prelude.{
  ℕ, ◌+◌, String, ◌≡◌, refl, ap, sym, ◌∙◌, ◌↔◌, true, eq_iff, none, List, [], ◌∷◌, ◌++◌, map,
  length, arith,
}
use korai_sdk_go.Audit.{AuditEntry, AuditLibrary, hashed_row, compute_row_hash, verify_from}
use korai_sdk_go.Audit.Chain.{IsChain, end_hash, verify_from_of_chain}

module _ {Payload : Type 0} (L : AuditLibrary Payload) where
  -- No two entries at the same place of both lists have rows that collide under the hash.
  abbrev pub NoCollision : List (AuditEntry Payload) → List (AuditEntry Payload) → Type 0
  NoCollision [] fs = Unit
  NoCollision (e ∷ es) [] = Unit
  NoCollision (e ∷ es) (f ∷ fs) =
      (compute_row_hash L e ≡ compute_row_hash L f → hashed_row L e ≡ hashed_row L f)
      × NoCollision es fs

  chain-determined :
      (p q : String) (es fs : List (AuditEntry Payload))
      → NoCollision es fs
      → IsChain L p es
      → IsChain L q fs
      → length es ≡ length fs
      → end_hash L p es ≡ end_hash L q fs
      → (p ≡ q) × (map (hashed_row L) es ≡ map (hashed_row L) fs)
  chain-determined p q [] [] free c d n h = (h, refl)
  chain-determined p q [] (f ∷ fs) free c d n h = absurd (omega (arith, n))
  chain-determined p q (e ∷ es) [] free c d n h = absurd (omega (arith, n))
  chain-determined p q (e ∷ es) (f ∷ fs) (apart, free) (a, b, c) (a', b', d) n h =
      let (same, rows) =
        chain-determined e.row_hash f.row_hash es fs free c d (omega (arith, n)) h in
      let row : hashed_row L e ≡ hashed_row L f = apart (b ∙ same ∙ sym b') in
      (sym a ∙ ap (λ r. r.prev_hash) row ∙ a', ap (λ r. r.0 ∷ r.1) (pair row rows))
    where
      pair : {A B : Type 0} {x y : A} {u v : B} → x ≡ y → u ≡ v → ◌≡◌ {A = A × B} (x, u) (y, v)
      pair e f = λ i. (e i, f i)

  -- Two chains of the same length that end in the same hash have the same hashed rows, unless the
  -- hash collides at a place of both.
  pub chain_tamper_evident :
      (es fs : List (AuditEntry Payload))
      → NoCollision es fs
      → IsChain L "" es
      → IsChain L "" fs
      → length es ≡ length fs
      → end_hash L "" es ≡ end_hash L "" fs
      → map (hashed_row L) es ≡ map (hashed_row L) fs
  chain_tamper_evident es fs free c d n h = (chain-determined "" "" es fs free c d n h).1

  -- An entry with another id, address and signature.
  abbrev pub relabelled :
      (AuditEntry Payload → String × String × String) → AuditEntry Payload → AuditEntry Payload
  relabelled label e = record e {
    id = (label e).0;
    ip_address = (label e).1;
    signature = (label e).2;
  }

  -- The verdict on a list of entries does not depend on their ids, addresses and signatures.
  pub verify_from-relabelled :
      (label : AuditEntry Payload → String × String × String) (prev : String) (i : ℕ)
      (es : List (AuditEntry Payload))
      → verify_from L prev i (map (relabelled label) es) ≡ verify_from L prev i es
  unfolding verify_from compute_row_hash
  verify_from-relabelled label prev i [] = refl
  verify_from-relabelled label prev i (e ∷ es) =
      rw (verify_from-relabelled label e.row_hash (i + 1) es) refl

  compute_row_hash-unmarshalled :
      (f : AuditEntry Payload)
      → L.marshal_row (hashed_row L f) ≡ none
      → compute_row_hash L f ≡ L.sha256_hex []
  unfolding compute_row_hash
  compute_row_hash-unmarshalled f m = rw (m, compute_row_hash) refl

  -- An entry whose row cannot be marshalled, behind a chain and with the hash in which that chain
  -- ends, and in front of a chain from its own row hash: the verdict on all of them is yes exactly
  -- if its row hash is that of no bytes, whatever else the entry says.
  pub verify_from-unmarshalled :
      (prev : String) (i : ℕ) (es gs : List (AuditEntry Payload)) (f : AuditEntry Payload)
      → IsChain L prev es
      → L.marshal_row (hashed_row L f) ≡ none
      → f.prev_hash ≡ end_hash L prev es
      → IsChain L f.row_hash gs
      → ((verify_from L prev i (es ++ f ∷ gs)).0 ≡ true) ↔ (f.row_hash ≡ L.sha256_hex [])
  unfolding verify_from
  verify_from-unmarshalled prev i [] gs f c m p d = ground (
    arith,
    p,
    eq_iff f.prev_hash prev,
    eq_iff (compute_row_hash L f) f.row_hash,
    compute_row_hash-unmarshalled f m,
    verify_from_of_chain L f.row_hash (i + 1) gs d,
  )
  verify_from-unmarshalled prev i (e ∷ es) gs f (a, b, c) m p d =
      rw
        ((eq_iff e.prev_hash prev).1 a, (eq_iff (compute_row_hash L e) e.row_hash).1 b, verify_from)
        (verify_from-unmarshalled e.row_hash (i + 1) es gs f c m p d)
