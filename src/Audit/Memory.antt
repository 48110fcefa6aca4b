-- ===== src/Audit/Memory.antt =====
-- audit.go: the store in memory, a map from organizations to their entries.
use korai_sdk_go.Prelude.{
  ℕ, zero, suc, ◌≤◌, String, ◌≡◌, refl, Bool, true, false, Option, none, some, List, [], ◌∷◌, ◌++◌,
  not, ◌&&◌, ◌⊎◌, length, take, ltb, nat_eq, ◌==◌, if◌then◌else◌, All, arith, Bool-cases, inl, inr,
}
use korai_sdk_go.Prelude.Dict.{Dict, lookup, insert}
use korai_sdk_go.Prelude.Sorting.{sort_by, All-sort_by}
use korai_sdk_go.Audit.{AuditEntry, AuditFilter, AuditStore}

-- `f != "" && v != f`
abbrev pub differs : String → String → Bool
differs f v = not (f == "") && not (v == f)

module _ {Payload : Type 0} where
  unfoldable pub matches_filter : AuditEntry Payload → AuditFilter → Bool
  matches_filter e f =
      if differs f.event_type e.event_type
      then false
      else if differs f.resource_id e.resource_id
      then false
      else if differs f.user_id e.user_id
      then false
      else if differs f.severity e.severity
      then false
      else if not (nat_eq f.from 0) && ltb e.created_at f.from
      then false
      else if not (nat_eq f.to 0) && ltb f.to e.created_at
      then false
      else true

  unfoldable pub matching : AuditFilter → List (AuditEntry Payload) → List (AuditEntry Payload)
  unfolding matches_filter
  matching f [] = []
  matching f (e ∷ es) =
      let rest = matching f es in if not (matches_filter e f) then rest else e ∷ rest

  -- `s.byOrg[org]`, nil if it is missing.
  abbrev pub entries_or_nil : Option (List (AuditEntry Payload)) → List (AuditEntry Payload)
  entries_or_nil none = []
  entries_or_nil (some es) = es

  unfoldable pub limited : ℕ → List (AuditEntry Payload) → List (AuditEntry Payload)
  limited limit out =
      if ltb 0 limit && ltb limit (length out)
      then take limit (sort_by (λ a b. ltb b.sequence_no a.sequence_no) out)
      else out

  unfoldable pub last_entry : List (AuditEntry Payload) → Option (AuditEntry Payload)
  last_entry [] = none
  last_entry (e ∷ []) = some e
  last_entry (e ∷ e' ∷ es) = last_entry (e' ∷ es)

  -- `InMemoryAuditStore`
  abbrev pub memory_store : AuditStore Payload
  memory_store = record {
    State = Dict (List (AuditEntry Payload));
    append = λ st e. (
      true,
      insert e.organization_id (entries_or_nil (lookup e.organization_id st) ++ e ∷ []) st,
    );
    list =
        λ st f. some (limited f.limit (matching f (entries_or_nil (lookup f.organization_id st))));
    last = λ st org. some (last_entry (entries_or_nil (lookup org st)));
    count = λ st org. some (length (entries_or_nil (lookup org st)));
  }

  All-matching :
      (f : AuditFilter) (es : List (AuditEntry Payload))
      → All (λ e. matches_filter e f ≡ true) (matching f es)
  unfolding matching
  All-matching f [] = tt
  All-matching f (e ∷ es) = elim (Bool-cases (matches_filter e f)) [
    | inl h ↦ rw h (h, All-matching f es)
    | inr h ↦ rw h (All-matching f es)
  ]

  All-take {κ} :
      (P : AuditEntry Payload → Type κ) (n : ℕ) (es : List (AuditEntry Payload))
      → All P es
      → All P (take n es)
  All-take P zero es h = tt
  All-take P (suc n) [] h = tt
  All-take P (suc n) (e ∷ es) (p, h) = (p, All-take P n es h)

  length-take : (n : ℕ) (es : List (AuditEntry Payload)) → length (take n es) ≤ n
  length-take zero es = omega arith
  length-take (suc n) [] = omega arith
  length-take (suc n) (e ∷ es) = omega (arith, length-take n es)

  -- What the store in memory lists for a filter matches it, and a limit above 0 bounds its length.
  pub list_sound :
      (st : Dict (List (AuditEntry Payload))) (f : AuditFilter)
      → (es : List (AuditEntry Payload)) × (memory_store.list st f ≡ some es)
        × All (λ e. matches_filter e f ≡ true) es
        × ((f.limit ≡ 0) ⊎ (length es ≤ f.limit))
  unfolding limited
  list_sound st f =
      let out = matching f (entries_or_nil (lookup f.organization_id st)) in
      let newest = sort_by (λ (a b : AuditEntry Payload). ltb b.sequence_no a.sequence_no) out in
      let sound = All-matching f (entries_or_nil (lookup f.organization_id st)) in
      elim (Bool-cases (ltb 0 f.limit && ltb f.limit (length out))) [
        | inl h ↦ (
          take f.limit newest,
          rw h refl,
          All-take (λ e. matches_filter e f ≡ true) f.limit newest
              (All-sort_by _ (λ e. matches_filter e f ≡ true) out sound),
          inr (length-take f.limit newest),
        )
        | inr h ↦ (out, rw h refl, sound, ground (arith, h))
      ]
