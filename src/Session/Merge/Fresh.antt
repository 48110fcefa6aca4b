-- ===== src/Session/Merge/Fresh.antt =====
-- A merge without its accumulators: the messages whose keys are fresh.
use korai_sdk_go.Prelude.{
  String, ◌≡◌, refl, ap, ◌∙◌, Bool, true, false, Option, List, [], ◌∷◌, ◌++◌, ◌||◌, map, append-nil,
  append_assoc, Bool-cases, ◌==◌, eq_iff, eq_refl, arith, if◌then◌else◌, inl, inr,
}
use korai_sdk_go.Session.{SessionMessage}
use korai_sdk_go.Session.Merge.{contains, message_key, add_one, add, merge_messages}

module _ (marshal : SessionMessage → Option String) where
  abbrev keys : List SessionMessage → List String
  keys = map (message_key marshal)

  -- `k` is the key of one of the messages.
  unfoldable pub has_key : List SessionMessage → String → Bool
  has_key ms k = contains (keys ms) k

  -- No two messages have the same key.
  abbrev pub NodupKeys : List SessionMessage → Type 0
  NodupKeys [] = Unit
  NodupKeys (m ∷ ms) = (has_key ms (message_key marshal m) ≡ false) × NodupKeys ms

  -- The messages whose keys are not among those seen, each key once.
  pub fresh : List String → List SessionMessage → List SessionMessage
  fresh seen [] = []
  fresh seen (m ∷ ms) =
      let key = message_key marshal m in
      let rest = fresh seen ms in
      let more = fresh (key ∷ seen) ms in if contains seen key then rest else m ∷ more

  -- The keys seen after the messages.
  pub seen_after : List String → List SessionMessage → List String
  seen_after seen [] = seen
  seen_after seen (m ∷ ms) =
      seen_after
        (if contains seen (message_key marshal m) then seen else message_key marshal m ∷ seen) ms

  add-eq :
      (ms : List SessionMessage) (seen : List String) (out : List SessionMessage)
      → add marshal ms (record { seen = seen; out = out })
        ≡ record { seen = seen_after seen ms; out = out ++ fresh seen ms }
  unfolding add add_one fresh seen_after
  add-eq [] seen out = rw append-nil
  add-eq (m ∷ ms) seen out = elim (Bool-cases (contains seen (message_key marshal m))) [
    | inl e ↦ rw e (add-eq ms seen out)
    | inr e ↦ rw e (add-eq ms _ _ ∙ rw append_assoc)
  ]

  pub merge-eq :
      (local remote : List SessionMessage)
      → merge_messages marshal local remote ≡ fresh [] local ++ fresh (seen_after [] local) remote
  unfolding merge_messages
  merge-eq local remote =
      cc (add-eq local [] [], add-eq remote (seen_after [] local) (fresh [] local))

  pub contains-seen_after :
      (seen : List String) (ms : List SessionMessage) (k : String)
      → contains (seen_after seen ms) k ≡ (contains seen k || has_key ms k)
  unfolding seen_after contains has_key
  contains-seen_after seen [] k = ground arith
  contains-seen_after seen (m ∷ ms) k = ground (
    arith,
    contains-seen_after seen ms k,
    contains-seen_after (message_key marshal m ∷ seen) ms k,
    eq_iff (message_key marshal m) k,
  )

  pub has_key-append :
      (xs ys : List SessionMessage) (k : String)
      → has_key (xs ++ ys) k ≡ (has_key xs k || has_key ys k)
  unfolding has_key contains
  has_key-append [] ys k = refl
  has_key-append (x ∷ xs) ys k = ground (arith, has_key-append xs ys k)

  pub has_key-fresh :
      (seen : List String) (ms : List SessionMessage) (k : String)
      → (contains seen k || has_key (fresh seen ms) k) ≡ (contains seen k || has_key ms k)
  unfolding fresh contains has_key
  has_key-fresh seen [] k = refl
  has_key-fresh seen (m ∷ ms) k = ground (
    arith,
    has_key-fresh seen ms k,
    has_key-fresh (message_key marshal m ∷ seen) ms k,
    eq_iff (message_key marshal m) k,
  )

  pub has_key-cons :
      (m : SessionMessage) (ms : List SessionMessage) (k : String)
      → has_key (m ∷ ms) k ≡ (message_key marshal m == k || has_key ms k)
  unfolding has_key contains
  has_key-cons m ms k = refl

  pub NodupKeys-append :
      (xs ys : List SessionMessage)
      → NodupKeys xs
      → NodupKeys ys
      → ((k : String) → has_key xs k ≡ true → has_key ys k ≡ false)
      → NodupKeys (xs ++ ys)
  NodupKeys-append [] ys u v apart = v
  NodupKeys-append (x ∷ xs) ys (p, u) v apart =
      let k = message_key marshal x in
      (
        ground (arith, has_key-append xs ys k, apart k, has_key-cons x xs k, eq_refl k),
        NodupKeys-append xs ys u v (λ j h. apart j (ground (arith, has_key-cons x xs j))),
      )

  pub NodupKeys-of_append_left : (xs ys : List SessionMessage) → NodupKeys (xs ++ ys) → NodupKeys xs
  NodupKeys-of_append_left [] ys u = tt
  NodupKeys-of_append_left (x ∷ xs) ys (p, u) = (
    ground (arith, has_key-append xs ys (message_key marshal x)),
    NodupKeys-of_append_left xs ys u,
  )

  -- A key seen before is not among the fresh ones.
  pub has_key-fresh_seen :
      (seen : List String) (ms : List SessionMessage) (k : String)
      → contains seen k ≡ true
      → has_key (fresh seen ms) k ≡ false
  unfolding fresh contains has_key
  has_key-fresh_seen seen [] k h = refl
  has_key-fresh_seen seen (m ∷ ms) k h = ground (
    arith,
    has_key-fresh_seen seen ms k,
    has_key-fresh_seen (message_key marshal m ∷ seen) ms k,
    eq_iff (message_key marshal m) k,
  )

  contains_self : (k : String) (ks : List String) → contains (k ∷ ks) k ≡ true
  unfolding contains
  contains_self k ks = ground (arith, eq_refl k)

  pub fresh-NodupKeys : (ms : List SessionMessage) (seen : List String) → NodupKeys (fresh seen ms)
  unfolding fresh
  fresh-NodupKeys [] seen = tt
  fresh-NodupKeys (m ∷ ms) seen = elim (Bool-cases (contains seen (message_key marshal m))) [
    | inl e ↦ rw e (fresh-NodupKeys ms seen)
    | inr e ↦ rw e (
      has_key-fresh_seen (message_key marshal m ∷ seen) ms _ (contains_self _ seen),
      fresh-NodupKeys ms (message_key marshal m ∷ seen),
    )
  ]

  later :
      (m : SessionMessage) (ms : List SessionMessage) (seen : List String)
      → has_key ms (message_key marshal m) ≡ false
      → ((k : String) → has_key (m ∷ ms) k ≡ true → contains seen k ≡ false)
      → (k : String) → has_key ms k ≡ true
      → contains (message_key marshal m ∷ seen) k ≡ false
  unfolding contains
  later m ms seen p apart k h =
      ground (arith, apart k, has_key-cons m ms k, eq_iff (message_key marshal m) k)

  pub fresh-eq_of_nodup :
      (ms : List SessionMessage) (seen : List String)
      → NodupKeys ms
      → ((k : String) → has_key ms k ≡ true → contains seen k ≡ false)
      → fresh seen ms ≡ ms
  unfolding fresh
  fresh-eq_of_nodup [] seen u apart = refl
  fresh-eq_of_nodup (m ∷ ms) seen (p, u) apart =
      let key = message_key marshal m in
      rw (apart key (ground (arith, has_key-cons m ms key, eq_refl key)))
        (ap (λ t. m ∷ t) (fresh-eq_of_nodup ms (key ∷ seen) u (later m ms seen p apart)))

  -- Once every key has been seen, nothing is fresh; and the other way round.
  pub fresh-eq-nil :
      (seen : List String) (ms : List SessionMessage)
      → ((k : String) → has_key ms k ≡ true → contains seen k ≡ true)
      → fresh seen ms ≡ []
  unfolding fresh
  fresh-eq-nil seen [] h = refl
  fresh-eq-nil seen (m ∷ ms) h =
      let key = message_key marshal m in
      rw (h key (ground (arith, has_key-cons m ms key, eq_refl key)))
        (fresh-eq-nil seen ms (λ k e. h k (ground (arith, has_key-cons m ms k))))
