-- ===== src/Session/Merge/Laws.antt =====
-- What a merge contains, and when it leaves the local history as it is.
use korai_sdk_go.Prelude.{
  String, ◌≡◌, ◌≢◌, refl, ap, sym, ◌∙◌, ◌↔◌, true, Option, List, [], ◌∷◌, ◌++◌, ◌||◌, append-nil,
  length, length-append, arith,
}
use mathlib.Core.Path.{subst}
use korai_sdk_go.Session.{SessionMessage}
use korai_sdk_go.Session.Merge.{contains, merge_messages}
use korai_sdk_go.Session.Merge.Fresh.{
  has_key, NodupKeys, fresh, seen_after, merge-eq, contains-seen_after, has_key-append,
  has_key-fresh, NodupKeys-append, NodupKeys-of_append_left, has_key-fresh_seen, fresh-NodupKeys,
  fresh-eq_of_nodup, fresh-eq-nil,
}

module _ (marshal : SessionMessage → Option String) where
  -- A merge holds exactly the messages of the two histories, up to their
  -- keys.
  pub has_key-merge_messages :
      (local remote : List SessionMessage) (k : String)
      → has_key marshal (merge_messages marshal local remote) k
        ≡ (has_key marshal local k || has_key marshal remote k)
  unfolding contains
  has_key-merge_messages local remote k = rw (merge-eq marshal local remote) (
      ground (
        arith,
        has_key-append marshal (fresh marshal [] local)
            (fresh marshal (seen_after marshal [] local) remote) k,
        has_key-fresh marshal [] local k,
        has_key-fresh marshal (seen_after marshal [] local) remote k,
        contains-seen_after marshal [] local k,
      ))

  seen_key :
      (local : List SessionMessage) (k : String)
      → contains (seen_after marshal [] local) k ≡ has_key marshal local k
  unfolding contains
  seen_key local k = contains-seen_after marshal [] local k

  fresh_key :
      (local : List SessionMessage) (k : String)
      → has_key marshal (fresh marshal [] local) k ≡ has_key marshal local k
  unfolding contains
  fresh_key local k = has_key-fresh marshal [] local k

  -- No two messages of a merge have the same key.
  pub merge_messages-NodupKeys :
      (local remote : List SessionMessage) → NodupKeys marshal (merge_messages marshal local remote)
  merge_messages-NodupKeys local remote = rw (merge-eq marshal local remote) (
      NodupKeys-append marshal _ _ (fresh-NodupKeys marshal local [])
        (fresh-NodupKeys marshal remote (seen_after marshal [] local))
        (λ k h.
          has_key-fresh_seen marshal (seen_after marshal [] local) remote k
            (seen_key local k ∙ sym (fresh_key local k) ∙ h)))

  merge_of_nodup :
      (local remote : List SessionMessage)
      → NodupKeys marshal local
      → merge_messages marshal local remote
        ≡ local ++ fresh marshal (seen_after marshal [] local) remote
  unfolding contains
  merge_of_nodup local remote u =
      merge-eq marshal local remote
      ∙ ap (λ t. t ++ fresh marshal (seen_after marshal [] local) remote)
          (fresh-eq_of_nodup marshal local [] u (λ k h. refl))

  -- The result begins with the local history, if that holds no message twice.
  pub merge_messages-prefix :
      (local remote : List SessionMessage)
      → NodupKeys marshal local
      → (added : List SessionMessage) × (merge_messages marshal local remote ≡ local ++ added)
  merge_messages-prefix local remote u = (_, merge_of_nodup local remote u)

  -- The result never begins with a local history that holds a message twice, whatever the remote
  -- one is: the second copy is dropped.
  pub merge_messages_drops :
      (local remote added : List SessionMessage)
      → ¬ (NodupKeys marshal local)
      → merge_messages marshal local remote ≢ local ++ added
  merge_messages_drops local remote added twice e = twice (
      NodupKeys-of_append_left marshal local added
        (subst (NodupKeys marshal) e (merge_messages-NodupKeys local remote)))

  fresh-eq-nil_of_length :
      (local more : List SessionMessage) → length (local ++ more) ≡ length local → more ≡ []
  fresh-eq-nil_of_length local [] e = refl
  fresh-eq-nil_of_length local (m ∷ more) e =
      absurd (omega (arith, e, length-append local (m ∷ more)))

  known_of_nothing :
      (local remote : List SessionMessage)
      → fresh marshal (seen_after marshal [] local) remote ≡ []
      → (k : String) → has_key marshal remote k ≡ true
      → has_key marshal local k ≡ true
  unfolding has_key contains
  known_of_nothing local remote nothing k h = ground (
    arith,
    has_key-fresh marshal (seen_after marshal [] local) remote k,
    ap (λ t. has_key marshal t k) nothing,
    seen_key local k,
  )

  -- If the local history holds no message twice, a merge is as long as it exactly when it already
  -- has every remote message; this is the test by which a sync skips a block.
  pub length-merge_messages_iff :
      (local remote : List SessionMessage)
      → NodupKeys marshal local
      → (length (merge_messages marshal local remote) ≡ length local)
        ↔ ((k : String) → has_key marshal remote k ≡ true → has_key marshal local k ≡ true)
  length-merge_messages_iff local remote u =
      let seen = seen_after marshal [] local in
      (
        λ e. known_of_nothing local remote (
            fresh-eq-nil_of_length local (fresh marshal seen remote)
              (ap length (sym (merge_of_nodup local remote u)) ∙ e)),
        λ all. rw (merge_of_nodup local remote u) (
            rw (fresh-eq-nil marshal seen remote (λ k h. seen_key local k ∙ all k h))
              (ap length (append-nil local))),
      )
