-- ===== src/Synchub/Push/Laws.antt =====
-- sync.go: a whole push, and one that follows it.
use korai_sdk_go.Prelude.{
  String, ◌≡◌, ◌≢◌, refl, ap, sym, ◌∙◌, true, none, some, List, [], ◌∷◌, eq_refl, arith, All,
}
use korai_sdk_go.Session.{Session}
use korai_sdk_go.Session.Merge.{contains}
use korai_sdk_go.Synchub.{Bytes, Store, Hub, Disk, Library, Syncer}
use korai_sdk_go.Synchub.Push.{push_all, gone_ids, push_tombstones, ids, push_listed, push}
use korai_sdk_go.Synchub.Push.Synced.{
  IsSynced, IsSynced-congr, NodupIds, push_all-synced, store-push_all, push_all-IsSynced,
}
use korai_sdk_go.Synchub.Push.Gone.{
  store-push_tombstones, lookup-push_tombstones, push_tombstones-quiet, gone_ids-push_tombstones,
}

-- Every listed session is among the ids present, also after more ids.
All-present :
    (more : List String) (sessions : List Session)
    → ((j : String) → contains (ids sessions) j ≡ true → contains more j ≡ true)
    → All (λ (sess : Session). contains more sess.id ≡ true) sessions
unfolding contains
All-present more [] h = tt
All-present more (sess ∷ rest) h = (
  h sess.id (ground (arith, eq_refl sess.id)),
  All-present more rest (λ j m. h j (ground (arith, m))),
)

module _ {S : Store} {H : Hub} {D : Disk} (L : Library) where
  All-IsSynced-push_tombstones :
      (present : List String) (s : Syncer S H D) (sessions : List Session)
      → (push_tombstones present s).0 ≡ 0
      → All (λ (sess : Session). contains present sess.id ≡ true) sessions
      → All (IsSynced L s.pushed) sessions
      → All (IsSynced L (push_tombstones present s).1.pushed) sessions
  All-IsSynced-push_tombstones present s [] h m k = tt
  All-IsSynced-push_tombstones present s (sess ∷ rest) h (p, m) (q, k) = (
    IsSynced-congr L _ _ sess (sym (lookup-push_tombstones present s sess.id h p)) q,
    All-IsSynced-push_tombstones present s rest h m k,
  )

  push_listed-quiet :
      (sessions : List Session) (s : Syncer S H D)
      → All (IsSynced L s.pushed) sessions
      → gone_ids s.pushed (ids sessions) ≡ []
      → push_listed L (some sessions) s ≡ (none, s)
  unfolding push_listed
  push_listed-quiet sessions s h g =
      rw (push_all-synced L sessions s h) (rw (push_tombstones-quiet (ids sessions) s g) refl)

  -- If every listed session is synced and no record is without its session, a push succeeds and
  -- leaves the state as it is, that of the hub and the number of calls of `Encode` included.
  pub push_quiet :
      (sessions : List Session) (s : Syncer S H D)
      → S.list s.store ≡ some sessions
      → All (IsSynced L s.pushed) sessions
      → gone_ids s.pushed (ids sessions) ≡ []
      → push L s ≡ (none, s)
  unfolding push
  push_quiet sessions s l h g = rw l (push_listed-quiet sessions s h g)

  store-push_listed :
      (sessions : List Session) (s : Syncer S H D)
      → (push_listed L (some sessions) s).1.store ≡ s.store
  unfolding push_listed
  store-push_listed sessions s =
      store-push_tombstones (ids sessions) _ ∙ store-push_all L sessions s

  -- What a listed push without failures leaves.
  push_listed-IsSynced :
      (hash_nonempty : (b : Bytes) → L.content_hash b ≢ "") (sessions : List Session)
      (s : Syncer S H D)
      → NodupIds sessions
      → (push_listed L (some sessions) s).0 ≡ none
      → All (IsSynced L (push_listed L (some sessions) s).1.pushed) sessions
        × (gone_ids (push_listed L (some sessions) s).1.pushed (ids sessions) ≡ [])
  unfolding push_listed
  push_listed-IsSynced hash_nonempty sessions s u h =
      let s' = (push_all L sessions s).1 in
      let n : (push_all L sessions s).0 ≡ 0 = ground arith in
      let m : (push_tombstones (ids sessions) s').0 ≡ 0 = ground arith in
      (
        All-IsSynced-push_tombstones (ids sessions) s' sessions m
            (All-present (ids sessions) sessions (λ j p. p))
            (push_all-IsSynced L hash_nonempty sessions s u n),
        gone_ids-push_tombstones (ids sessions) s' m,
      )

  -- After a push of sessions with distinct ids that reports no failure, another push of the same
  -- store has nothing to do: it succeeds and leaves the state, the hub's included, as it is.
  -- Hashes are not empty.
  pub push_twice :
      (hash_nonempty : (b : Bytes) → L.content_hash b ≢ "") (sessions : List Session)
      (s : Syncer S H D)
      → S.list s.store ≡ some sessions
      → NodupIds sessions
      → (push L s).0 ≡ none
      → push L (push L s).1 ≡ (none, (push L s).1)
  unfolding push
  push_twice hash_nonempty sessions s l u h =
      let t = (push_listed L (some sessions) s).1 in
      let e : push L s ≡ push_listed L (some sessions) s = rw l refl in
      let (synced, quiet) =
        push_listed-IsSynced hash_nonempty sessions s u (ap (λ r. r.0) (sym e) ∙ h) in
      let listed : S.list t.store ≡ some sessions = ap S.list (store-push_listed sessions s) ∙ l in
      rw e (push_quiet sessions t listed synced quiet)
