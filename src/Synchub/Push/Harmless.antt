-- ===== src/Synchub/Push/Harmless.antt =====
-- sync.go: a push and the self-destruct hook.
use korai_sdk_go.Prelude.{◌≡◌, ◌≢◌, refl, ◌∙◌, Option, none, some, List, [], ◌∷◌, arith, String}
use korai_sdk_go.Session.{Session}
use korai_sdk_go.Synchub.{Store, Hub, Disk, Library, namespace_nuked, Syncer}
use korai_sdk_go.Synchub.Push.{
  put_encoded, push_plaintext, push_one, push_all, gone_ids, push_tombstone, tombstone_all,
  push_tombstones, ids, push_listed, push,
}

module _ {S : Store} {H : Hub} {D : Disk} (L : Library) where
  self_destructs-push_one :
      (sess : Session) (s : Syncer S H D) → (push_one L sess s).1.self_destructs ≡ s.self_destructs
  unfolding push_one push_plaintext put_encoded
  self_destructs-push_one sess s = ground arith

  self_destructs-push_all :
      (xs : List Session) (s : Syncer S H D) → (push_all L xs s).1.self_destructs ≡ s.self_destructs
  unfolding push_all
  self_destructs-push_all [] s = refl
  self_destructs-push_all (x ∷ xs) s =
      self_destructs-push_all xs (push_one L x s).1 ∙ self_destructs-push_one x s

  self_destructs-push_tombstone :
      (id : String) (s : Syncer S H D) → (push_tombstone id s).1.self_destructs ≡ s.self_destructs
  unfolding push_tombstone
  self_destructs-push_tombstone id s = ground arith

  self_destructs-tombstone_all :
      (xs : List String) (s : Syncer S H D)
      → (tombstone_all xs s).1.self_destructs ≡ s.self_destructs
  unfolding tombstone_all
  self_destructs-tombstone_all [] s = refl
  self_destructs-tombstone_all (x ∷ xs) s =
      self_destructs-tombstone_all xs (push_tombstone x s).1 ∙ self_destructs-push_tombstone x s

  push_listed-harmless :
      (o : Option (List Session)) (s : Syncer S H D)
      → ((push_listed L o s).1.self_destructs ≡ s.self_destructs)
        × ((push_listed L o s).0 ≢ some namespace_nuked)
  unfolding push_listed push_tombstones
  push_listed-harmless none s = (refl, λ q. ground (arith, q))
  push_listed-harmless (some xs) s =
      let t = (push_all L xs s).1 in
      (
        self_destructs-tombstone_all (gone_ids t.pushed (ids xs)) t ∙ self_destructs-push_all xs s,
        λ q. ground (arith, q),
      )

  pub push-harmless :
      (s : Syncer S H D)
      → ((push L s).1.self_destructs ≡ s.self_destructs) × ((push L s).0 ≢ some namespace_nuked)
  unfolding push
  push-harmless s = push_listed-harmless (S.list s.store) s
