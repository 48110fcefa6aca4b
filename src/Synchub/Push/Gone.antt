-- ===== src/Synchub/Push/Gone.antt =====
-- Which records a push tombstones, and what is left of them when no tombstone fails.
use korai_sdk_go.Prelude.{
  String, ◌≡◌, refl, ap, ◌∙◌, true, false, not, none, List, [], ◌∷◌, ◌&&◌, eq_iff, eq_refl, arith,
  if◌then◌else◌,
}
use korai_sdk_go.Prelude.Dict.{Dict, lookup, erase, lookup-erase, is_some}
use korai_sdk_go.Session.Merge.{contains}
use korai_sdk_go.Synchub.{Store, Hub, Disk, Syncer}
use korai_sdk_go.Synchub.Push.{gone_ids, push_tombstone, tombstone_all, push_tombstones}

pub contains-gone_ids :
    (pushed : Dict String) (present : List String) (j : String)
    → contains (gone_ids pushed present) j ≡ (is_some (lookup j pushed) && not (contains present j))
unfolding gone_ids lookup contains
contains-gone_ids [] present j = refl
contains-gone_ids ((id, h) ∷ pushed) present j =
    ground (arith, contains-gone_ids pushed present j, eq_iff id j)

eq_nil_of_contains : (xs : List String) → ((j : String) → contains xs j ≡ false) → xs ≡ []
unfolding contains
eq_nil_of_contains [] h = refl
eq_nil_of_contains (x ∷ xs) h = absurd (ground (arith, h x, eq_refl x))

erase_all : List String → Dict String → Dict String
erase_all [] p = p
erase_all (id ∷ ids) p = erase_all ids (erase id p)

lookup-erase_all :
    (xs : List String) (p : Dict String) (j : String)
    → lookup j (erase_all xs p) ≡ (if contains xs j then none else lookup j p)
unfolding erase_all contains
lookup-erase_all [] p j = refl
lookup-erase_all (id ∷ xs) p j =
    ground (arith, lookup-erase_all xs (erase id p) j, lookup-erase j id p)

-- With every gone id erased, nothing is gone.
gone_ids-erase_all :
    (pushed : Dict String) (present : List String)
    → gone_ids (erase_all (gone_ids pushed present) pushed) present ≡ []
gone_ids-erase_all pushed present =
    let gone = gone_ids pushed present in
    eq_nil_of_contains _ λ j. ground (
      arith,
      contains-gone_ids (erase_all gone pushed) present j,
      lookup-erase_all gone pushed j,
      contains-gone_ids pushed present j,
    )

module _ {S : Store} {H : Hub} {D : Disk} where
  pushed-tombstone_all :
      (xs : List String) (s : Syncer S H D)
      → (tombstone_all xs s).0 ≡ 0
      → (tombstone_all xs s).1.pushed ≡ erase_all xs s.pushed
  unfolding tombstone_all push_tombstone erase_all
  pushed-tombstone_all [] s h = refl
  pushed-tombstone_all (id ∷ xs) s h =
      ground (arith, pushed-tombstone_all xs (push_tombstone id s).1)

  store-tombstone_all :
      (xs : List String) (s : Syncer S H D) → (tombstone_all xs s).1.store ≡ s.store
  unfolding tombstone_all push_tombstone
  store-tombstone_all [] s = refl
  store-tombstone_all (id ∷ xs) s = ground (arith, store-tombstone_all xs (push_tombstone id s).1)

  pub store-push_tombstones :
      (present : List String) (s : Syncer S H D) → (push_tombstones present s).1.store ≡ s.store
  unfolding push_tombstones
  store-push_tombstones present s = store-tombstone_all (gone_ids s.pushed present) s

  -- Without a failure, the records of the ids present stay, and a second round has nothing to do.
  pub lookup-push_tombstones :
      (present : List String) (s : Syncer S H D) (j : String)
      → (push_tombstones present s).0 ≡ 0
      → contains present j ≡ true
      → lookup j (push_tombstones present s).1.pushed ≡ lookup j s.pushed
  unfolding push_tombstones
  lookup-push_tombstones present s j h m =
      let gone = gone_ids s.pushed present in
      ap (lookup j) (pushed-tombstone_all gone s h)
      ∙ ground (arith, lookup-erase_all gone s.pushed j, contains-gone_ids s.pushed present j)

  pub push_tombstones-quiet :
      (present : List String) (s : Syncer S H D)
      → gone_ids s.pushed present ≡ []
      → push_tombstones present s ≡ (0, s)
  unfolding push_tombstones
  push_tombstones-quiet present s e = rw e refl

  pub gone_ids-push_tombstones :
      (present : List String) (s : Syncer S H D)
      → (push_tombstones present s).0 ≡ 0
      → gone_ids (push_tombstones present s).1.pushed present ≡ []
  unfolding push_tombstones
  gone_ids-push_tombstones present s h =
      ap (λ p. gone_ids p present) (pushed-tombstone_all (gone_ids s.pushed present) s h)
      ∙ gone_ids-erase_all s.pushed present
