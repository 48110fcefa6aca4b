-- ===== src/Synchub/Apply/Lost.antt =====
-- sync.go: a block applied to a local history with a repetition.
use korai_sdk_go.Prelude.{
  String, ◌≡◌, ◌≢◌, ap, ◌∙◌, true, false, Option, some, [], ◌∷◌, eq_iff, eq_refl, arith,
}
use korai_sdk_go.Session.{Session, SessionMessage}
use korai_sdk_go.Session.Merge.{contains, message_key, merge_messages}
use korai_sdk_go.Session.Merge.Fresh.{has_key}
use korai_sdk_go.Synchub.{ManifestEntry, Store, Hub, Disk, Library, Syncer}
use korai_sdk_go.Synchub.Apply.{mark_synced, merge_remote, apply_block}
use korai_sdk_go.Synchub.Apply.Block.{Delivered, apply_block-Delivered, got_from}

merge_messages_twice :
    (marshal : SessionMessage → Option String) (m n : SessionMessage)
    → message_key marshal m ≢ message_key marshal n
    → merge_messages marshal (m ∷ m ∷ []) (n ∷ []) ≡ m ∷ n ∷ []
unfolding merge_messages contains
merge_messages_twice marshal m n ne =
    ground (
      arith,
      eq_refl (message_key marshal m),
      eq_iff (message_key marshal m) (message_key marshal n),
    )

has_key_twice :
    (marshal : SessionMessage → Option String) (m n : SessionMessage)
    → message_key marshal m ≢ message_key marshal n
    → has_key marshal (m ∷ m ∷ []) (message_key marshal n) ≡ false
unfolding has_key contains
has_key_twice marshal m n ne =
    ground (arith, eq_iff (message_key marshal m) (message_key marshal n))

module _ {S : Store} {H : Hub} {D : Disk} (L : Library) where
  store-merge_remote :
      (hash : String) (remote local : Session) (s : Syncer S H D) (m n : SessionMessage)
      → local.messages ≡ m ∷ m ∷ []
      → remote.messages ≡ n ∷ []
      → message_key L.marshal_message m ≢ message_key L.marshal_message n
      → ((merge_remote L hash remote (some local) s).0 ≡ true)
        × ((merge_remote L hash remote (some local) s).1.store ≡ s.store)
  unfolding merge_remote mark_synced
  store-merge_remote hash remote local s m n p q ne =
      ground (arith, p, q, merge_messages_twice L.marshal_message m n ne)

  -- The stored session holds one message twice, and a delivered block holds one other message.
  -- Applying the block succeeds without writing to the store, which does not have that message:
  -- the copy that the merge drops makes up for the message that it adds.
  pub apply_block_loses :
      (e : ManifestEntry) (s : Syncer S H D) (remote local : Session) (m n : SessionMessage)
      → Delivered L e s remote
      → S.load s.store e.item_id ≡ some local
      → local.messages ≡ m ∷ m ∷ []
      → remote.messages ≡ n ∷ []
      → message_key L.marshal_message m ≢ message_key L.marshal_message n
      → ((apply_block L e s).0 ≡ true)
        × ((apply_block L e s).1.store ≡ s.store)
        × (has_key L.marshal_message local.messages (message_key L.marshal_message n) ≡ false)
  apply_block_loses e s remote local m n d l p q ne =
      let r : apply_block L e s ≡ merge_remote L e.block_hash remote (some local) (got_from L e s) =
        apply_block-Delivered L e s remote d
        ∙ ap (λ o. merge_remote L e.block_hash remote o (got_from L e s)) l in
      let (done, kept) = store-merge_remote e.block_hash remote local (got_from L e s) m n p q ne in
      (
        ap (λ t. t.0) r ∙ done,
        ap (λ t. t.1.store) r ∙ kept,
        ap (λ ms. has_key L.marshal_message ms (message_key L.marshal_message n)) p
            ∙ has_key_twice L.marshal_message m n ne,
      )
