-- ===== src/Synchub/Push.antt =====
-- sync.go: one push of the local sessions, and the tombstones for those that are gone.
pub mod Harmless
pub mod Synced
pub mod Gone
pub mod Laws
use korai_sdk_go.Prelude.{
  ℕ, zero, suc, ◌+◌, String, Bool, true, false, Option, none, some, List, [], ◌∷◌, map, not, ltb,
  ◌==◌, if◌then◌else◌,
}
use korai_sdk_go.Prelude.Dict.{Dict, lookup, insert, erase}
use korai_sdk_go.Session.{Session}
use korai_sdk_go.Session.Merge.{contains}
use korai_sdk_go.Session.Record.{marshal_session}
use korai_sdk_go.Synchub.{
  Bytes, Store, Hub, Disk, Library, SyncError, list_failed, push_failed, Syncer,
}
use korai_sdk_go.Synchub.Padding.{pad_to_bucket}

-- `s.pushed[id] == h`, where a missing id reads as "".
abbrev pub recorded : Option String → String
recorded none = ""
recorded (some h) = h

module _ {S : Store} {H : Hub} {D : Disk} (L : Library) where
  -- The upload of a changed session: its failures, 0 or 1, and the state after it.
  put_encoded : Session → String → Option Bytes → Syncer S H D → ℕ × Syncer S H D
  put_encoded sess h none s = (1, s)
  put_encoded sess h (some blob) s =
      let block_hash = L.hash_ciphertext blob in
      let (done, hub) = H.put_block s.hub sess.id block_hash blob in
      if done
      then (
        0,
        record s { pushed = insert sess.id h s.pushed; have = block_hash ∷ s.have; hub = hub },
      )
      else (1, record s { hub = hub })

  push_plaintext : Session → Bytes → Syncer S H D → ℕ × Syncer S H D
  push_plaintext sess plaintext s =
      let h = L.content_hash plaintext in
      if recorded (lookup sess.id s.pushed) == h
      then (0, s)
      else put_encoded sess h (L.encode s.nonces (pad_to_bucket plaintext))
          (record s { nonces = s.nonces + 1 })

  -- One round of the loop over the sessions.
  unfoldable pub push_one : Session → Syncer S H D → ℕ × Syncer S H D
  unfolding put_encoded push_plaintext
  push_one sess s = elim (marshal_session L.marshal_envelope sess) [
    | none ↦ (1, s)
    | some plaintext ↦ push_plaintext sess plaintext s
  ]

  unfoldable pub push_all : List Session → Syncer S H D → ℕ × Syncer S H D
  push_all [] s = (0, s)
  push_all (sess ∷ rest) s =
      let (n, s') = push_one sess s in let (m, s'') = push_all rest s' in (n + m, s'')

-- The ids that were synced and are no longer present.
unfoldable pub gone_ids : Dict String → List String → List String
unfolding contains
gone_ids [] present = []
gone_ids ((id, h) ∷ pushed) present =
    let rest = gone_ids pushed present in if contains present id then rest else id ∷ rest

module _ {S : Store} {H : Hub} {D : Disk} where
  push_tombstone : String → Syncer S H D → ℕ × Syncer S H D
  push_tombstone id s =
      let (done, hub) = H.tombstone s.hub id in
      if done
      then (0, record s { pushed = erase id s.pushed; hub = hub })
      else (1, record s { hub = hub })

  tombstone_all : List String → Syncer S H D → ℕ × Syncer S H D
  tombstone_all [] s = (0, s)
  tombstone_all (id ∷ ids) s =
      let (n, s') = push_tombstone id s in let (m, s'') = tombstone_all ids s' in (n + m, s'')

  unfoldable pub push_tombstones : List String → Syncer S H D → ℕ × Syncer S H D
  unfolding gone_ids push_tombstone tombstone_all
  push_tombstones present s = tombstone_all (gone_ids s.pushed present) s

abbrev pub ids : List Session → List String
ids = map (λ (sess : Session). sess.id)

module _ {S : Store} {H : Hub} {D : Disk} (L : Library) where
  push_listed : Option (List Session) → Syncer S H D → Option SyncError × Syncer S H D
  push_listed none s = (some list_failed, s)
  push_listed (some sessions) s =
      let (n, s') = push_all L sessions s in
      let (m, s'') = push_tombstones (ids sessions) s' in
      (if ltb 0 (n + m) then some (push_failed (n + m)) else none, s'')

  unfoldable pub push : Syncer S H D → Option SyncError × Syncer S H D
  unfolding push_one push_all push_tombstones push_listed
  push s = push_listed (S.list s.store) s
