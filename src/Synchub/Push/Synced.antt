-- ===== src/Synchub/Push/Synced.antt =====
-- When a session counts as pushed, and what one round of the push does to it.
use korai_sdk_go.Prelude.{
  String, ◌≡◌, ◌≢◌, refl, sym, ◌∙◌, false, Option, none, some, inl, inr, List, [], ◌∷◌, eq_iff,
  eq_refl, arith, All, Option-cases,
}
use korai_sdk_go.Prelude.Dict.{Dict, lookup, lookup-insert, lookup-insert_self}
use korai_sdk_go.Session.{Session}
use korai_sdk_go.Session.Merge.{contains}
use korai_sdk_go.Session.Record.{marshal_session}
use korai_sdk_go.Synchub.{Bytes, Store, Hub, Disk, Library, Syncer}
use korai_sdk_go.Synchub.Push.{recorded, push_one, push_all, ids, push_plaintext}

module _ (L : Library) where
  -- The hash of the session's plaintext is the one recorded for its id.
  pub record IsSynced (pushed : Dict String) (sess : Session) : Type 0 where
    pub plaintext : Bytes
    pub marshalled : marshal_session L.marshal_envelope sess ≡ some plaintext
    pub hash : lookup sess.id pushed ≡ some (L.content_hash plaintext)

  pub IsSynced-congr :
      (p q : Dict String) (sess : Session)
      → lookup sess.id p ≡ lookup sess.id q
      → IsSynced p sess
      → IsSynced q sess
  IsSynced-congr p q sess e h = record {
    plaintext = h.plaintext;
    marshalled = h.marshalled;
    hash = sym e ∙ h.hash;
  }

-- No two sessions have the same id.
abbrev pub NodupIds : List Session → Type 0
NodupIds [] = Unit
NodupIds (sess ∷ rest) = (contains (ids rest) sess.id ≡ false) × NodupIds rest

module _ (L : Library) (hash_nonempty : (b : Bytes) → L.content_hash b ≢ "") where
  recorded-hash :
      (o : Option String) (b : Bytes) → recorded o ≡ L.content_hash b → o ≡ some (L.content_hash b)
  recorded-hash none b e = absurd (hash_nonempty b (sym e))
  recorded-hash (some h) b e = cc

module _ {S : Store} {H : Hub} {D : Disk} (L : Library) where
  push_one-synced :
      (sess : Session) (s : Syncer S H D) → IsSynced L s.pushed sess → push_one L sess s ≡ (0, s)
  unfolding push_one
  push_one-synced sess s h =
      ground (arith, h.marshalled, h.hash, eq_refl (L.content_hash h.plaintext))

  pub push_all-synced :
      (sessions : List Session) (s : Syncer S H D)
      → All (IsSynced L s.pushed) sessions
      → push_all L sessions s ≡ (0, s)
  unfolding push_all
  push_all-synced [] s h = refl
  push_all-synced (sess ∷ rest) s (p, h) =
      ground (arith, push_one-synced sess s p, push_all-synced rest s h)

  store-push_one : (sess : Session) (s : Syncer S H D) → (push_one L sess s).1.store ≡ s.store
  unfolding push_one
  store-push_one sess s = ground arith

  pub store-push_all :
      (sessions : List Session) (s : Syncer S H D) → (push_all L sessions s).1.store ≡ s.store
  unfolding push_all
  store-push_all [] s = refl
  store-push_all (sess ∷ rest) s = store-push_all rest _ ∙ store-push_one sess s

  lookup-push_plaintext_ne :
      (sess : Session) (b : Bytes) (s : Syncer S H D) (j : String)
      → sess.id ≢ j
      → lookup j (push_plaintext L sess b s).1.pushed ≡ lookup j s.pushed
  unfolding push_one
  lookup-push_plaintext_ne sess b s j ne =
      ground (arith, eq_iff sess.id j, lookup-insert j sess.id (L.content_hash b) s.pushed)

  -- A round changes the record of no other id.
  lookup-push_one_ne :
      (sess : Session) (s : Syncer S H D) (j : String)
      → sess.id ≢ j
      → lookup j (push_one L sess s).1.pushed ≡ lookup j s.pushed
  unfolding push_one
  lookup-push_one_ne sess s j ne = elim (Option-cases (marshal_session L.marshal_envelope sess)) [
    | inl e ↦ rw (e, push_one) refl
    | inr (b, e) ↦ rw (e, push_one) (lookup-push_plaintext_ne sess b s j ne)
  ]

  lookup-push_all_ne :
      (sessions : List Session) (s : Syncer S H D) (j : String)
      → contains (ids sessions) j ≡ false
      → lookup j (push_all L sessions s).1.pushed ≡ lookup j s.pushed
  unfolding push_all contains
  lookup-push_all_ne [] s j h = refl
  lookup-push_all_ne (sess ∷ rest) s j h =
      lookup-push_all_ne rest _ j (ground arith)
      ∙ lookup-push_one_ne sess s j (ground (arith, eq_iff sess.id j))

  module _ (hash_nonempty : (b : Bytes) → L.content_hash b ≢ "") where
    push_plaintext-IsSynced :
        (sess : Session) (b : Bytes) (s : Syncer S H D)
        → marshal_session L.marshal_envelope sess ≡ some b
        → (push_plaintext L sess b s).0 ≡ 0
        → IsSynced L (push_plaintext L sess b s).1.pushed sess
    unfolding push_one
    push_plaintext-IsSynced sess b s m h = record {
      plaintext = b;
      marshalled = m;
      hash = ground (
        arith,
        eq_iff (recorded (lookup sess.id s.pushed)) (L.content_hash b),
        recorded-hash L hash_nonempty (lookup sess.id s.pushed) b,
        lookup-insert_self sess.id (L.content_hash b) s.pushed,
      );
    }

    -- A session that is pushed without a failure is synced afterwards.
    push_one-IsSynced :
        (sess : Session) (s : Syncer S H D)
        → (push_one L sess s).0 ≡ 0
        → IsSynced L (push_one L sess s).1.pushed sess
    unfolding push_one
    push_one-IsSynced sess s h = elim (Option-cases (marshal_session L.marshal_envelope sess)) [
      | inl e ↦ absurd (ground (arith, e))
      | inr (b, e) ↦ rw (e, push_one) (push_plaintext-IsSynced sess b s e (rw (e, push_one) at h))
    ]

    -- So is every session of a list of distinct ids.
    pub push_all-IsSynced :
        (sessions : List Session) (s : Syncer S H D)
        → NodupIds sessions
        → (push_all L sessions s).0 ≡ 0
        → All (IsSynced L (push_all L sessions s).1.pushed) sessions
    unfolding push_all
    push_all-IsSynced [] s u h = tt
    push_all-IsSynced (sess ∷ rest) s (p, u) h = (
      IsSynced-congr L _ _ sess (sym (lookup-push_all_ne rest _ sess.id p))
          (push_one-IsSynced sess s (omega arith)),
      push_all-IsSynced rest _ u (omega arith),
    )
