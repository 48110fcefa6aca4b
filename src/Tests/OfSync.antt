-- ===== src/Tests/OfSync.antt =====
-- Examples of pushes, pulls, padding and nuke markers.
use korai_sdk_go.Prelude.{
  ℕ, ◌+◌, ◌≤◌, String, ◌≡◌, ◌≢◌, refl, ◌↔◌, true, false, ◌||◌, ◌&&◌, Option, none, some, List, [],
  ◌∷◌, ◌++◌, eq_iff, arith,
}
use korai_sdk_go.Prelude.Int.{pos, ◌≤ℤ◌}
use korai_sdk_go.Prelude.Sorting.{sort_by}
use korai_sdk_go.Session.{Session, SessionMessage}
use korai_sdk_go.Session.Merge.{contains, message_key}
use korai_sdk_go.Session.Merge.Fresh.{has_key}
use korai_sdk_go.Prelude.Dict.{lookup, insert}
use korai_sdk_go.Session.Record.{marshal_session, unmarshal_session}
use korai_sdk_go.Synchub.{Store, Manifest, SyncError, namespace_nuked, Syncer}
use korai_sdk_go.Synchub.Padding.{pad_to_bucket, spaces, IsBucket, pad_to_bucket_fits}
use korai_sdk_go.Synchub.Nuke.{verify_nuke}
use korai_sdk_go.Synchub.Nuke.Guard.{IsOrdered, verify_nuke_iff}
use korai_sdk_go.Synchub.Push.{push}
use korai_sdk_go.Synchub.Push.Laws.{push_twice}
use korai_sdk_go.Synchub.Apply.{apply_block, apply_tombstone, apply_manifest}
use korai_sdk_go.Synchub.Apply.Block.{Delivered, apply_block_forgets}
use korai_sdk_go.Synchub.Apply.Merged.{apply_block_new, apply_block_known}
use korai_sdk_go.Synchub.Apply.Lost.{apply_block_loses}
use korai_sdk_go.Synchub.Pull.{pull_loop, pull_round, goes_on}
use korai_sdk_go.Synchub.Pull.Loop.{pull_loop_total}
use korai_sdk_go.Synchub.Pull.Guarded.{pull_loop_guarded}
use korai_sdk_go.Tests.Fixtures.{
  said, marshal, session, find, memory, full, memory-IsLawful, entry, page, hub, disk, library,
  config, start,
}

pad_to_bucket_fits_example :
    (k : ℕ) × (pad_to_bucket (1 ∷ 2 ∷ []) ≡ (1 ∷ 2 ∷ []) ++ spaces k)
    × IsBucket (2 + k)
    × ((c : ℕ) → IsBucket c → 2 ≤ c → 2 + k ≤ c)
pad_to_bucket_fits_example = pad_to_bucket_fits (1 ∷ 2 ∷ []) (omega arith)

verify_nuke_iff_example :
    (verify_nuke (library []) config page ≡ true) ↔ IsOrdered (library []) config page
verify_nuke_iff_example = verify_nuke_iff (library []) config page

abbrev stored : List Session
stored = session "a" (said "hi" ∷ []) ∷ session "b" [] ∷ []

abbrev before : Syncer memory hub disk
before = start stored

-- The first push uploads both sessions.
two_uploads : (push (library []) before).1.hub ≡ 2
unfolding push pad_to_bucket marshal_session lookup insert
two_uploads = refl

push_twice_example :
    push (library []) (push (library []) before).1 ≡ (none, (push (library []) before).1)
unfolding push pad_to_bucket contains marshal_session lookup insert
push_twice_example =
    push_twice (library []) (λ b. nonempty) stored before refl (refl, (refl, tt)) refl
  where
    nonempty : ◌≢◌ {A = String} "content" ""
    nonempty = ground (arith, eq_iff "content" "")

abbrev synced : Syncer memory hub disk
synced = record before { pushed = ("a", "content") ∷ ("b", "content") ∷ [] }

abbrev news : List SessionMessage
news = said "hi" ∷ said "no" ∷ []

abbrev remote_session : List SessionMessage → Session
remote_session ms = record (session "a" ms) { updated = 0; cwd = "/other" }

delivered :
    (S : Store) (state : S.State) (ms : List SessionMessage)
    → Delivered (library ms) entry (start {S = S} state) (remote_session ms)
unfolding contains unmarshal_session
delivered S state ms = record {
  fresh = refl;
  blob = 1 ∷ 2 ∷ [];
  got = refl;
  authentic = refl;
  plaintext = 1 ∷ 2 ∷ [];
  decrypted = refl;
  decoded = refl;
}

abbrev stuck : Syncer full hub disk
stuck = start []

apply_block_forgets_example :
    ((apply_block (library news) entry stuck).0 ≡ false)
    × (apply_block (library news) entry (apply_block (library news) entry stuck).1
        ≡ (true, (apply_block (library news) entry stuck).1))
unfolding find
apply_block_forgets_example =
    apply_block_forgets (library news) entry stuck (remote_session news) (delivered full [] news)
      refl refl

abbrev blank : Syncer memory hub disk
blank = start []

apply_block_new_example :
    ((apply_block (library news) entry blank).0 ≡ true)
    × ((y : Session) × (find (apply_block (library news) entry blank).1.store "a" ≡ some y)
        × (y.messages ≡ news))
unfolding find
apply_block_new_example =
    apply_block_new (library news) memory-IsLawful entry blank (remote_session news)
      (delivered memory [] news) tt refl refl refl

apply_block_known_example :
    ((apply_block (library news) entry before).0 ≡ true)
    × ((y : Session) × (find (apply_block (library news) entry before).1.store "a" ≡ some y)
        × ((k : String)
            → has_key marshal y.messages k
              ≡ (has_key marshal (said "hi" ∷ []) k || has_key marshal news k)))
unfolding find has_key contains message_key
apply_block_known_example =
    apply_block_known (library news) memory-IsLawful entry before (remote_session news)
      (session "a" (said "hi" ∷ [])) (delivered memory stored news) tt refl (refl, tt) refl

abbrev repeated : List Session
repeated = session "a" (said "yes" ∷ said "yes" ∷ []) ∷ []

apply_block_loses_example :
    ((apply_block (library (said "no" ∷ [])) entry (start {S = memory} repeated)).0 ≡ true)
    × ((apply_block (library (said "no" ∷ [])) entry (start {S = memory} repeated)).1.store
        ≡ repeated)
    × (has_key marshal (said "yes" ∷ said "yes" ∷ []) "no" ≡ false)
unfolding find message_key
apply_block_loses_example =
    apply_block_loses (library (said "no" ∷ [])) entry (start repeated)
      (remote_session (said "no" ∷ [])) (session "a" (said "yes" ∷ said "yes" ∷ [])) (said "yes")
      (said "no") (delivered memory repeated (said "no" ∷ [])) refl refl refl
      (ground (arith, eq_iff "yes" "no"))

-- The state after the page has been applied, and its cursor written.
abbrev pulled : Syncer memory hub disk
pulled = record blank {
  pushed = ("a", "content") ∷ [];
  have = "h2" ∷ [];
  store = record (remote_session news) { updated = 11 } ∷ [];
  disk = 1 ∷ [];
}

one_round : pull_round (library news) config (some true) (pos 0) blank ≡ goes_on (pos 9) pulled
unfolding pull_round apply_manifest verify_nuke apply_block apply_tombstone find lookup insert
    contains marshal_session unmarshal_session sort_by
one_round = refl

page_next : (m : Manifest) → some page ≡ some m → m.next ≤ℤ pos 9
page_next m e = ground (arith, e)

pull_loop_total_example :
    (r : Option SyncError × Syncer memory hub disk) × (pull_loop
        (library news)
        config
        (some true)
        10
        (pos 0)
        blank
      ≡ some r)
pull_loop_total_example =
    pull_loop_total (library news) config (some true) 9 (λ h c m e. page_next m e) 10 (pos 0) blank
      (omega arith) (omega arith)

page_unverified :
    (m : Manifest) → some page ≡ some m → (m.nuked && verify_nuke (library news) config m) ≡ false
unfolding verify_nuke
page_unverified m e = ground (arith, e, eq_iff "p" "k")

two_rounds : pull_loop (library news) config (some true) 2 (pos 0) blank ≡ some (none, pulled)
unfolding pull_loop pull_round apply_manifest verify_nuke apply_block apply_tombstone find lookup
    insert contains marshal_session unmarshal_session sort_by
two_rounds = refl

pull_loop_guarded_example :
    (pulled.self_destructs ≡ blank.self_destructs) × (none ≢ some namespace_nuked)
pull_loop_guarded_example =
    pull_loop_guarded (library news) config (some true) (λ h c m e. page_unverified m e) 2 (pos 0)
      blank none pulled two_rounds
