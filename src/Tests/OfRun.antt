-- ===== src/Tests/OfRun.antt =====
-- Examples of the background loop.
use korai_sdk_go.Prelude.{refl, true, some, [], ◌∷◌, ◌==◌, if◌then◌else◌}
use korai_sdk_go.Synchub.{Library, Syncer}
use korai_sdk_go.Synchub.Padding.{spaces}
use korai_sdk_go.Synchub.Nuke.{verify_nuke, handle_nuke}
use korai_sdk_go.Synchub.Push.{push}
use korai_sdk_go.Synchub.Pull.{pull, pull_loop, pull_round, load_cursor, sync}
use korai_sdk_go.Synchub.Run.{tick, run, run_events, run_event, after_sync, is_nuked, stopped}
use korai_sdk_go.Synchub.Run.Stopped.{AtMostOnce, run-AtMostOnce}
use korai_sdk_go.Tests.Fixtures.{memory, hub, disk, library, config, start}

-- The page of the hub is a nuke marker that verifies.
abbrev nuking : Library
nuking = record (library []) {
  derive_write_public_key = λ key. "p";
  base64_decode = λ s. if s == "p" then some (spaces 32) else some (spaces 64);
}

abbrev wiped : Syncer memory hub disk
wiped = record (start {S = memory} []) { self_destructs = 1 }

run-AtMostOnce_example : AtMostOnce nuking config 0 (stopped wiped)
unfolding run run_events run_event after_sync is_nuked
run-AtMostOnce_example =
    run-AtMostOnce nuking config 1 (tick true ∷ []) (start {S = memory} []) (stopped wiped)
      (refl, tt)
      (unfold sync push pull load_cursor pull_loop pull_round verify_nuke handle_nuke in refl)
