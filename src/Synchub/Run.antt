-- ===== src/Synchub/Run.antt =====
-- sync.go: the background loop. A tick says whether the context is alive when its sync returns; the
-- ticks after the initial sync and the end of the context are a list of events.
pub mod Stopped
use korai_sdk_go.Prelude.{
  ℕ, Bool, true, false, Option, none, some, List, [], ◌∷◌, ◌&&◌, ◌||◌, if◌then◌else◌,
}
use korai_sdk_go.Synchub.{
  Store, Hub, Disk, Library, Config, SyncError, list_failed, manifest_failed, cursor_failed,
  self_destruct_failed, namespace_nuked, push_failed, pull_failed, Syncer,
}
use korai_sdk_go.Synchub.Pull.{sync}

pub data RunEvent : Type 0 where
  tick : Bool → RunEvent
  context_done : RunEvent

-- `errors.Is(err, ErrNamespaceNuked)`
unfoldable pub is_nuked : Option SyncError → Bool
is_nuked none = false
is_nuked (some namespace_nuked) = true
is_nuked (some _) = false

-- The goroutine runs, or it has returned.
pub data RunState (S : Store) (H : Hub) (D : Disk) : Type 0 where
  running : Syncer S H D → RunState S H D
  stopped : Syncer S H D → RunState S H D

module _ {S : Store} {H : Hub} {D : Disk} (L : Library) (cfg : Config) (on_nuke : Option Bool) where
  -- After a sync, whose errors are joined.
  unfoldable pub after_sync :
      Bool → (Option SyncError × Option SyncError) × Syncer S H D → RunState S H D
  unfolding is_nuked
  after_sync alive ((push_err, pull_err), s) =
      if (is_nuked push_err || is_nuked pull_err) && alive then stopped s else running s

  -- `none` where a sync has run out of fuel.
  unfoldable pub run_event : ℕ → RunEvent → RunState S H D → Option (RunState S H D)
  unfolding after_sync
  run_event fuel e (stopped s) = some (stopped s)
  run_event fuel context_done (running s) = some (stopped s)
  run_event fuel (tick alive) (running s) = elim (sync L cfg on_nuke fuel s) [
    | none ↦ none
    | some r ↦ some (after_sync alive r)
  ]

  unfoldable pub run_events : ℕ → List RunEvent → RunState S H D → Option (RunState S H D)
  unfolding run_event
  run_events fuel [] r = some r
  run_events fuel (e ∷ es) r = elim (run_event fuel e r) [
    | none ↦ none
    | some r' ↦ run_events fuel es r'
  ]

  -- With whether the context is alive when the initial sync returns.
  unfoldable pub run : ℕ → Bool → List RunEvent → Syncer S H D → Option (RunState S H D)
  unfolding run_events
  run fuel alive es s = run_events fuel (tick alive ∷ es) (running s)
