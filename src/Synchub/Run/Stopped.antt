-- ===== src/Synchub/Run/Stopped.antt =====
-- sync.go: the background loop and a self-destruct hook that succeeds.
use mathlib.Core.Path.{subst}
use korai_sdk_go.Prelude.{
  some-injective, ℕ, ◌+◌, ◌≡◌, ◌≢◌, refl, ap, sym, ◌∙◌, ◌⊎◌, inl, inr, true, false, Option, none,
  some, List, [], ◌∷◌, Option-cases, arith,
}
use korai_sdk_go.Synchub.{
  Store, Hub, Disk, Library, Config, SyncError, list_failed, manifest_failed, cursor_failed,
  self_destruct_failed, namespace_nuked, push_failed, pull_failed, Syncer,
}
use korai_sdk_go.Synchub.Push.{push}
use korai_sdk_go.Synchub.Push.Harmless.{push-harmless}
use korai_sdk_go.Synchub.Pull.{pull, sync}
use korai_sdk_go.Synchub.Pull.Once.{Once, pull-Once}
use korai_sdk_go.Synchub.Run.{
  RunEvent, tick, context_done, is_nuked, RunState, running, stopped, after_sync, run_event,
  run_events, run,
}

is_nuked-true : (e : Option SyncError) → e ≢ some namespace_nuked → is_nuked e ≡ false
unfolding is_nuked
is_nuked-true none h = refl
is_nuked-true (some namespace_nuked) h = absurd (h refl)
is_nuked-true (some list_failed) h = refl
is_nuked-true (some manifest_failed) h = refl
is_nuked-true (some cursor_failed) h = refl
is_nuked-true (some self_destruct_failed) h = refl
is_nuked-true (some (push_failed n)) h = refl
is_nuked-true (some (pull_failed n)) h = refl

-- Every tick finds the context alive.
abbrev pub Alive : List RunEvent → Type 0
Alive [] = Unit
Alive (tick alive ∷ es) = (alive ≡ true) × Alive es
Alive (context_done ∷ es) = Alive es

Alive-cons : (e : RunEvent) (es : List RunEvent) → Alive (e ∷ es) → Alive (e ∷ []) × Alive es
Alive-cons (tick alive) es (a, rest) = ((a, tt), rest)
Alive-cons context_done es rest = (tt, rest)

module _ {S : Store} {H : Hub} {D : Disk} (L : Library) (cfg : Config) where
  -- The hook has not run since `n`, or the loop has stopped and it has run once.
  abbrev pub AtMostOnce : ℕ → RunState S H D → Type 0
  AtMostOnce n (running s) = s.self_destructs ≡ n
  AtMostOnce n (stopped s) = (s.self_destructs ≡ n) ⊎ (s.self_destructs ≡ n + 1)

  after_sync-AtMostOnce :
      (s s' : Syncer S H D) (push_err pull_err : Option SyncError)
      → push_err ≢ some namespace_nuked
      → Once L cfg s pull_err s'
      → AtMostOnce s.self_destructs (after_sync L cfg (some true) true ((push_err, pull_err), s'))
  unfolding after_sync
  after_sync-AtMostOnce s s' push_err pull_err a (inl (n, b)) =
      rw (is_nuked-true push_err a, is_nuked-true pull_err b, after_sync) n
  after_sync-AtMostOnce s s' push_err pull_err a (inr (n, b)) =
      rw (is_nuked-true push_err a, b, after_sync) (inr n)

  sync-AtMostOnce :
      (fuel : ℕ) (s : Syncer S H D) (r : (Option SyncError × Option SyncError) × Syncer S H D)
      → sync L cfg (some true) fuel s ≡ some r
      → AtMostOnce s.self_destructs (after_sync L cfg (some true) true r)
  unfolding sync
  sync-AtMostOnce fuel s r h = elim (Option-cases (pull L cfg (some true) fuel (push L s).1)) [
    | inl q ↦ absurd (ground (arith, rw (q, sync) at h))
    | inr ((e, s'), q) ↦
        let (same, harmless) = push-harmless L s in
        subst (λ r. AtMostOnce s.self_destructs (after_sync L cfg (some true) true r))
          (some-injective (rw (q, sync) at h))
          (subst (λ n. AtMostOnce n (after_sync L cfg (some true) true (((push L s).0, e), s')))
            same
            (after_sync-AtMostOnce (push L s).1 s' (push L s).0 e harmless
              (pull-Once L cfg fuel (push L s).1 e s' q)))
  ]

  run_event-AtMostOnce :
      (n fuel : ℕ) (e : RunEvent) (r r' : RunState S H D)
      → Alive (e ∷ [])
      → AtMostOnce n r
      → run_event L cfg (some true) fuel e r ≡ some r'
      → AtMostOnce n r'
  unfolding run_event
  run_event-AtMostOnce n fuel e (stopped s) r' a k h = subst (AtMostOnce n) (some-injective h) k
  run_event-AtMostOnce n fuel context_done (running s) r' a k h =
      subst (AtMostOnce n) (some-injective h) (inl k)
  run_event-AtMostOnce n fuel (tick alive) (running s) r' a k h =
      elim (Option-cases (sync L cfg (some true) fuel s)) [
        | inl q ↦ absurd (ground (arith, rw (q, run_event) at h))
        | inr (x, q) ↦
            subst (AtMostOnce n)
              (ap (λ b. after_sync L cfg (some true) b x) (sym a.0)
                ∙ some-injective (rw (q, run_event) at h))
              (subst (λ m. AtMostOnce m (after_sync L cfg (some true) true x)) k
                (sync-AtMostOnce fuel s x q))
      ]

  run_events-AtMostOnce :
      (n fuel : ℕ) (es : List RunEvent) (r r' : RunState S H D)
      → Alive es
      → AtMostOnce n r
      → run_events L cfg (some true) fuel es r ≡ some r'
      → AtMostOnce n r'
  unfolding run_events
  run_events-AtMostOnce n fuel [] r r' a k h = subst (AtMostOnce n) (some-injective h) k
  run_events-AtMostOnce n fuel (e ∷ es) r r' a k h =
      elim (Option-cases (run_event L cfg (some true) fuel e r)) [
        | inl q ↦ absurd (ground (arith, rw (q, run_events) at h))
        | inr (r₁, q) ↦
            let (now, rest) = Alive-cons e es a in
            run_events-AtMostOnce n fuel es r₁ r' rest (run_event-AtMostOnce n fuel e r r₁ now k q)
              (rw (q, run_events) at h)
      ]

  -- If every sync finds the context alive when it returns, then the background loop runs a
  -- self-destruct hook that succeeds at most once, and when it has run the loop has stopped.
  pub run-AtMostOnce :
      (fuel : ℕ) (es : List RunEvent) (s : Syncer S H D) (r : RunState S H D)
      → Alive es
      → run L cfg (some true) fuel true es s ≡ some r
      → AtMostOnce s.self_destructs r
  unfolding run
  run-AtMostOnce fuel es s r a h =
      run_events-AtMostOnce s.self_destructs fuel (tick true ∷ es) (running s) r (refl, a) refl h
