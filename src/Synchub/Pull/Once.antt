-- ===== src/Synchub/Pull/Once.antt =====
-- sync.go: a pull and a self-destruct hook that succeeds.
use mathlib.Core.Path.{subst}
use korai_sdk_go.Prelude.{
  ℕ, zero, suc, ◌+◌, ◌≡◌, ◌≢◌, refl, ap, ◌∙◌, ◌⊎◌, inl, inr, true, Option, none, some, ◌&&◌,
  Bool-cases, Option-cases, arith,
}
use korai_sdk_go.Prelude.Int.{ℤ}
use korai_sdk_go.Synchub.{
  Manifest, Store, Hub, Disk, Library, Config, SyncError, namespace_nuked, Syncer,
}
use korai_sdk_go.Synchub.Nuke.{verify_nuke, handle_nuke}
use korai_sdk_go.Synchub.Pull.{
  manifest_limit, Round, goes_on, process_manifest, load_cursor, pull_round, pull_loop, pull,
}
use korai_sdk_go.Synchub.Pull.Guarded.{state_of, error_of, process_page-Harmless}
use korai_sdk_go.Synchub.Pull.Loop.{Round-cases}

module _ {S : Store} {H : Hub} {D : Disk} (L : Library) (cfg : Config) where
  -- The hook is not run, or it is run once and the namespace is reported as nuked.
  abbrev pub Once : Syncer S H D → Option SyncError → Syncer S H D → Type 0
  Once s e s' =
      ((s'.self_destructs ≡ s.self_destructs) × (e ≢ some namespace_nuked))
      ⊎ ((s'.self_destructs ≡ s.self_destructs + 1) × (e ≡ some namespace_nuked))

  process_manifest-Once :
      (cursor : ℤ) (m : Option Manifest) (s : Syncer S H D)
      → Once s
          (error_of L cfg (some true) (process_manifest L cfg (some true) cursor m s))
          (state_of L cfg (some true) (process_manifest L cfg (some true) cursor m s))
  unfolding process_manifest handle_nuke
  process_manifest-Once cursor none s = inl (refl, λ h. cc)
  process_manifest-Once cursor (some m) s = elim (Bool-cases (m.nuked && verify_nuke L cfg m)) [
    | inl e ↦ rw (e, process_manifest) (inr (refl, refl))
    | inr e ↦
        rw (e, process_manifest)
          (inl (process_page-Harmless L cfg (some true) cursor m m.entries s))
  ]

  pull_round-Once :
      (cursor : ℤ) (s : Syncer S H D)
      → Once s
          (error_of L cfg (some true) (pull_round L cfg (some true) cursor s))
          (state_of L cfg (some true) (pull_round L cfg (some true) cursor s))
  unfolding pull_round
  pull_round-Once cursor s =
      process_manifest-Once cursor (H.manifest s.hub cursor manifest_limit).0
        (record s { hub = (H.manifest s.hub cursor manifest_limit).1 })

  abbrev OnceRound : Syncer S H D → Round S H D → Type 0
  OnceRound s r = Once s (error_of L cfg (some true) r) (state_of L cfg (some true) r)

  -- A round that goes on has not run the hook.
  Once-goes_on :
      (s s₀ s' : Syncer S H D) (c : ℤ) (e : Option SyncError)
      → OnceRound s (goes_on c s₀)
      → Once s₀ e s'
      → Once s e s'
  Once-goes_on s s₀ s' c e (inl (a, b)) (inl (a', b')) = inl (a' ∙ a, b')
  Once-goes_on s s₀ s' c e (inl (a, b)) (inr (a', b')) = inr (a' ∙ ap (λ n. n + 1) a, b')
  Once-goes_on s s₀ s' c e (inr (a, b)) later = absurd (ground (arith, b))

  pull_loop-Once :
      (fuel : ℕ) (cursor : ℤ) (s : Syncer S H D) (e : Option SyncError) (s' : Syncer S H D)
      → pull_loop L cfg (some true) fuel cursor s ≡ some (e, s')
      → Once s e s'
  unfolding pull_loop
  pull_loop-Once zero cursor s e s' h = absurd (ground arith)
  pull_loop-Once (suc fuel) cursor s e s' h =
      elim (Round-cases (pull_round L cfg (some true) cursor s)) [
        | inl (e₀, s₀, q) ↦
            subst (λ (p : Option SyncError × Syncer S H D). Once s p.0 p.1)
              (injective (rw (q, pull_loop) at h))
              (subst (OnceRound s) q (pull_round-Once cursor s))
        | inr (c₀, s₀, q) ↦
            Once-goes_on s s₀ s' c₀ e (subst (OnceRound s) q (pull_round-Once cursor s))
              (pull_loop-Once fuel c₀ s₀ e s' (rw (q, pull_loop) at h))
      ]
    where
      injective : {x y : Option SyncError × Syncer S H D} → some x ≡ some y → x ≡ y
      injective p = cc p

  pub pull-Once :
      (fuel : ℕ) (s : Syncer S H D) (e : Option SyncError) (s' : Syncer S H D)
      → pull L cfg (some true) fuel s ≡ some (e, s')
      → Once s e s'
  unfolding pull
  pull-Once fuel s e s' h = elim (Option-cases (load_cursor L (D.read s.disk))) [
    | inl q ↦
        subst (λ (p : Option SyncError × Syncer S H D). Once s p.0 p.1)
          (injective (rw (q, pull) at h)) (inl (refl, λ r. ground (arith, r)))
    | inr (c, q) ↦ pull_loop-Once fuel c s e s' (rw (q, pull) at h)
  ]
    where
      injective : {x y : Option SyncError × Syncer S H D} → some x ≡ some y → x ≡ y
      injective p = cc p
