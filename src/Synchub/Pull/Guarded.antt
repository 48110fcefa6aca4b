-- ===== src/Synchub/Pull/Guarded.antt =====
-- sync.go: pulls from a hub whose nuke markers do not verify.
use mathlib.Core.Path.{subst}
use korai_sdk_go.Prelude.{
  ℕ, zero, suc, ◌≡◌, ◌≢◌, refl, ◌∙◌, Bool, false, Option, none, some, List, [], ◌∷◌, ◌&&◌, inl, inr,
  arith,
}
use korai_sdk_go.Prelude.Int.{ℤ}
use korai_sdk_go.Synchub.{
  ManifestEntry, Manifest, Store, Hub, Disk, Library, Config, SyncError, namespace_nuked, Syncer,
}
use korai_sdk_go.Synchub.Nuke.{verify_nuke}
use korai_sdk_go.Synchub.Apply.Kept.{Kept-apply_manifest, apply_manifest-ne}
use korai_sdk_go.Synchub.Pull.{
  manifest_limit, Round, returned, goes_on, save_cursor, after_page, process_page, process_manifest,
  pull_round, pull_loop,
}
use korai_sdk_go.Synchub.Pull.Loop.{Round-cases}

module _ {S : Store} {H : Hub} {D : Disk} (L : Library) (cfg : Config) (on_nuke : Option Bool) where
  abbrev pub state_of : Round S H D → Syncer S H D
  state_of (returned e s) = s
  state_of (goes_on c s) = s

  abbrev pub error_of : Round S H D → Option SyncError
  error_of (returned e s) = e
  error_of (goes_on c s) = none

  -- A round that does not end in a nuke.
  abbrev pub Harmless : Syncer S H D → Round S H D → Type 0
  Harmless s r =
      ((state_of r).self_destructs ≡ s.self_destructs) × (error_of r ≢ some namespace_nuked)

  pub process_page-Harmless :
      (cursor : ℤ) (m : Manifest) (es : List ManifestEntry) (s : Syncer S H D)
      → Harmless s (process_page L cfg on_nuke cursor m es s)
  unfolding process_page after_page save_cursor
  process_page-Harmless cursor m [] s = (refl, λ h. cc)
  process_page-Harmless cursor m (e ∷ es) s =
      ground (arith, Kept-apply_manifest L (e ∷ es) s, apply_manifest-ne L (e ∷ es) s)

  pull_round-Harmless :
      (cursor : ℤ) (s : Syncer S H D)
      → ((m : Manifest)
          → (H.manifest s.hub cursor manifest_limit).0 ≡ some m
          → (m.nuked && verify_nuke L cfg m) ≡ false)
      → Harmless s (pull_round L cfg on_nuke cursor s)
  unfolding pull_round
  pull_round-Harmless cursor s unverified = go (H.manifest s.hub cursor manifest_limit).0 refl
    where
      t : Syncer S H D
      t = record s { hub = (H.manifest s.hub cursor manifest_limit).1 }

      go :
          (m : Option Manifest)
          → (H.manifest s.hub cursor manifest_limit).0 ≡ m
          → Harmless s (process_manifest L cfg on_nuke cursor m t)
      go none e = (refl, λ h. cc)
      go (some m) e = ground (arith, unverified m e, process_page-Harmless cursor m m.entries t)

  -- If the hub serves no nuke marker that verifies, whatever it serves and on any fuel, a pull does
  -- not run the self-destruct hook and does not report the namespace as nuked.
  pub pull_loop_guarded :
      ((h : H.State) (c : ℤ) (m : Manifest)
        → (H.manifest h c manifest_limit).0 ≡ some m
        → (m.nuked && verify_nuke L cfg m) ≡ false)
      → (fuel : ℕ) (cursor : ℤ) (s : Syncer S H D) (e : Option SyncError) (s' : Syncer S H D)
      → pull_loop L cfg on_nuke fuel cursor s ≡ some (e, s')
      → (s'.self_destructs ≡ s.self_destructs) × (e ≢ some namespace_nuked)
  unfolding pull_loop
  pull_loop_guarded unverified zero cursor s e s' h = absurd (ground arith)
  pull_loop_guarded unverified (suc fuel) cursor s e s' h =
      let harmless = pull_round-Harmless cursor s (unverified s.hub cursor) in
      elim (Round-cases (pull_round L cfg on_nuke cursor s)) [
        | inl (e₀, s₀, q) ↦
            let (a, b) = subst (Harmless s) q harmless in ground (arith, rw (q, pull_loop) at h)
        | inr (c₀, s₀, q) ↦
            let (a, b) = subst (Harmless s) q harmless in
            let (a', b') = pull_loop_guarded unverified fuel c₀ s₀ e s' (rw (q, pull_loop) at h) in
            (a' ∙ a, b')
      ]
