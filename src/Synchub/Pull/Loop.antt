-- ===== src/Synchub/Pull/Loop.antt =====
-- sync.go: the rounds of a pull, and its loop.
use mathlib.Core.Path.{subst}
use korai_sdk_go.Prelude.{
  ℕ, zero, suc, ◌+◌, ◌<◌, ◌≡◌, refl, Bool, true, Option, none, some, ◌⊎◌, inl, inr, arith,
  Option-cases,
}
use korai_sdk_go.Prelude.Int.{ℤ, pos, pos_part, neg_part, leb_ℤ-false, ◌≤ℤ◌, ◌<ℤ◌}
use korai_sdk_go.Synchub.{Manifest, Store, Hub, Disk, Library, Config, SyncError, Syncer}
use korai_sdk_go.Synchub.Apply.{apply_manifest}
use korai_sdk_go.Synchub.Pull.{
  manifest_limit, Round, returned, goes_on, save_cursor, after_page, process_page, pull_round,
  pull_loop,
}

pub Round-cases :
    {S : Store} {H : Hub} {D : Disk} (r : Round S H D)
    → ((e : Option SyncError) × (s : Syncer S H D) × (r ≡ returned e s))
      ⊎ ((c : ℤ) × (s : Syncer S H D) × (r ≡ goes_on c s))
Round-cases (returned e s) = inl (e, s, refl)
Round-cases (goes_on c s) = inr (c, s, refl)

module _ {S : Store} {H : Hub} {D : Disk} (L : Library) (cfg : Config) (on_nuke : Option Bool) where
  -- What holds when a page has been processed and its cursor saved.
  pub record Advanced (cursor : ℤ) (m : Manifest) (s : Syncer S H D) (cursor' : ℤ)
      (s' : Syncer S H D) : Type 0 where
    pub forwards : cursor <ℤ cursor'
    pub next : m.next ≡ cursor'
    pub applied : (apply_manifest L m.entries s).0 ≡ none
    pub written :
        D.write (apply_manifest L m.entries s).1.disk (L.format_int cursor') ≡ (true, s'.disk)

  process_page-goes_on :
      (cursor : ℤ) (m : Manifest) (s : Syncer S H D) (cursor' : ℤ) (s' : Syncer S H D)
      → process_page L cfg on_nuke cursor m m.entries s ≡ goes_on cursor' s'
      → Advanced cursor m s cursor' s'
  unfolding process_page after_page save_cursor
  process_page-goes_on cursor m s cursor' s' h =
      let reached : m.next ≡ cursor' = ground arith in
      record {
        forwards = subst (λ n. cursor <ℤ n) (reached) (leb_ℤ-false m.next cursor (ground arith));
        next = reached;
        applied = ground arith;
        written = ground arith;
      }

  -- A round goes on only after it has applied the whole page without a failure and has saved the
  -- cursor of the manifest, which is beyond the last one.
  pub pull_round-goes_on :
      (cursor : ℤ) (s : Syncer S H D) (cursor' : ℤ) (s' : Syncer S H D)
      → pull_round L cfg on_nuke cursor s ≡ goes_on cursor' s'
      → (m : Manifest) × ((H.manifest s.hub cursor manifest_limit).0 ≡ some m)
        × Advanced cursor m
            (record s { hub = (H.manifest s.hub cursor manifest_limit).1 })
            cursor'
            s'
  unfolding pull_round
  pull_round-goes_on cursor s cursor' s' h =
      let served = H.manifest s.hub cursor manifest_limit in
      elim (Option-cases served.0) [
        | inl e ↦ absurd (ground (arith, e))
        | inr (m, e) ↦ (m, e, process_page-goes_on cursor m _ cursor' s' (ground (arith, e)))
      ]

  -- If no manifest has a cursor above `bound`, the loop returns on any fuel above the distance from
  -- the cursor to it.
  pub pull_loop_total :
      (bound : ℕ)
      → ((h : H.State) (c : ℤ) (m : Manifest)
          → (H.manifest h c manifest_limit).0 ≡ some m
          → m.next ≤ℤ pos bound)
      → (fuel : ℕ) (cursor : ℤ) (s : Syncer S H D) → 0 < fuel
      → bound + neg_part cursor < pos_part cursor + fuel
      → (r : Option SyncError × Syncer S H D) × (pull_loop L cfg on_nuke fuel cursor s ≡ some r)
  unfolding pull_loop
  pull_loop_total bound bounded zero cursor s h k = elim h [ ]
  pull_loop_total bound bounded (suc fuel) cursor s h k =
      elim (Round-cases (pull_round L cfg on_nuke cursor s)) [
        | inl (e, s', q) ↦ ((e, s'), rw (q, pull_loop) refl)
        | inr (cursor', s', q) ↦
            let (m, served, adv) = pull_round-goes_on cursor s cursor' s' q in
            let low : cursor' ≤ℤ pos bound =
              subst (λ n. n ≤ℤ pos bound) adv.next (bounded _ _ m served) in
            let far : cursor <ℤ cursor' = adv.forwards in
            let (r, e) =
              pull_loop_total bound bounded fuel cursor' s' (omega arith) (omega arith) in
            (r, rw (q, pull_loop) e)
      ]
