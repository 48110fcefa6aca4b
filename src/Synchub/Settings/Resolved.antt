-- ===== src/Synchub/Settings/Resolved.antt =====
-- session/synchub/config.go: what `Resolve` promises of an enabled configuration.
use mathlib.Core.Path.{subst}
use korai_sdk_go.Prelude.{
  ℕ, ◌*◌, ◌<◌, ◌^◌, ◌≡◌, ◌≢◌, refl, ap, ◌↔◌, ◌⊎◌, inl, inr, Bool, true, false, Option, none, some,
  [], ◌∷◌, length, arith, Option-cases, Bool-cases, if◌then◌else◌,
}
use korai_sdk_go.Prelude.Int.{ℤ, pos, ◌≤ℤ◌, ltb_ℤ}
use korai_sdk_go.Retry.{second}
use korai_sdk_go.Retry.Bounds.{to_int64-small}
use korai_sdk_go.Session.FileStore.{Bytes}
use korai_sdk_go.Session.Encrypting.{
  KeyFile, KeyResult, ok, failed, content_key_len, load_content_key,
}
use korai_sdk_go.Session.Encrypting.Keys.{load_content_key-length}
use korai_sdk_go.Stream.{Text, is_blank, trim_space}
use korai_sdk_go.Synchub.Settings.{
  ResolvedConfig, FileSettings, Environment, ConfigLibrary, disabled, enabled_with, min_interval,
  trim_slashes, first_non_empty, lookup_bool, seconds, signal, parse_interval, chosen_interval,
  complete, resolve,
}

-- The text does not end with a slash.
abbrev pub NoSlash : Text → Type 0
NoSlash t = trim_slashes t ≡ t

trim_slashes-twice : (t : Text) → NoSlash (trim_slashes t)
unfolding trim_slashes
trim_slashes-twice [] = refl
trim_slashes-twice (c ∷ cs) = ground (arith, trim_slashes-twice cs)

module _ (L : ConfigLibrary) where
  pub record IsComplete (c : ResolvedConfig) : Type 0 where
    pub interval : min_interval ≤ℤ c.interval
    pub key : length c.key ≡ content_key_len
    pub sync_id : c.sync_id ≡ L.derive_sync_id c.key
    pub url : NoSlash c.url

  complete-IsComplete :
      (home url : Text) (interval : ℤ) (k : KeyResult (Option Bytes)) (c : ResolvedConfig)
      → ((key : Bytes) → k ≡ ok (some key) → length key ≡ content_key_len)
      → complete L home url interval k ≡ enabled_with c
      → IsComplete c
  unfolding complete
  complete-IsComplete home url interval (failed e) c n h = absurd (ground (arith, h))
  complete-IsComplete home url interval (ok none) c n h = absurd (ground (arith, h))
  complete-IsComplete home url interval (ok (some key)) c n h = elim (Bool-cases (is_blank url)) [
    | inl e ↦ absurd (ground (arith, e, h))
    | inr e ↦ subst IsComplete (injective (rw (e, complete) at h)) (record {
      interval = at_least (ltb_ℤ interval min_interval) refl;
      key = n key refl;
      sync_id = refl;
      url = trim_slashes-twice url;
    })
  ]
    where
      injective : {x y : ResolvedConfig} → enabled_with x ≡ enabled_with y → x ≡ y
      injective p = cc p

      at_least :
          (b : Bool)
          → ltb_ℤ interval min_interval ≡ b
          → min_interval ≤ℤ (if b then min_interval else interval)
      at_least true e = omega arith
      at_least false e = ground (arith, e)

  -- A configuration that is enabled polls every five seconds at most, has a key of 32 bytes and
  -- the sync id that is derived from it, and its URL does not end with a slash.
  pub resolve-IsComplete :
      (home : Text) (f : KeyFile) (env : Environment) (fs : FileSettings) (c : ResolvedConfig)
      → resolve L home f env fs ≡ enabled_with c
      → IsComplete c
  unfolding resolve
  resolve-IsComplete home f env fs c h = elim (Bool-cases (signal env fs)) [
    | inr e ↦ absurd (ground (arith, e, h))
    | inl e ↦
        let raw = first_non_empty (trim_space env.interval) fs.interval in
        elim (Option-cases (chosen_interval L raw)) [
          | inl g ↦ absurd (ground (arith, e, g, h))
          | inr (interval, g) ↦
              complete-IsComplete home (first_non_empty (trim_space env.url) fs.url) interval
                (load_content_key L.decoders env.key f) c
                (load_content_key-length L.decoders env.key f) (rw (e, g, resolve) at h)
        ]
  ]

  complete-ne-disabled :
      (home url : Text) (interval : ℤ) (k : KeyResult (Option Bytes))
      → complete L home url interval k ≢ disabled
  unfolding complete
  complete-ne-disabled home url interval (failed e) h = ground (arith, h)
  complete-ne-disabled home url interval (ok none) h = ground (arith, h)
  complete-ne-disabled home url interval (ok (some key)) h = ground (arith, h)

  resolve-disabled :
      (home : Text) (f : KeyFile) (env : Environment) (fs : FileSettings)
      → resolve L home f env fs ≡ disabled
      → signal env fs ≡ false
  unfolding resolve
  resolve-disabled home f env fs h = elim (Bool-cases (signal env fs)) [
    | inr e ↦ e
    | inl e ↦
        let raw = first_non_empty (trim_space env.interval) fs.interval in
        elim (Option-cases (chosen_interval L raw)) [
          | inl g ↦ absurd (ground (arith, e, g, h))
          | inr (interval, g) ↦
              absurd (complete-ne-disabled home _ interval _ (rw (e, g, resolve) at h))
        ]
  ]

  -- A sync is off, without an error, exactly if the environment says so, or says nothing that can
  -- be read as a truth value and the settings file does not enable it.
  pub resolve_disabled_iff :
      (home : Text) (f : KeyFile) (env : Environment) (fs : FileSettings)
      → (resolve L home f env fs ≡ disabled) ↔ (
          (lookup_bool env.enabled ≡ some false)
          ⊎ ((lookup_bool env.enabled ≡ none) × (fs.enabled ≡ false)))
  unfolding resolve signal
  resolve_disabled_iff home f env fs = (
    λ h. let off = resolve-disabled home f env fs h in ground (arith, off),
    λ x. ground (arith, x),
  )

  -- A bare number of seconds is taken as it is, as long as it is not under the least interval and
  -- its nanoseconds fit into an int64.
  pub chosen_interval-seconds :
      (s : Text) (n : ℕ)
      → s ≢ []
      → L.parse_duration s ≡ none
      → L.atoi s ≡ some (pos n)
      → n * second < 2 ^ 63
      → chosen_interval L s ≡ some (pos (n * second))
  unfolding chosen_interval parse_interval seconds
  chosen_interval-seconds [] n h p a small = absurd (h refl)
  chosen_interval-seconds (c ∷ cs) n h p a small =
      rw (p, a, parse_interval) (ap some (to_int64-small (n * second) small))
