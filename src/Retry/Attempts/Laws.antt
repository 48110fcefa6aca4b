-- ===== src/Retry/Attempts/Laws.antt =====
-- retry.go: how often `RoundTrip` asks the base transport, and what it returns.
use mathlib.Core.Path.{subst}
use korai_sdk_go.Prelude.{
  ℕ, zero, suc, ◌+◌, ◌≤◌, ◌<◌, String, ◌≡◌, refl, ap, sym, ◌∙◌, Bool, true, false, Option, none,
  some, not, ◌||◌, ltb, leb, ◌⊎◌, inl, inr, arith, Bool-cases,
}
use korai_sdk_go.Prelude.Int.{ℤ}
use korai_sdk_go.Retry.{is_retryable_status, Response, retry_delay}
use korai_sdk_go.Retry.Attempts.{
  Exchange, Outcome, responded, Pass, finished, again, waited, after_delay, received, pass,
  attempts, round_trip,
}

Pass-cases :
    {X : Exchange} (p : Pass X)
    → ((o : Outcome) × (s : X.State) × (p ≡ finished o s))
      ⊎ ((e : Bool) × (s : X.State) × (p ≡ again e s))
Pass-cases (finished o s) = inl (o, s, refl)
Pass-cases (again e s) = inr (e, s, refl)

-- A count of the calls of the base transport, kept in the state.
pub record Counted (X : Exchange) : Type 0 where
  pub calls : X.State → ℕ
  pub calls-reset_body : (s : X.State) → calls (X.reset_body s).1 ≡ calls s
  pub calls-base : (s : X.State) → calls (X.base s).1 ≡ calls s + 1
  pub calls-drain : (s : X.State) → calls (X.drain s) ≡ calls s
  pub calls-sleep : (d : ℤ) (s : X.State) → calls (X.sleep d s).1 ≡ calls s

-- A response that no further attempt is made for.
abbrev pub IsFinal : Response → Type 0
IsFinal resp = (resp.status_code < 400) ⊎ (is_retryable_status resp.status_code ≡ false)

module _ (X : Exchange) (C : Counted X) (atoi : String → Option ℤ) (random : ℕ → ℕ)
    (max_retries : ℕ) where
  -- What one pass does: at most one call, a response only when it is final or the attempts are
  -- used up, and no further pass then.
  abbrev OneCall : ℕ → X.State → Pass X → Type 0
  OneCall attempt s (finished o s') =
      (C.calls s' ≤ C.calls s + 1)
      × ((resp : Response)
          → o ≡ responded resp
          → IsFinal resp ⊎ ((max_retries ≤ attempt) × (C.calls s' ≡ C.calls s + 1)))
  OneCall attempt s (again e s') = (C.calls s' ≡ C.calls s + 1) × (attempt < max_retries)

  after_delay-OneCall :
      (delay : Option ℤ) (attempt : ℕ) (last_err : Bool) (s t : X.State)
      → C.calls t ≡ C.calls s + 1
      → attempt < max_retries
      → OneCall attempt s (after_delay X atoi random max_retries delay last_err t)
  unfolding after_delay waited
  after_delay-OneCall none attempt last_err s t c h =
      (omega (arith, c), λ resp q. absurd (ground (arith, q)))
  after_delay-OneCall (some d) attempt last_err s t c h = elim (Bool-cases (X.sleep d t).0) [
    | inl e ↦ rw e (C.calls-sleep d t ∙ c, h)
    | inr e ↦ rw e (omega (arith, C.calls-sleep d t, c), λ resp q. absurd (ground (arith, q)))
  ]

  received-OneCall :
      (attempt : ℕ) (last_err : Bool) (r : Option Response) (s t : X.State)
      → C.calls t ≡ C.calls s + 1
      → OneCall attempt s (received X atoi random max_retries attempt last_err r t)
  unfolding received
  received-OneCall attempt last_err none s t c =
      elim (Bool-cases (leb max_retries attempt || X.cancelled t)) [
        | inl e ↦ rw e (omega (arith, c), λ resp q. absurd (ground (arith, q)))
        | inr e ↦ rw e (
            after_delay-OneCall (retry_delay atoi random attempt none) attempt true s t c
              (ground (arith, e)))
      ]
  received-OneCall attempt last_err (some r) s t c =
      elim (Bool-cases (
        ltb r.status_code 400
        || leb max_retries attempt
        || not (is_retryable_status r.status_code))) [
          | inl e ↦ rw e (
            omega (arith, c),
            λ resp q.
                subst (λ x. IsFinal x ⊎ ((max_retries ≤ attempt) × (C.calls t ≡ C.calls s + 1)))
                  (responded-injective r resp q) (ground (arith, e, c)),
          )
          | inr e ↦ rw e (
              after_delay-OneCall (retry_delay atoi random attempt (some r)) attempt last_err s
                (X.drain t) (C.calls-drain t ∙ c) (ground (arith, e)))
        ]
    where
      responded-injective : (x y : Response) → responded x ≡ responded y → x ≡ y
      responded-injective x y q = cc q

  pass-OneCall :
      (attempt : ℕ) (last_err : Bool) (s : X.State)
      → OneCall attempt s (pass X atoi random max_retries attempt last_err s)
  unfolding pass
  pass-OneCall attempt last_err s = elim (Bool-cases (X.reset_body s).0) [
    | inr e ↦ rw e (omega (arith, C.calls-reset_body s), λ resp q. absurd (ground (arith, q)))
    | inl e ↦
        let s₀ = (X.reset_body s).1 in
        rw e (
          received-OneCall attempt last_err (X.base s₀).0 s (X.base s₀).1
            (C.calls-base s₀ ∙ ap (λ n. n + 1) (C.calls-reset_body s)))
  ]

  attempts_lem :
      (fuel attempt : ℕ) (last_err : Bool) (s : X.State)
      → attempt ≤ max_retries
      → max_retries < attempt + fuel
      → (o : Outcome) × (s' : X.State) × (attempts X atoi random max_retries fuel attempt last_err s
          ≡ some (o, s'))
        × (C.calls s' + attempt ≤ C.calls s + max_retries + 1)
        × ((resp : Response)
            → o ≡ responded resp
            → IsFinal resp ⊎ (C.calls s' + attempt ≡ C.calls s + max_retries + 1))
  unfolding attempts
  attempts_lem zero attempt last_err s h k = absurd (omega (arith, h, k))
  attempts_lem (suc fuel) attempt last_err s h k =
      let once = pass-OneCall attempt last_err s in
      elim (Pass-cases (pass X atoi random max_retries attempt last_err s)) [
        | inl (o, s', q) ↦
            let (few, answer) = subst (OneCall attempt s) q once in
            (o, s', rw (q, attempts) refl, omega arith, λ resp r. ground (arith, answer resp r))
        | inr (e, s', q) ↦
            let (one, more) = subst (OneCall attempt s) q once in
            let (o, t, run, few, answer) =
              attempts_lem fuel (attempt + 1) e s' (omega arith) (omega arith) in
            (o, t, rw (q, attempts) run, omega arith, λ resp r. ground (arith, answer resp r))
      ]

  -- `RoundTrip` returns, and it asks the base transport, whose calls the state counts, at most
  -- once more than the number of retries.
  pub round_trip_total :
      (s : X.State)
      → (o : Outcome) × (s' : X.State) × (round_trip X atoi random max_retries s ≡ some (o, s'))
        × (C.calls s' ≤ C.calls s + max_retries + 1)
  unfolding round_trip
  round_trip_total s =
      let (o, s', run, few, answer) =
        attempts_lem (max_retries + 1) 0 false s (omega arith) (omega arith) in
      (o, s', run, omega arith)

  -- A response that `RoundTrip` returns has a status that is below 400 or not retryable, unless all
  -- retries have been used.
  pub round_trip-responded :
      (s s' : X.State) (resp : Response)
      → round_trip X atoi random max_retries s ≡ some (responded resp, s')
      → IsFinal resp ⊎ (C.calls s' ≡ C.calls s + max_retries + 1)
  unfolding round_trip
  round_trip-responded s s' resp h =
      let (o, t, run, few, answer) =
        attempts_lem (max_retries + 1) 0 false s (omega arith) (omega arith) in
      let same : ◌≡◌ {A = Option (Outcome × X.State)} (some (o, t)) (some (responded resp, s')) =
        sym run ∙ h in
      ground (arith, same, answer resp)
