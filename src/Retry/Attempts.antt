-- ===== src/Retry/Attempts.antt =====
-- retry.go: the loop of `RoundTrip`.
pub mod Laws
use korai_sdk_go.Prelude.{
  ℕ, zero, suc, ◌+◌, String, Bool, true, false, Option, none, some, not, ◌||◌, ltb, leb,
  if◌then◌else◌,
}
use korai_sdk_go.Prelude.Int.{ℤ}
use korai_sdk_go.Retry.{is_retryable_status, Response, retry_delay}

-- What the loop calls, over a state: the body is reset (`false` for an error), the base transport
-- answers (`none` for an error), the context is asked for its error, the body of a response is
-- drained and closed, and a delay passes (`false` if the context ends first).
pub record Exchange : Type 1 where
  pub State : Type 0
  pub reset_body : State → Bool × State
  pub base : State → Option Response × State
  pub cancelled : State → Bool
  pub drain : State → State
  pub sleep : ℤ → State → Bool × State

-- What `RoundTrip` returns; `panicked` if computing a delay panics.
pub data Outcome : Type 0 where
  responded : Response → Outcome
  connection_error reset_error context_error panicked : Outcome

-- One pass of the loop ends it, or leaves whether there has been a connection error.
pub data Pass (X : Exchange) : Type 0 where
  finished : Outcome → X.State → Pass X
  again : Bool → X.State → Pass X

module _ (X : Exchange) (atoi : String → Option ℤ) (random : ℕ → ℕ) (max_retries : ℕ) where
  waited : Bool → Bool × X.State → Pass X
  waited last_err (elapsed, s) =
      if elapsed
      then again last_err s
      else finished (if last_err then connection_error else context_error) s

  after_delay : Option ℤ → Bool → X.State → Pass X
  after_delay none last_err s = finished panicked s
  after_delay (some delay) last_err s = waited last_err (X.sleep delay s)

  received : ℕ → Bool → Option Response → X.State → Pass X
  received attempt last_err none s =
      if leb max_retries attempt || X.cancelled s
      then finished connection_error s
      else after_delay (retry_delay atoi random attempt none) true s
  received attempt last_err (some resp) s =
      if ltb resp.status_code 400
        || leb max_retries attempt
        || not (is_retryable_status resp.status_code)
      then finished (responded resp) s
      else after_delay (retry_delay atoi random attempt (some resp)) last_err (X.drain s)

  unfoldable pub pass : ℕ → Bool → X.State → Pass X
  unfolding waited after_delay received
  pass attempt last_err s =
      let (ready, s₀) = X.reset_body s in
      if not ready
      then finished reset_error s₀
      else (let (resp, s₁) = X.base s₀ in received attempt last_err resp s₁)

  -- The loop, on fuel; `none` means that the fuel ran out.
  unfoldable pub attempts : ℕ → ℕ → Bool → X.State → Option (Outcome × X.State)
  unfolding pass
  attempts zero attempt last_err s = none
  attempts (suc fuel) attempt last_err s = elim (pass attempt last_err s) [
    | finished o s' ↦ some (o, s')
    | again last_err' s' ↦ attempts fuel (attempt + 1) last_err' s'
  ]

  -- The first attempt has the number 0, and the last one the number `max_retries`.
  unfoldable pub round_trip : X.State → Option (Outcome × X.State)
  unfolding attempts
  round_trip s = attempts (max_retries + 1) 0 false s
