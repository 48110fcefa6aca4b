-- ===== src/Retry.antt =====
-- retry.go: the transport that retries. A duration is a number of nanoseconds in an int64, kept
-- here as its value modulo 2 ^ 64; a value from 2 ^ 63 up stands for a negative one.
pub mod Bounds
pub mod Attempts
use korai_sdk_go.Prelude.{
  ℕ, zero, suc, ◌+◌, ◌-◌, ◌*◌, ◌/◌, ◌%◌, ◌^◌, String, Bool, true, false, Option, none, some, List,
  [], ◌∷◌, not, ◌||◌, ltb, leb, nat_eq, ◌==◌, if◌then◌else◌,
}
use korai_sdk_go.Prelude.Int.{ℤ, pos, negsuc}

-- HTTP 408, 409, 429 and 5xx.
unfoldable pub is_retryable_status : ℕ → Bool
is_retryable_status status =
    nat_eq status 408 || nat_eq status 409 || nat_eq status 429 || leb 500 status

abbrev pub second : ℕ
second = 1000000000

-- The value of an int64 product, as a signed number.
unfoldable pub to_int64 : ℕ → ℤ
to_int64 n = let r = n % 2 ^ 64 in if ltb r (2 ^ 63) then pos r else negsuc (2 ^ 64 - r - 1)

abbrev pub capped : ℕ → ℤ → ℤ
capped most (pos n) = if ltb most n then pos most else pos n
capped most (negsuc n) = negsuc n

-- The delay that a Retry-After header of `secs` seconds asks for, at most 60 seconds.
unfoldable pub retry_after_delay : ℕ → ℤ
unfolding to_int64
retry_after_delay secs = capped (60 * second) (to_int64 (secs * second))

-- `500 * time.Millisecond * (1 << attempt)`, capped at 8 seconds.
unfoldable pub backoff : ℕ → ℤ
unfolding to_int64
backoff attempt = capped (8 * second) (to_int64 (500000000 * (2 ^ attempt % 2 ^ 64)))

-- `exp/2 + rand.Int63n(exp/2 + 1)`, which panics (`none`) when its argument is not positive.
-- `random n` is the number drawn below `n`. Go's division truncates towards 0.
abbrev pub jittered : (ℕ → ℕ) → ℤ → Option ℤ
jittered random (pos e) = some (pos (e / 2 + random (e / 2 + 1)))
jittered random (negsuc zero) = some (pos (random 1))
jittered random (negsuc (suc n)) = none

-- A response: its status, and the value of its Retry-After header, "" if there is none.
pub record Response : Type 0 where
  pub status_code : ℕ
  pub retry_after : String

-- `strconv.Atoi`, `none` for an error.
module _ (atoi : String → Option ℤ) (random : ℕ → ℕ) where
  asked_delay : Option ℤ → ℕ → Option ℤ
  asked_delay none attempt = jittered random (backoff attempt)
  asked_delay (some (negsuc n)) attempt = jittered random (backoff attempt)
  asked_delay (some (pos secs)) attempt = some (retry_after_delay secs)

  unfoldable pub retry_delay : ℕ → Option Response → Option ℤ
  unfolding asked_delay backoff retry_after_delay
  retry_delay attempt none = jittered random (backoff attempt)
  retry_delay attempt (some resp) =
      if not (resp.retry_after == "")
      then asked_delay (atoi resp.retry_after) attempt
      else jittered random (backoff attempt)
