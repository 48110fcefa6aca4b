-- ===== src/Retry/Bounds.antt =====
-- retry.go: the range of the delays.
use korai_sdk_go.Prelude.{
  ℕ, zero, suc, ◌+◌, ◌*◌, ◌/◌, ◌≤◌, ◌<◌, String, ◌≡◌, refl, ap, ◌∙◌, Bool, true, false, ◌&&◌, ◌⊎◌,
  Option, none, some, ltb, leb, arith, ◌==◌, Bool-cases, inl, inr,
}
use korai_sdk_go.Prelude.Int.{ℤ, pos, negsuc}
use korai_sdk_go.Retry.{
  to_int64, backoff, jittered, retry_delay, retry_after_delay, asked_delay, Response,
}

-- A test that holds for every number below a bound.
all_below : (ℕ → Bool) → ℕ → Bool
all_below t zero = true
all_below t (suc n) = all_below t n && t n

all_below-true : (t : ℕ → Bool) (n i : ℕ) → all_below t n ≡ true → i < n → t i ≡ true
unfolding all_below
all_below-true t zero i h k = absurd (omega (arith, k))
all_below-true t (suc n) i h k = elim (lt-cases i n k) [
  | inl e ↦ ap t e ∙ ground (arith, h)
  | inr l ↦ all_below-true t n i (ground (arith, h)) l
]
  where
    lt-cases : (i n : ℕ) → i < suc n → (i ≡ n) ⊎ (i < n)
    lt-cases i n k = ground (arith, k)

in_range : ℤ → Bool
in_range (pos e) = leb 500000000 e && leb e 8000000000
in_range (negsuc n) = false

in_range-pos :
    (v : ℤ) → in_range v ≡ true → (e : ℕ) × (v ≡ pos e) × (500000000 ≤ e) × (e ≤ 8000000000)
unfolding in_range
in_range-pos (pos e) h = (e, refl, ground (arith, h), ground (arith, h))
in_range-pos (negsuc n) h = absurd (ground (arith, h))

all_in_range : all_below (λ a. in_range (backoff a)) 35 ≡ true
unfolding all_below in_range backoff
all_in_range = refl

-- Up to the 35th attempt the backoff is between half a second and 8 seconds.
backoff-range :
    (attempt : ℕ)
    → attempt < 35
    → (e : ℕ) × (backoff attempt ≡ pos e) × (500000000 ≤ e) × (e ≤ 8000000000)
backoff-range attempt h =
    in_range-pos (backoff attempt)
      (all_below-true (λ a. in_range (backoff a)) 35 attempt all_in_range h)

pub to_int64-small : (n : ℕ) → n < 9223372036854775808 → to_int64 n ≡ pos n
unfolding to_int64
to_int64-small n h = ground arith

retry_after_delay-small :
    (secs : ℕ)
    → secs < 9223372037
    → (d : ℕ) × (retry_after_delay secs ≡ pos d)
      × (d ≤ 60000000000)
      × ((d ≡ secs * 1000000000) ⊎ (d ≡ 60000000000))
unfolding retry_after_delay
retry_after_delay-small secs h =
    let small = to_int64-small (secs * 1000000000) (omega arith) in
    elim (Bool-cases (ltb 60000000000 (secs * 1000000000))) [
      | inl l ↦ (60000000000, rw (small, l) refl, omega arith, inr refl)
      | inr l ↦ (secs * 1000000000, rw (small, l) refl, ground (arith, l), inl refl)
    ]

module _ (atoi : String → Option ℤ) (random : ℕ → ℕ) (below : (n : ℕ) → 0 < n → random n < n) where
  jittered-range :
      (e : ℕ) (d : Option ℤ)
      → 500000000 ≤ e
      → e ≤ 8000000000
      → d ≡ jittered random (pos e)
      → (x : ℕ) × (d ≡ some (pos x)) × (250000000 ≤ x) × (x ≤ 8000000000)
  jittered-range e d low high q =
      let r = below (e / 2 + 1) (omega arith) in
      (e / 2 + random (e / 2 + 1), q, omega arith, omega arith)

  backoff_delay-range :
      (attempt : ℕ)
      → attempt < 35
      → (x : ℕ) × (jittered random (backoff attempt) ≡ some (pos x))
        × (250000000 ≤ x)
        × (x ≤ 8000000000)
  backoff_delay-range attempt h =
      let (e, q, low, high) = backoff-range attempt h in
      jittered-range e (jittered random (backoff attempt)) low high (ap (jittered random) q)

  asked_delay-range :
      (v : Option ℤ) (attempt : ℕ)
      → attempt < 35
      → ((secs : ℕ) → v ≡ some (pos secs) → secs < 9223372037)
      → (x : ℕ) × (asked_delay atoi random v attempt ≡ some (pos x)) × (x ≤ 60000000000)
  unfolding asked_delay
  asked_delay-range none attempt h k =
      let (x, q, low, high) = backoff_delay-range attempt h in (x, q, omega arith)
  asked_delay-range (some (negsuc n)) attempt h k =
      let (x, q, low, high) = backoff_delay-range attempt h in (x, q, omega arith)
  asked_delay-range (some (pos secs)) attempt h k =
      let (d, q, high, exact) = retry_after_delay-small secs (k secs refl) in (d, ap some q, high)

  -- If the random numbers are below their bounds: on the first 35 attempts, and if a Retry-After
  -- header asks for less than 9223372037 seconds, the delay is computed without a panic, it is not
  -- negative, and it is at most a minute.
  pub retry_delay-range :
      (attempt : ℕ) (resp : Option Response)
      → attempt < 35
      → ((r : Response) (secs : ℕ)
          → resp ≡ some r
          → atoi r.retry_after ≡ some (pos secs)
          → secs < 9223372037)
      → (x : ℕ) × (retry_delay atoi random attempt resp ≡ some (pos x)) × (x ≤ 60000000000)
  unfolding retry_delay
  retry_delay-range attempt none h k =
      let (x, q, low, high) = backoff_delay-range attempt h in (x, q, omega arith)
  retry_delay-range attempt (some r) h k = elim (Bool-cases (r.retry_after == "")) [
    | inl e ↦ let (x, q, low, high) = backoff_delay-range attempt h in (x, rw e q, omega arith)
    | inr e ↦
        let (x, q, high) =
          asked_delay-range (atoi r.retry_after) attempt h (λ secs. k r secs refl) in
        (x, rw e q, high)
  ]
