-- ===== src/Synchub/Padding.antt =====
-- sync.go: padding a block's plaintext to a ladder of sizes.
use korai_sdk_go.Prelude.{
  ℕ, zero, suc, ◌+◌, ◌-◌, ◌≤◌, ◌<◌, ◌≡◌, refl, sym, ◌⊎◌, List, [], ◌∷◌, ◌++◌, leb, nat_eq, length,
  replicate, append-nil, arith, if◌then◌else◌,
}
use korai_sdk_go.Synchub.{Bytes}

abbrev pub size_buckets : List ℕ
size_buckets = 2048 ∷ 8192 ∷ 32768 ∷ 131072 ∷ 524288 ∷ 2097152 ∷ []

abbrev pub spaces : ℕ → Bytes
spaces n = replicate n b' '

-- The loop over the ladder, which returns in the first bucket that the bytes fit.
pad_to : List ℕ → Bytes → Bytes
pad_to [] b = b
pad_to (bucket ∷ buckets) b =
    let rest = pad_to buckets b in
    if leb (length b) bucket
    then (if nat_eq (length b) bucket then b else b ++ spaces (bucket - length b))
    else rest

unfoldable pub pad_to_bucket : Bytes → Bytes
unfolding pad_to
pad_to_bucket = pad_to size_buckets

-- The bucket that the loop stops in, or `n` itself above the ladder.
bucket_of : List ℕ → ℕ → ℕ
bucket_of [] n = n
bucket_of (bucket ∷ buckets) n =
    let rest = bucket_of buckets n in if leb n bucket then bucket else rest

spaces-zero : (n : ℕ) → n ≡ 0 → spaces n ≡ []
spaces-zero zero e = refl
spaces-zero (suc n) e = absurd (omega arith)

pad_to-eq :
    (buckets : List ℕ) (b : Bytes)
    → pad_to buckets b ≡ b ++ spaces (bucket_of buckets (length b) - length b)
unfolding pad_to bucket_of
pad_to-eq [] b = rw (spaces-zero (length b - length b) (omega arith)) (sym (append-nil b))
pad_to-eq (bucket ∷ buckets) b =
    ground (arith, pad_to-eq buckets b, spaces-zero (bucket - length b), append-nil b)

-- `n` is one of the six sizes.
abbrev pub IsBucket : ℕ → Type 0
IsBucket n = (n ≡ 2048) ⊎ (n ≡ 8192) ⊎ (n ≡ 32768) ⊎ (n ≡ 131072) ⊎ (n ≡ 524288) ⊎ (n ≡ 2097152)

bucket_of-IsBucket : (n : ℕ) → n ≤ 2097152 → IsBucket (bucket_of size_buckets n)
unfolding bucket_of
bucket_of-IsBucket n h = ground arith

bucket_of-le : (n c : ℕ) → IsBucket c → n ≤ c → bucket_of size_buckets n ≤ c
unfolding bucket_of
bucket_of-le n c b h = ground arith

le-bucket_of : (n : ℕ) → n ≤ bucket_of size_buckets n
unfolding bucket_of
le-bucket_of n = ground arith

-- Bytes up to 2 MiB are followed by spaces up to the least of the six sizes that holds them.
pub pad_to_bucket_fits :
    (b : Bytes)
    → length b ≤ 2097152
    → (k : ℕ) × (pad_to_bucket b ≡ b ++ spaces k)
      × IsBucket (length b + k)
      × ((c : ℕ) → IsBucket c → length b ≤ c → length b + k ≤ c)
unfolding pad_to_bucket
pad_to_bucket_fits b h =
    let n = length b in
    let m = bucket_of size_buckets n in
    let e : n + (m - n) ≡ m = omega (arith, le-bucket_of n) in
    (
      m - n,
      pad_to-eq size_buckets b,
      rw e (bucket_of-IsBucket n h),
      λ c k l. rw e (bucket_of-le n c k l),
    )

-- Bytes above 2 MiB are left as they are.
pub pad_to_bucket_large : (b : Bytes) → 2097152 < length b → pad_to_bucket b ≡ b
unfolding pad_to_bucket pad_to
pad_to_bucket_large b h = ground arith
