-- ===== src/Prelude/Sorting.antt =====
-- `sort.Slice` and `sort.Strings` as an insertion sort. Go leaves the order of equal elements open;
-- this sort keeps it, as Go's does on short slices.
use Prim.Native.String.compare
use Prim.Native.String.{String, compare}
use mathlib.Core.Path.{◌≡◌, refl}
use mathlib.Core.Bool.{Bool, true, false}
use mathlib.Core.List.{List, [], ◌∷◌}
use mathlib.Core.Logic.{inl, inr}
use text.Mathlib.Text.{is_lt}
use native.Mathlib.Omega.{arith}
use korai_sdk_go.Prelude.Tests.{Bool-cases, if◌then◌else◌}
use korai_sdk_go.Prelude.Lists.{All}

module _ {ℓ} {A : Type ℓ} (less : A → A → Bool) where
  unfoldable pub insert_sorted : A → List A → List A
  insert_sorted x [] = x ∷ []
  insert_sorted x (y ∷ ys) = if less y x then y ∷ insert_sorted x ys else x ∷ y ∷ ys

  unfoldable pub sort_by : List A → List A
  unfolding insert_sorted
  sort_by [] = []
  sort_by (x ∷ xs) = insert_sorted x (sort_by xs)

  pub All-insert_sorted {κ} :
      (P : A → Type κ) (x : A) (ys : List A) → P x → All P ys → All P (insert_sorted x ys)
  unfolding insert_sorted
  All-insert_sorted P x [] p h = (p, h)
  All-insert_sorted P x (y ∷ ys) p (q, h) = elim (Bool-cases (less y x)) [
    | inl e ↦ rw e (q, All-insert_sorted P x ys p h)
    | inr e ↦ rw e (p, (q, h))
  ]

  pub All-sort_by {κ} : (P : A → Type κ) (xs : List A) → All P xs → All P (sort_by xs)
  unfolding sort_by
  All-sort_by P [] h = h
  All-sort_by P (x ∷ xs) (p, h) = All-insert_sorted P x (sort_by xs) p (All-sort_by P xs h)

  -- No element stands directly before a smaller one.
  abbrev pub IsSorted : List A → Type 0
  IsSorted [] = Unit
  IsSorted (x ∷ []) = Unit
  IsSorted (x ∷ y ∷ ys) = (less y x ≡ false) × IsSorted (y ∷ ys)

  pub sort_by_of_sorted : (xs : List A) → IsSorted xs → sort_by xs ≡ xs
  unfolding sort_by insert_sorted
  sort_by_of_sorted [] h = refl
  sort_by_of_sorted (x ∷ []) h = refl
  sort_by_of_sorted (x ∷ y ∷ ys) (p, h) = rw (sort_by_of_sorted (y ∷ ys) h) (rw p)

unfoldable pub str_less : String → String → Bool
str_less s t = is_lt (compare s t)

pub str_less-asym : (s t : String) → str_less s t ≡ true → str_less t s ≡ false
unfolding str_less
str_less-asym String.[] String.[] h = ground (arith, h, compare.nil-nil)
str_less-asym String.[] (String.◌∷◌ d t) h = ground (arith, compare.cons-nil d t)
str_less-asym (String.◌∷◌ c s) String.[] h = absurd (ground (arith, h, compare.cons-nil c s))
str_less-asym (String.◌∷◌ c s) (String.◌∷◌ d t) h =
    ground (arith, h, compare.cons-cons c d s t, compare.cons-cons d c t s, str_less-asym s t)
