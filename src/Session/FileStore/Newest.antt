-- ===== src/Session/FileStore/Newest.antt =====
-- session/store.go: the session that `Latest` returns.
use mathlib.Core.Path.{subst}
use korai_sdk_go.Prelude.{
  some-injective, ℕ, ◌≤◌, String, ◌≡◌, some, List, [], ◌∷◌, All, ◌==◌, eq_iff, arith, Bool-cases,
  inl, inr,
}
use korai_sdk_go.Prelude.Sorting.{sort_by, insert_sorted, All-insert_sorted}
use korai_sdk_go.Session.{Session}
use korai_sdk_go.Session.FileStore.{Codec, Directory, FileLibrary, Saving}
use korai_sdk_go.Session.FileStore.Listing.{
  DirRead, no_directory, unreadable_directory, entries, Catalog, newer, first_in, load_entries,
  listed, list, latest,
}

-- No session stands before one that was updated later.
abbrev pub Descending : List Session → Type 0
Descending [] = Unit
Descending (x ∷ xs) = All (λ y. y.updated ≤ x.updated) xs × Descending xs

All-weaken :
    (m n : ℕ) (xs : List Session)
    → m ≤ n
    → All (λ y. y.updated ≤ m) xs
    → All (λ y. y.updated ≤ n) xs
All-weaken m n [] h all = tt
All-weaken m n (x ∷ xs) h (p, all) = (omega (arith, h, p), All-weaken m n xs h all)

insert_sorted-Descending :
    (x : Session) (ys : List Session) → Descending ys → Descending (insert_sorted newer x ys)
unfolding insert_sorted
insert_sorted-Descending x [] d = (tt, tt)
insert_sorted-Descending x (y ∷ ys) (p, d) = elim (Bool-cases (newer y x)) [
  | inl e ↦
      rw (e, insert_sorted)
        (
          All-insert_sorted newer (λ z. z.updated ≤ y.updated) x ys (ground (arith, e)) p,
          insert_sorted-Descending x ys d,
        )
  | inr e ↦
      let below : y.updated ≤ x.updated = ground (arith, e) in
      rw (e, insert_sorted) ((below, All-weaken y.updated x.updated ys below p), (p, d))
]

sort_by-Descending : (xs : List Session) → Descending (sort_by newer xs)
unfolding sort_by
sort_by-Descending [] = tt
sort_by-Descending (x ∷ xs) = insert_sorted-Descending x (sort_by newer xs) (sort_by-Descending xs)

-- The session is of the directory, and none of the list that is of it was updated later.
abbrev pub Newest : String → Session → List Session → Type 0
Newest cwd x xs = (x.cwd ≡ cwd) × All (λ y. y.cwd ≡ cwd → y.updated ≤ x.updated) xs

All-of_below :
    (cwd : String) (n : ℕ) (xs : List Session)
    → All (λ y. y.updated ≤ n) xs
    → All (λ y. y.cwd ≡ cwd → y.updated ≤ n) xs
All-of_below cwd n [] all = tt
All-of_below cwd n (x ∷ xs) (p, all) = (λ q. p, All-of_below cwd n xs all)

first_in-Newest :
    (cwd : String) (xs : List Session) (x : Session)
    → Descending xs
    → first_in cwd xs ≡ some x
    → Newest cwd x xs
unfolding first_in
first_in-Newest cwd [] x d h = absurd (ground (arith, h))
first_in-Newest cwd (y ∷ ys) x (p, d) h = elim (Bool-cases (y.cwd == cwd)) [
  | inl e ↦
      let same : y ≡ x = some-injective (rw (e, first_in) at h) in
      subst (λ z. Newest cwd z (y ∷ ys)) same
        ((eq_iff y.cwd cwd).0 e, (λ q. omega arith, All-of_below cwd y.updated ys p))
  | inr e ↦
      let (q, all) = first_in-Newest cwd ys x d (rw (e, first_in) at h) in
      (q, (λ r. absurd (ground (arith, e, r, eq_iff y.cwd cwd)), all))
]

module _ (L : FileLibrary) (codec : Codec) (F : Directory) (C : Catalog F) where
  list-Descending :
      (s : Saving F) (r : DirRead) (xs : List Session)
      → listed L codec F C s r ≡ some xs
      → Descending xs
  unfolding listed
  list-Descending s no_directory xs h = subst Descending (some-injective h) tt
  list-Descending s unreadable_directory xs h = absurd (ground (arith, h))
  list-Descending s (entries es) xs h =
      subst Descending (some-injective h) (sort_by-Descending (load_entries L codec F C s es))

  -- The session that is the latest of a working directory is of that directory, and no listed
  -- session of it was updated later.
  pub latest-Newest :
      (s : Saving F) (cwd : String) (xs : List Session) (x : Session)
      → list L codec F C s ≡ some xs
      → latest L codec F C s cwd ≡ some (some x)
      → Newest cwd x xs
  unfolding latest list
  latest-Newest s cwd xs x l h =
      first_in-Newest cwd xs x (list-Descending s (C.read_dir s.dir) xs l)
        (some-injective (rw (l, latest) at h))
