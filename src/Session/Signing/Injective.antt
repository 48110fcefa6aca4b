-- ===== src/Session/Signing/Injective.antt =====
-- codec_encrypt.go: the lines that a signed payload is made of.
use text.Mathlib.TextEquality.{Char-path}
use korai_sdk_go.Prelude.{
  ℕ, String, ◌≡◌, ◌≢◌, refl, ap, sym, ◌∙◌, List, [], ◌∷◌, ◌++◌, map, nat_eq, All, arith,
  if◌then◌else◌,
}
use korai_sdk_go.Session.Signing.{codes, join_lines, sync_sig_domain, sync_canonical_payload}

abbrev pub IsLine : List ℕ → Type 0
IsLine = All (λ c. c ≢ 0x0a)

push_char : ℕ → List (List ℕ) → List (List ℕ)
push_char c [] = (c ∷ []) ∷ []
push_char c (l ∷ ls) = (c ∷ l) ∷ ls

split_lines : List ℕ → List (List ℕ)
unfolding push_char
split_lines [] = [] ∷ []
split_lines (c ∷ cs) =
    let rest = split_lines cs in if nat_eq c 0x0a then [] ∷ rest else push_char c rest

split_lines-append :
    (l rest : List ℕ) → IsLine l → split_lines (l ++ 0x0a ∷ rest) ≡ l ∷ split_lines rest
unfolding split_lines
split_lines-append [] rest h = refl
split_lines-append (c ∷ l) rest (p, h) = ground (arith, split_lines-append l rest h)

split_lines_of_line : (l : List ℕ) → IsLine l → split_lines l ≡ l ∷ []
unfolding split_lines
split_lines_of_line [] h = refl
split_lines_of_line (c ∷ l) (p, h) = ground (arith, split_lines_of_line l h)

split_lines-join_lines :
    (l : List ℕ) (ls : List (List ℕ))
    → All IsLine (l ∷ ls)
    → split_lines (join_lines (l ∷ ls)) ≡ l ∷ ls
unfolding join_lines
split_lines-join_lines l [] (p, h) = split_lines_of_line l p
split_lines-join_lines l (m ∷ ms) (p, h) =
    split_lines-append l _ p ∙ ap (λ t. l ∷ t) (split_lines-join_lines m ms h)

-- Lists of newline-free lines that are joined to one text are the same.
pub join_lines-injective :
    (l m : List ℕ) (ls ms : List (List ℕ))
    → All IsLine (l ∷ ls)
    → All IsLine (m ∷ ms)
    → join_lines (l ∷ ls) ≡ join_lines (m ∷ ms)
    → l ∷ ls ≡ m ∷ ms
join_lines-injective l m ls ms h k e =
    sym (split_lines-join_lines l ls h) ∙ ap split_lines e ∙ split_lines-join_lines m ms k

head-eq {ℓ} : {A : Type ℓ} {x y : A} {xs ys : List A} → x ∷ xs ≡ y ∷ ys → x ≡ y
head-eq e = cc

tail-eq {ℓ} : {A : Type ℓ} {x y : A} {xs ys : List A} → x ∷ xs ≡ y ∷ ys → xs ≡ ys
tail-eq e = cc

pub codes-injective : (s t : String) → codes s ≡ codes t → s ≡ t
codes-injective String.[] String.[] e = refl
codes-injective String.[] (String.◌∷◌ d t) e = cc
codes-injective (String.◌∷◌ c s) String.[] e = cc
codes-injective (String.◌∷◌ c s) (String.◌∷◌ d t) e =
    cc (Char-path c d (head-eq e), codes-injective s t (tail-eq e))

map-codes-injective : (xs ys : List String) → map codes xs ≡ map codes ys → xs ≡ ys
map-codes-injective [] [] e = refl
map-codes-injective [] (y ∷ ys) e = cc
map-codes-injective (x ∷ xs) [] e = cc
map-codes-injective (x ∷ xs) (y ∷ ys) e =
    cc (codes-injective x y (head-eq e), map-codes-injective xs ys (tail-eq e))

-- A text without a newline.
abbrev pub IsField : String → Type 0
IsField s = IsLine (codes s)

map-codes-IsLine : (xs : List String) → All IsField xs → All IsLine (map codes xs)
map-codes-IsLine [] h = tt
map-codes-IsLine (x ∷ xs) (p, h) = (p, map-codes-IsLine xs h)

-- The version tag and the fields, joined.
abbrev pub tagged_payload : List String → List ℕ
tagged_payload fields = join_lines (map codes (sync_sig_domain ∷ fields))

domain-IsField : IsField sync_sig_domain
domain-IsField = omega arith

pub tagged_payload-injective :
    (xs ys : List String)
    → All IsField xs
    → All IsField ys
    → tagged_payload xs ≡ tagged_payload ys
    → xs ≡ ys
tagged_payload-injective xs ys h k e = map-codes-injective xs ys (
    tail-eq (
      join_lines-injective (codes sync_sig_domain) (codes sync_sig_domain) _ _
        (domain-IsField, map-codes-IsLine xs h) (domain-IsField, map-codes-IsLine ys k) e))

-- The fields that an operation signs.
pub data SyncOp : Type 0 where
  put tombstone delete : SyncOp

abbrev pub op_name : SyncOp → String
op_name put = "PUT"
op_name tombstone = "TOMBSTONE"
op_name delete = "DELETE"

abbrev pub signed_fields : SyncOp → String → String → String → List String
signed_fields put s i h = "PUT" ∷ s ∷ i ∷ h ∷ []
signed_fields tombstone s i h = "TOMBSTONE" ∷ s ∷ i ∷ []
signed_fields delete s i h = "DELETE" ∷ s ∷ []

pub sync_canonical_payload-eq :
    (op : SyncOp) (s i h : String)
    → sync_canonical_payload (op_name op) s i h ≡ tagged_payload (signed_fields op s i h)
unfolding sync_canonical_payload
sync_canonical_payload-eq put s i h = refl
sync_canonical_payload-eq tombstone s i h = refl
sync_canonical_payload-eq delete s i h = refl

-- Two operations of the three kinds, on arguments without newlines, have the same payload only if
-- they are of the same kind and agree in every argument that their kind signs.
pub sync_canonical_payload-injective :
    (op op' : SyncOp) (s i h s' i' h' : String)
    → All IsField (signed_fields op s i h)
    → All IsField (signed_fields op' s' i' h')
    → sync_canonical_payload (op_name op) s i h ≡ sync_canonical_payload (op_name op') s' i' h'
    → signed_fields op s i h ≡ signed_fields op' s' i' h'
sync_canonical_payload-injective op op' s i h s' i' h' a b e =
    tagged_payload-injective (signed_fields op s i h) (signed_fields op' s' i' h') a b
      (sym (sync_canonical_payload-eq op s i h) ∙ e ∙ sync_canonical_payload-eq op' s' i' h')
