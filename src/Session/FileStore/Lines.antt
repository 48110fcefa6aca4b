-- ===== src/Session/FileStore/Lines.antt =====
-- session/store.go: lines put together and taken apart.
use korai_sdk_go.Prelude.{
  suc, ◌≡◌, refl, ap, sym, ◌∙◌, false, List, [], ◌∷◌, ◌++◌, append_assoc, length, nat_eq, All,
}
use korai_sdk_go.Session.FileStore.{Bytes, newline, count_newlines, lines_of, unlines}

abbrev pub NoNewline : Bytes → Type 0
NoNewline = All (λ c. nat_eq c newline ≡ false)

-- A line that is not empty.
abbrev pub IsLine : Bytes → Type 0
IsLine [] = ⊥
IsLine (c ∷ cs) = NoNewline (c ∷ cs)

pub NoNewline-IsLine : (l : Bytes) → IsLine l → NoNewline l
NoNewline-IsLine [] h = tt
NoNewline-IsLine (c ∷ cs) h = h

lines_of-append :
    (l rest : Bytes) → NoNewline l → lines_of (l ++ (newline ∷ rest)) ≡ l ∷ lines_of rest
unfolding lines_of
lines_of-append [] rest h = refl
lines_of-append (c ∷ cs) rest (p, h) = rw (p, lines_of-append cs rest h) refl

pub lines_of-unlines :
    (ls : List Bytes) → All NoNewline ls → lines_of (unlines ls) ≡ ls ++ ([] ∷ [])
unfolding lines_of unlines
lines_of-unlines [] h = refl
lines_of-unlines (l ∷ ls) (p, h) =
    lines_of-append l (unlines ls) p ∙ ap (λ t. l ∷ t) (lines_of-unlines ls h)

count_newlines-append :
    (l rest : Bytes)
    → NoNewline l
    → count_newlines (l ++ (newline ∷ rest)) ≡ suc (count_newlines rest)
unfolding count_newlines
count_newlines-append [] rest h = refl
count_newlines-append (c ∷ cs) rest (p, h) = rw (p, count_newlines-append cs rest h) refl

pub count_newlines-unlines :
    (ls : List Bytes) → All NoNewline ls → count_newlines (unlines ls) ≡ length ls
unfolding count_newlines unlines
count_newlines-unlines [] h = refl
count_newlines-unlines (l ∷ ls) (p, h) =
    count_newlines-append l (unlines ls) p ∙ ap suc (count_newlines-unlines ls h)

pub unlines-append : (ls ms : List Bytes) → unlines (ls ++ ms) ≡ unlines ls ++ unlines ms
unfolding unlines
unlines-append [] ms = refl
unlines-append (l ∷ ls) ms =
    ap (λ t. l ++ (newline ∷ t)) (unlines-append ls ms)
    ∙ sym (append_assoc l (newline ∷ unlines ls) (unlines ms))
