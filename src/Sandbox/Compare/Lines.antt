-- ===== src/Sandbox/Compare/Lines.antt =====
-- The lines of an output that have words, and what the normal form keeps of them.
use code_warzz.Sandbox.Compare.{
  Text, is_space, is_empty, trim_start, trim_end, trim, push_char, split_lines, norm,
}
use code_warzz.Sandbox.Compare.Words.{
  is_end, words, filled, unwords, norm_lines-unwords, map-words-unwords,
}
use code_warzz.Prelude.{
  ℕ, ◌≡◌, refl, sym, ap, ◌∙◌, inl, inr, Bool, true, false, ◌&&◌, List, [], ◌∷◌, map, arith, ◌==◌,
  Bool-cases,
}

filled-space :
    (c : ℕ) (lines : List Text) → is_space c ≡ true → filled (push_char c lines) ≡ filled lines
unfolding words
filled-space c [] e = rw e refl
filled-space c (line ∷ lines) e = rw e refl

filled-trim_start : (s : Text) → filled (split_lines (trim_start s)) ≡ filled (split_lines s)
unfolding trim_start split_lines words
filled-trim_start [] = refl
filled-trim_start (c ∷ s) = elim (Bool-cases (is_space c)) [
  | inr e ↦ rw e refl
  | inl e ↦ elim (Bool-cases (c == 10)) [
    | inl n ↦ rw (e, n) (filled-trim_start s)
    | inr n ↦ rw (e, n) (filled-trim_start s ∙ sym (filled-space c (split_lines s) e))
  ]
]

abbrev first_line : List Text → Text
first_line [] = []
first_line (line ∷ lines) = line

abbrev other_lines : List Text → List Text
other_lines [] = []
other_lines (line ∷ lines) = lines

-- Lists of lines with the same words, the first line aside, of which also the end is the same.
abbrev SameWords : List Text → List Text → Type 0
SameWords xs ys =
    (words (first_line xs) ≡ words (first_line ys))
    × (is_end (first_line xs) ≡ is_end (first_line ys))
    × (filled (other_lines xs) ≡ filled (other_lines ys))

SameWords-push :
    (c : ℕ) (xs ys : List Text) → SameWords xs ys → SameWords (push_char c xs) (push_char c ys)
unfolding words
SameWords-push c [] [] (w, e, o) = (refl, refl, refl)
SameWords-push c [] (y ∷ ys) (w, e, o) = (ground arith, refl, o)
SameWords-push c (x ∷ xs) [] (w, e, o) = (ground arith, refl, o)
SameWords-push c (x ∷ xs) (y ∷ ys) (w, e, o) = (ground arith, refl, o)

pushes :
    (c : ℕ) (lines : List Text) → push_char c lines ≡ (c ∷ first_line lines) ∷ other_lines lines
pushes c [] = refl
pushes c (line ∷ lines) = refl

split_lines-first :
    (s : Text) → split_lines s ≡ first_line (split_lines s) ∷ other_lines (split_lines s)
unfolding split_lines
split_lines-first [] = refl
split_lines-first (c ∷ s) = elim (Bool-cases (c == 10)) [
  | inl n ↦ rw n refl
  | inr n ↦ rw (n, pushes c (split_lines s)) refl
]

filled-SameWords :
    (s t : Text)
    → SameWords (split_lines s) (split_lines t)
    → filled (split_lines s) ≡ filled (split_lines t)
filled-SameWords s t (w, e, o) =
    ap filled (split_lines-first s)
    ∙ same (first_line (split_lines s)) (first_line (split_lines t)) _ _ w o
    ∙ sym (ap filled (split_lines-first t))
  where
    same :
        (x y : Text) (xs ys : List Text)
        → words x ≡ words y
        → filled xs ≡ filled ys
        → filled (x ∷ xs) ≡ filled (y ∷ ys)
    same x y xs ys p q = rw (p, q) refl

-- A text without words is like the empty text.
SameWords-blank :
    (c : ℕ) (s : Text)
    → is_space c ≡ true
    → SameWords (split_lines []) (split_lines s)
    → SameWords (split_lines []) (split_lines (c ∷ s))
unfolding split_lines words
SameWords-blank c s e (w, b, o) = elim (Bool-cases (c == 10)) [
  | inl n ↦ rw n (refl, refl, filled-SameWords [] s (w, b, o))
  | inr n ↦ rw (n, pushes c (split_lines s)) (rw e w, sym e, o)
]

SameWords-trim_end : (s : Text) → SameWords (split_lines (trim_end s)) (split_lines s)
unfolding trim_end split_lines
SameWords-trim_end [] = (refl, refl, refl)
SameWords-trim_end (c ∷ s) = elim (Bool-cases (is_space c && is_empty (trim_end s))) [
  | inl blank ↦
      let none_left : trim_end s ≡ [] = emptied (is_space c) (trim_end s) blank in
      let space : is_space c ≡ true = first_true (is_space c) (is_empty (trim_end s)) blank in
      let ih : SameWords (split_lines []) (split_lines s) =
        rw none_left at (SameWords-trim_end s) in
      rw blank (SameWords-blank c s space ih)
  | inr more ↦ elim (Bool-cases (c == 10)) [
    | inl n ↦ rw (more, n) (refl, refl, filled-SameWords (trim_end s) s (SameWords-trim_end s))
    | inr n ↦ rw (more, n) (SameWords-push c _ _ (SameWords-trim_end s))
  ]
]
  where
    emptied : (b : Bool) (t : Text) → b && is_empty t ≡ true → t ≡ []
    emptied b [] h = refl
    emptied true (d ∷ t) h = cc
    emptied false (d ∷ t) h = cc

    first_true : (a b : Bool) → a && b ≡ true → a ≡ true
    first_true true b h = refl
    first_true false b h = cc

-- The white space around the whole output takes no part.
filled-trim : (s : Text) → filled (split_lines (trim s)) ≡ filled (split_lines s)
unfolding trim
filled-trim s =
    filled-trim_start (trim_end s) ∙ filled-SameWords (trim_end s) s (SameWords-trim_end s)

-- The normal form is the words of the lines that have any, with one space between them, …
pub norm-unwords : (s : Text) → norm s ≡ map unwords (filled (split_lines s))
unfolding norm
norm-unwords s = norm_lines-unwords (split_lines (trim s)) ∙ ap (map unwords) (filled-trim s)

-- … and these words can be read off it.
pub words-norm : (s : Text) → map words (norm s) ≡ filled (split_lines s)
words-norm s = ap (map words) (norm-unwords s) ∙ map-words-unwords (split_lines s)
