-- ===== src/Sandbox/Compare/Laws.antt =====
-- The comparison of outputs against the normal forms of the texts.
use mathlib.Core.List.{append-nil, append_assoc}
use code_warzz.Prelude.{
  ℕ, ◌≡◌, refl, sym, ap, ◌∙◌, ◌↔◌, true, List, [], ◌∷◌, ◌++◌, map, arith, length, All,
}
use code_warzz.Sandbox.Compare.Words.{words, unwords, filled}
use code_warzz.Sandbox.Compare.Lines.{norm-unwords, words-norm}
use code_warzz.Sandbox.Compare.{
  split_lines, Text, is_space, trim_end, trim, norm, same_text, same_lines, compare_output,
}

same_text_sound : (s t : Text) → same_text s t ≡ true → s ≡ t
same_text_sound [] [] h = refl
same_text_sound [] (d ∷ t) h = cc
same_text_sound (c ∷ s) [] h = cc
same_text_sound (c ∷ s) (d ∷ t) h = ground (arith, same_text_sound s t)

same_text_refl : (s : Text) → same_text s s ≡ true
same_text_refl [] = refl
same_text_refl (c ∷ s) = ground (arith, same_text_refl s)

same_lines_sound : (xs ys : List Text) → length xs ≡ length ys → same_lines xs ys ≡ true → xs ≡ ys
unfolding same_lines
same_lines_sound [] [] l h = refl
same_lines_sound [] (y ∷ ys) l h = absurd (omega arith)
same_lines_sound (x ∷ xs) [] l h = cc
same_lines_sound (x ∷ xs) (y ∷ ys) l h = ground (arith, same_text_sound x y, same_lines_sound xs ys)

same_lines_refl : (xs : List Text) → same_lines xs xs ≡ true
unfolding same_lines
same_lines_refl [] = refl
same_lines_refl (x ∷ xs) = ground (arith, same_text_refl x, same_lines_refl xs)

compare_output-norm_iff :
    (actual expected : Text)
    → (compare_output actual expected ≡ true) ↔ (norm actual ≡ norm expected)
unfolding compare_output
compare_output-norm_iff actual expected = (
  λ h. same_lines_sound (norm actual) (norm expected) (ground arith) (ground arith),
  λ e. rw e (ground (arith, same_lines_refl (norm expected))),
)

-- Two outputs compare equal exactly when the lines of them that have any words, that is runs without
-- white space, have the same words, line by line and in order; blank lines do not count.
pub compare_output_iff :
    (actual expected : Text)
    → (compare_output actual expected ≡ true)
      ↔ (filled (split_lines actual) ≡ filled (split_lines expected))
compare_output_iff actual expected =
    let (there, back) = compare_output-norm_iff actual expected in
    (
      λ h. sym (words-norm actual) ∙ ap (map words) (there h) ∙ words-norm expected,
      λ e. back (norm-unwords actual ∙ ap (map unwords) e ∙ sym (norm-unwords expected)),
    )

trim_end-concat : (s : Text) (c : ℕ) → is_space c ≡ true → trim_end (s ++ c ∷ []) ≡ trim_end s
unfolding trim_end
trim_end-concat [] c h = rw h
trim_end-concat (d ∷ s) c h = rw (trim_end-concat s c h)

trim_end-append :
    (s blank : Text) → All (λ c. is_space c ≡ true) blank → trim_end (s ++ blank) ≡ trim_end s
trim_end-append s [] h = ap trim_end (append-nil s)
trim_end-append s (c ∷ blank) (p, h) =
    ap trim_end (sym (append_assoc s (c ∷ []) blank))
    ∙ trim_end-append (s ++ c ∷ []) blank h
    ∙ trim_end-concat s c p

-- White space at the end of either output, such as a last newline, never changes the comparison.
pub compare_output-append :
    (actual expected blank blank' : Text)
    → All (λ c. is_space c ≡ true) blank
    → All (λ c. is_space c ≡ true) blank'
    → compare_output (actual ++ blank) (expected ++ blank') ≡ compare_output actual expected
unfolding compare_output norm trim
compare_output-append actual expected blank blank' h h' =
    rw (trim_end-append actual blank h, trim_end-append expected blank' h')
