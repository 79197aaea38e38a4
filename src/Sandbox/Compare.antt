-- ===== src/Sandbox/Compare.antt =====
-- evaluation-service/src/sandbox/compareOutput.ts: when two outputs count as equal.
-- A text is the list of its code units.
pub mod Laws
pub mod Words
mod Lines
use code_warzz.Prelude.{
  ℕ, Bool, true, false, not, ◌&&◌, ◌||◌, List, [], ◌∷◌, map, leb, ◌==◌, if◌then◌else◌, length,
  select,
}

abbrev pub Text : Type 0
Text = List ℕ

-- what `trim` and `\s` take for white space
abbrev pub is_space : ℕ → Bool
is_space c =
    (leb 9 c && leb c 13)
    || c == 32
    || c == 160
    || c == 5760
    || (leb 8192 c && leb c 8202)
    || c == 8232
    || c == 8233
    || c == 8239
    || c == 8287
    || c == 12288
    || c == 65279

abbrev pub is_empty : Text → Bool
is_empty [] = true
is_empty (c ∷ s) = false

unfoldable pub trim_start : Text → Text
trim_start [] = []
trim_start (c ∷ s) = let rest = trim_start s in if is_space c then rest else c ∷ s

unfoldable pub trim_end : Text → Text
trim_end [] = []
trim_end (c ∷ s) = let rest = trim_end s in if is_space c && is_empty rest then [] else c ∷ rest

unfoldable pub trim : Text → Text
unfolding trim_start trim_end
trim s = trim_start (trim_end s)

abbrev pub push_char : ℕ → List Text → List Text
push_char c [] = (c ∷ []) ∷ []
push_char c (line ∷ lines) = (c ∷ line) ∷ lines

-- `s.split("\n")`
unfoldable pub split_lines : Text → List Text
split_lines [] = [] ∷ []
split_lines (c ∷ s) = let rest = split_lines s in if c == 10 then [] ∷ rest else push_char c rest

abbrev pub starts_with_space : Text → Bool
starts_with_space [] = false
starts_with_space (c ∷ s) = is_space c

-- `line.replace(/\s+/g, " ")`: the last of a run of spaces stands for the run
unfoldable pub collapse_spaces : Text → Text
collapse_spaces [] = []
collapse_spaces (c ∷ s) =
    let rest = collapse_spaces s in
    if is_space c then (if starts_with_space s then rest else 32 ∷ rest) else c ∷ rest

-- the local function `norm`
unfoldable pub norm : Text → List Text
unfolding trim split_lines collapse_spaces
norm s =
    select (λ line. not (is_empty line))
      (map (λ line. collapse_spaces (trim line)) (split_lines (trim s)))

abbrev pub same_text : Text → Text → Bool
same_text [] [] = true
same_text (c ∷ s) (d ∷ t) = c == d && same_text s t
same_text _ _ = false

-- the loop over the lines, of which there are as many on both sides
unfoldable pub same_lines : List Text → List Text → Bool
same_lines [] ys = true
same_lines (x ∷ xs) [] = false
same_lines (x ∷ xs) (y ∷ ys) = same_text x y && same_lines xs ys

unfoldable pub compare_output : Text → Text → Bool
unfolding norm same_lines
compare_output actual expected =
    length (norm actual) == length (norm expected) && same_lines (norm actual) (norm expected)
