-- ===== src/Plagiarism/Similarity.antt =====
-- core/src/service/plagiarism/similarity.ts. A similarity is an exact fraction where the source has a
-- double, and a rounded one a number of ten-thousandths.
use code_warzz.Prelude.{
  ℕ, ◌+◌, ◌-◌, ◌*◌, ◌/◌, Bool, ◌&&◌, ◌||◌, List, [], ◌∷◌, leb, ◌==◌, if◌then◌else◌, length,
  contains, sort_by,
}

pub record Fraction : Type 0 where
  pub num : ℕ
  pub den : ℕ

pub record Candidate : Type 0 where
  pub submission_id : ℕ
  pub fingerprint : List ℕ

pub record Similar : Type 0 where
  pub submission_id : ℕ
  pub similarity : ℕ

-- the loop of `jaccardSimilarity` over `setA`
unfoldable pub count_common : List ℕ → List ℕ → ℕ
count_common [] b = 0
count_common (x ∷ a) b = (if contains x b then 1 else 0) + count_common a b

unfoldable pub jaccard_similarity : List ℕ → List ℕ → Fraction
jaccard_similarity a b =
    let one : Fraction = record { num = 1; den = 1 } in
    let nothing : Fraction = record { num = 0; den = 1 } in
    let intersection = count_common a b in
    if length a == 0 && length b == 0
    then one
    else if length a == 0 || length b == 0
    then nothing
    else record { num = intersection; den = length a + length b - intersection }

-- `similarity >= threshold`
unfoldable pub reaches : Fraction → Fraction → Bool
reaches similarity threshold = leb (threshold.num * similarity.den) (similarity.num * threshold.den)

-- `Math.round(similarity * 10000)`
unfoldable pub rounded : Fraction → ℕ
rounded s = (s.num * 20000 + s.den) / (2 * s.den)

-- the loop of `findSimilarSubmissions`
unfoldable pub similar_to : List ℕ → Fraction → List Candidate → List Similar
unfolding reaches rounded
similar_to target threshold [] = []
similar_to target threshold (c ∷ cs) =
    let rest = similar_to target threshold cs in
    let s = jaccard_similarity target c.fingerprint in
    if reaches s threshold
    then record { submission_id = c.submission_id; similarity = rounded s } ∷ rest
    else rest

-- `findSimilarSubmissions`, the greatest similarity first
unfoldable pub find_similar_submissions : List ℕ → Fraction → List Candidate → List Similar
unfolding similar_to
find_similar_submissions target threshold candidates =
    sort_by (λ s. 10000 - s.similarity) (similar_to target threshold candidates)
