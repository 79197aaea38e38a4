-- ===== src/RateLimit/Shadow.antt =====
-- Which rule `findRule` finds for a path.
use code_warzz.RateLimit.Core.{RateLimitRule}
use code_warzz.RateLimit.Rules.{
  Text, Method, get, post, put, patch, delete, head, options, spelled, submissions, run_suffix,
  run_rule, default_rules, starts_with, strip_mount_point, exact_rule, prefix_rule, find_rule,
}
use code_warzz.Prelude.{
  ◌≡◌, refl, sym, ◌∙◌, ◌≢◌, inl, inr, false, none, some, [], ◌∷◌, ◌++◌, arith, Bool-cases,
}

starts_with-append :
    (path a b : Text) → starts_with path a ≡ false → starts_with path (a ++ b) ≡ false
unfolding starts_with
starts_with-append path [] b e = cc
starts_with-append [] (c ∷ a) b e = refl
starts_with-append (x ∷ path) (c ∷ a) b e = ground (arith, starts_with-append path a b)

no_exact :
    (method : Method) (rest : Text)
    → exact_rule (spelled method ++ b'/' ∷ rest) default_rules ≡ none
unfolding exact_rule
no_exact get rest = refl
no_exact post rest = refl
no_exact put rest = refl
no_exact patch rest = refl
no_exact delete rest = refl
no_exact head rest = refl
no_exact options rest = refl

prefix_rule-ne-run :
    (method : Method) (path : Text) (rule : RateLimitRule)
    → prefix_rule method path default_rules ≡ some rule
    → rule.key ≢ run_rule.key
unfolding prefix_rule
prefix_rule-ne-run post path rule e = elim (Bool-cases (starts_with path submissions)) [
  | inl s ↦ ground arith
  | inr s ↦ let longer = starts_with-append path submissions run_suffix s in ground arith
]
prefix_rule-ne-run method path rule e = ground arith

find_rule-prefix :
    (method : Method) (full_path rest : Text)
    → strip_mount_point full_path ≡ b'/' ∷ rest
    → find_rule method full_path ≡ prefix_rule method (b'/' ∷ rest) default_rules
unfolding find_rule
find_rule-prefix method full_path rest slash = rw (slash, no_exact method rest) refl

-- No path that starts with a slash behind the mount point gets the rule for runs, neither
-- "/submissions/run" nor any other, whatever the method is.
pub find_rule-ne-run :
    (method : Method) (full_path rest : Text) (rule : RateLimitRule)
    → strip_mount_point full_path ≡ b'/' ∷ rest
    → find_rule method full_path ≡ some rule
    → rule.key ≢ run_rule.key
find_rule-ne-run method full_path rest rule slash e =
    prefix_rule-ne-run method (b'/' ∷ rest) rule
      (sym (find_rule-prefix method full_path rest slash) ∙ e)
