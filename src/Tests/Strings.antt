-- ===== src/Tests/Strings.antt =====
-- Go's string functions at concrete texts.
use oes_birger.Prelude.{◌≡◌, refl, true, false, none, some, [], ◌∷◌}
use oes_birger.Text.{canonical_key, equal_fold, concat, split_at_space}

canonical_key_tests :
    (canonical_key "x-spinnaker-USER" ≡ "X-Spinnaker-User") × (canonical_key "a b" ≡ "a b")
unfolding canonical_key
canonical_key_tests = (refl, refl)

equal_fold_tests :
    (equal_fold "X-Spinnaker-User" "x-ſpinnaKer-user" ≡ true)
    × (equal_fold "Authorization" "authorisation" ≡ false)
unfolding equal_fold
equal_fold_tests = (refl, refl)

split_at_space_tests :
    (split_at_space "Bearer a b" ≡ some ("Bearer", "a b")) × (split_at_space "Bearer" ≡ none)
unfolding split_at_space
split_at_space_tests = (refl, refl)

concat_test : concat ("jenkins" ∷ "." ∷ "agent1" ∷ []) ≡ "jenkins.agent1"
unfolding concat
concat_test = refl
