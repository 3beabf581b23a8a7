-- ===== src/Tests/Tokens.antt =====
-- A registry that signs two kinds of claims, and the theorems on internal/jwtutil at work.
use oes_birger.Prelude.{
  String, ◌==◌, eq_iff, ◌≡◌, refl, arith, Bool, true, false, ◌&&◌, List, [], ◌∷◌, Result, ok, err,
  if◌then◌else◌, Bool-cases, inl, inr,
}
use oes_birger.Jwt.{Registry, Claims, Error, registry, IsSound}

abbrev pub service_claims : Claims
service_claims = ("t", "jenkins") ∷ ("n", "ci") ∷ ("a", "agent1") ∷ []

abbrev known : List String
known = "t" ∷ "jenkins" ∷ "n" ∷ "ci" ∷ "a" ∷ "agent1" ∷ []

abbrev all_equal : List String → List String → Bool
all_equal (x ∷ xs) (y ∷ ys) = x == y && all_equal xs ys
all_equal [] [] = true
all_equal _ _ = false

all_equal-eq : (xs ys : List String) → all_equal xs ys ≡ true → xs ≡ ys
all_equal-eq [] [] e = refl
all_equal-eq [] (y ∷ ys) e = cc e
all_equal-eq (x ∷ xs) [] e = cc e
all_equal-eq (x ∷ xs) (y ∷ ys) e = ground (arith, eq_iff x y, all_equal-eq xs ys)

-- A user's name is its own token; the claims of one service have a token, too.
unfoldable pub sign : Claims → Result Error String
sign ((k, v) ∷ []) =
    if k == "u"
    then (if v == "service-token" then err (registry "text") else ok v)
    else err (registry "key")
sign ((k, v) ∷ (l, w) ∷ (m, x) ∷ []) =
    if all_equal (k ∷ v ∷ l ∷ w ∷ m ∷ x ∷ []) known
    then ok "service-token"
    else err (registry "claims")
sign _ = err (registry "shape")

unfoldable pub validate : String → Result Error Claims
validate token = if token == "service-token" then ok service_claims else ok (("u", token) ∷ [])

abbrev pub tokens : Registry
tokens = record {
  sign = λ name claims now. sign claims;
  validate = λ name token now. validate token;
  validity = λ name. 100;
}

validate-sign :
    (claims : Claims) (token : String) → sign claims ≡ ok token → validate token ≡ ok claims
unfolding sign validate
validate-sign [] token e = cc e
validate-sign ((k, v) ∷ []) token e = ground (arith, eq_iff k "u", eq_iff v "service-token")
validate-sign ((k, v) ∷ (l, w) ∷ []) token e = cc e
validate-sign ((k, v) ∷ (l, w) ∷ (m, x) ∷ []) token e =
    elim (Bool-cases (all_equal (k ∷ v ∷ l ∷ w ∷ m ∷ x ∷ []) known)) [
      | inl same ↦
          let e' : "service-token" ≡ token = cc (rw same at e) in
          rw (← e') (cc (all_equal-eq (k ∷ v ∷ l ∷ w ∷ m ∷ x ∷ []) known same))
      | inr other ↦ cc (rw other at e)
    ]
validate-sign ((k, v) ∷ (l, w) ∷ (m, x) ∷ c ∷ claims) token e = cc e

pub tokens-IsSound : IsSound tokens
tokens-IsSound name token claims signed now e early late = validate-sign claims token e
