-- ===== src/Jwt.antt =====
-- internal/jwtutil: the claims that the forwarder signs into a token and reads back from one. The
-- tokens themselves are the work of github.com/skandragon/jwtregistry, a parameter here: `sign` and
-- `validate` take the registry's name, as in the source, and the time of the call.
pub mod RoundTrip
use oes_birger.Prelude.{
  ℕ, String, ◌≡◌, ◌+◌, ◌≤◌, ◌<◌, Bool, true, false, List, [], ◌∷◌, Option, none, some, lookup,
  Result, ok, err, panic, ◌>>=◌,
}

-- An association list is `map[string]string`.
abbrev pub Claims : Type 0
Claims = List (String × String)

pub data Error : Type 0 where
  -- whatever the registry reports
  registry : String → Error
  missing_claim : String → Error

pub record Registry : Type 0 where
  pub sign : String → Claims → ℕ → Result Error String
  pub validate : String → String → ℕ → Result Error Claims
  -- how long a token of the named registry is good for
  pub validity : String → ℕ

-- The documented behaviour of the registry: a token that it has signed is valid from then on for
-- the registry's period, and carries the claims that were signed.
abbrev pub IsSound : Registry → Type 0
IsSound r =
    (name token : String) (claims : Claims) (signed now : ℕ)
    → r.sign name claims signed ≡ ok token
    → signed ≤ now
    → now < signed + r.validity name
    → r.validate name token now ≡ ok claims

abbrev pub mutate_registry_name : String
mutate_registry_name = "header-mutation"

abbrev pub serviceauth_registry_name : String
serviceauth_registry_name = "service-auth"

-- `mutationRegistered`, the variable of the package.
pub record Mutation : Type 0 where
  pub registered : Bool

-- The registry's own verdict on the key set is handed on; the flag is set whatever it is.
unfoldable pub register_mutation_keyset :
    Result Error (Unit {0}) → Mutation → Mutation × Result Error (Unit {0})
register_mutation_keyset verdict m = (record m { registered = true }, verdict)

pub unregister_mutation_keyset : Mutation → Mutation
unregister_mutation_keyset m = record m { registered = false }

unfoldable pub mutation_is_registered : Mutation → Bool
mutation_is_registered m = m.registered

module _ (r : Registry) where
  unfoldable pub mutate_header : String → ℕ → Result Error String
  mutate_header text now = r.sign mutate_registry_name (("u", text) ∷ []) now

  claim : String → Claims → Result Error String
  claim key claims = elim (lookup key claims) [ none ↦ err (missing_claim key) | some v ↦ ok v ]

  unfoldable pub unmutate_header : String → ℕ → Result Error String
  unfolding claim
  unmutate_header token now = do
    claims ← r.validate mutate_registry_name token now
    claim "u" claims

  unfoldable pub make_jwt : String → String → String → ℕ → Result Error String
  make_jwt ep_type ep_name agent now =
      r.sign serviceauth_registry_name (("t", ep_type) ∷ ("n", ep_name) ∷ ("a", agent) ∷ []) now

  -- Every key is looked up, and the last one that is missing is reported.
  unfoldable pub validate_jwt : String → ℕ → Result Error (String × String × String)
  unfolding claim
  validate_jwt token now = do
    claims ← r.validate serviceauth_registry_name token now
    agent ← claim "a" claims
    ep_name ← claim "n" claims
    ep_type ← claim "t" claims
    ok (ep_type, ep_name, agent)
