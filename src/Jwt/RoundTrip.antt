-- ===== src/Jwt/RoundTrip.antt =====
-- Tokens read back: internal/jwtutil/jwt.go and mutateheaders.go.
use oes_birger.Prelude.{ℕ, String, ◌≡◌, ◌+◌, ◌≤◌, ◌<◌, [], ◌∷◌, lookup, ok}
use oes_birger.Jwt.{
  Registry, IsSound, mutate_header, unmutate_header, make_jwt, validate_jwt, mutate_registry_name,
  serviceauth_registry_name,
}

module _ (r : Registry) (sound : IsSound r) (signed now : ℕ) (token : String) where
  -- A header that was mutated is restored as long as its token is valid.
  pub unmutate_header-mutate_header :
      (text : String)
      → mutate_header r text signed ≡ ok token
      → signed ≤ now
      → now < signed + r.validity mutate_registry_name
      → unmutate_header r token now ≡ ok text
  unfolding mutate_header unmutate_header lookup
  unmutate_header-mutate_header text e early late =
      rw (sound mutate_registry_name token (("u", text) ∷ []) signed now e early late)

  -- The credentials that a service token was made from are those that it is read back as.
  pub validate_jwt-make_jwt :
      (ep_type ep_name agent : String)
      → make_jwt r ep_type ep_name agent signed ≡ ok token
      → signed ≤ now
      → now < signed + r.validity serviceauth_registry_name
      → validate_jwt r token now ≡ ok (ep_type, ep_name, agent)
  unfolding make_jwt validate_jwt lookup
  validate_jwt-make_jwt ep_type ep_name agent e early late =
      rw (sound serviceauth_registry_name token _ signed now e early late)
