-- ===== src/Service/Generic/Uri.antt =====
-- generic_endpoint.go, `unmutateURI`: a token in a request's URI, read back.
use Prim.Native.Char.{code}
use oes_birger.Prelude.{
  ℕ, String, ◌==◌, not, ◌||◌, List, [], ◌∷◌, if◌then◌else◌, eqb, Result, ok, ◌>>=◌,
}
use oes_birger.Text.{concat}
use oes_birger.Jwt.{Registry, Mutation, unmutate_header, mutation_is_registered}
use oes_birger.Jwt

-- The parts of a text between the slashes.
unfoldable pub split_at_slashes : String → String × List String
split_at_slashes String.[] = ("", [])
split_at_slashes (String.◌∷◌ c s) =
    let (part, parts) = split_at_slashes s in
    if eqb (code c) b'/' then ("", part ∷ parts) else (String.◌∷◌ c part, parts)

unfoldable pub join_with_slashes : String → List String → String
join_with_slashes part [] = part
join_with_slashes part (next ∷ parts) = concat (part ∷ "/" ∷ join_with_slashes next parts ∷ [])

module _ (reg : Registry) (m : Mutation) (now : ℕ) where
  -- The text behind `/authorize/` is a token, which is read.
  unfoldable pub unmutate_parts : String → String × List String → Result Jwt.Error String
  unfolding join_with_slashes
  unmutate_parts uri (first, second ∷ third ∷ parts) =
      if second == "authorize"
      then (do
        username ← unmutate_header reg third now
        ok (join_with_slashes first (second ∷ username ∷ parts)))
      else ok uri
  unmutate_parts uri (first, _) = ok uri

  unfoldable pub unmutate_uri : String → String → String → Result Jwt.Error String
  unfolding unmutate_parts split_at_slashes
  unmutate_uri type method uri =
      if not (type == "fiat") || not (method == "GET") || not (mutation_is_registered m)
      then ok uri
      else unmutate_parts uri (split_at_slashes uri)
