-- ===== src/Tunnel/Headers.antt =====
-- internal/tunnel/http.go and headers.go: the headers of a message, made from those of an HTTP
-- request or response and copied back into one. An `http.Header` is an association list; where the
-- source ranges over one, the list is in the order of the range.
pub mod Strip
pub mod RoundTrip
pub mod ThroughAgent
use oes_birger.Prelude.{
  ℕ, String, ◌≡◌, ◌==◌, Bool, true, false, not, ◌&&◌, ◌||◌, List, [], ◌∷◌, ◌++◌, Option, none, some,
  lookup, insert, Result, ok, err, panic, ◌>>=◌, if◌then◌else◌,
}
use oes_birger.Text.{equal_fold, canonical_key}
use oes_birger.Jwt.{
  Registry, Error, Mutation, mutation_is_registered, mutate_header, unmutate_header,
}
use oes_birger.Tunnel.Messages.{HttpHeader, OpenHttpTunnelRequest}

abbrev pub Header : Type 0
Header = List (String × List String)

abbrev pub mutated_headers : List String
mutated_headers = "X-Spinnaker-User" ∷ []

abbrev pub stripped_outgoing_headers : List String
stripped_outgoing_headers = "Authorization" ∷ []

unfoldable pub contains_folded : List String → String → Bool
contains_folded [] t = false
contains_folded (x ∷ l) t = equal_fold x t || contains_folded l t

abbrev pub values_of : String → Header → List String
values_of key h = elim (lookup key h) [ none ↦ [] | some vs ↦ vs ]

-- `Header.Add`.
unfoldable pub header_add : String → String → Header → Header
header_add name value h =
    let key = canonical_key name in insert key (values_of key h ++ value ∷ []) h

-- `Header.Set`.
unfoldable pub header_set : String → String → Header → Header
header_set name value h = insert (canonical_key name) (value ∷ []) h

unfoldable pub header_add_all : String → List String → Header → Header
header_add_all name [] h = h
header_add_all name (v ∷ vs) h = header_add_all name vs (header_add name v h)

-- `values[0]`, which panics on an empty slice.
abbrev pub first {ℓ} : {A : Type ℓ} → List A → Result Error A
first [] = panic
first (x ∷ xs) = ok x

-- The test that both functions make of a header's name.
unfoldable pub is_mutated : Mutation → String → Bool
unfolding contains_folded mutation_is_registered
is_mutated m name = mutation_is_registered m && contains_folded mutated_headers name

module _ (r : Registry) (m : Mutation) (now : ℕ) where
  -- The headers that one entry of the map becomes: one, or none if it is stripped.
  unfoldable pub make_header : String → List String → Result Error (List HttpHeader)
  make_header name values =
      if is_mutated m name
      then (do
        value ← first values
        mutated ← mutate_header r value now
        ok (record { name = name; values = mutated ∷ [] } ∷ []))
      else if not (contains_folded stripped_outgoing_headers name)
      then ok (record { name = name; values = values } ∷ [])
      else ok []

  unfoldable pub make_headers : Header → Result Error (List HttpHeader)
  make_headers [] = ok []
  make_headers ((name, values) ∷ headers) = do
    made ← make_header name values
    rest ← make_headers headers
    ok (made ++ rest)

  unfoldable pub copy_header : HttpHeader → Header → Result Error Header
  copy_header header out =
      if is_mutated m header.name
      then (do
        value ← first header.values
        unmutated ← unmutate_header r value now
        ok (header_add header.name unmutated out))
      else ok (header_add_all header.name header.values out)

  unfoldable pub copy_headers : List HttpHeader → Header → Result Error Header
  copy_headers [] out = ok out
  copy_headers (header ∷ headers) out = do out' ← copy_header header out; copy_headers headers out'

-- The loop of `GetHeaderValue`: the first value of the first header of that name, or the empty text.
unfoldable pub header_value : String → List HttpHeader → Result Error String
header_value name [] = ok ""
header_value name (header ∷ headers) =
    if equal_fold header.name name then first header.values else header_value name headers

unfoldable pub get_header_value : OpenHttpTunnelRequest → String → Result Error String
unfolding header_value
get_header_value t name = header_value name t.headers
