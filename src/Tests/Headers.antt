-- ===== src/Tests/Headers.antt =====
-- Headers through the tunnel.
use oes_birger.Prelude.{◌≡◌, refl, arith, List, [], ◌∷◌, ok, lookup, true, All}
use oes_birger.Text.{equal_fold, canonical_key}
use oes_birger.Jwt.{Mutation, mutate_header}
use oes_birger.Tunnel.Messages.{HttpHeader}
use oes_birger.Tunnel.Headers.{
  Header, make_headers, copy_headers, make_header, is_mutated, contains_folded,
}
use oes_birger.Tunnel.Headers.Strip.{IsKept, make_headers-IsKept}
use oes_birger.Tunnel.Headers.ThroughAgent.{unregistered, Handed, copy_headers-through_agent}
use oes_birger.Tests.Tokens.{tokens, tokens-IsSound, sign}

abbrev pub mutating : Mutation
mutating = record { registered = true }

abbrev pub headers : Header
headers = ("X-Spinnaker-User", "alice" ∷ []) ∷ ("Accept", "a" ∷ "b" ∷ []) ∷ []

abbrev pub made : List HttpHeader
made =
    record { name = "X-Spinnaker-User"; values = "alice" ∷ [] }
    ∷ record { name = "Accept"; values = "a" ∷ "b" ∷ [] }
    ∷ []

headers-made : make_headers tokens mutating 10 headers ≡ ok made
unfolding make_headers make_header is_mutated contains_folded equal_fold mutate_header sign
headers-made = refl

copy_headers-through_agent_example :
    (seen : Header) × (copy_headers tokens unregistered 20 made [] ≡ ok seen)
    × Handed tokens 10 headers seen
    × (make_headers tokens unregistered 30 seen ≡ ok made)
    × (copy_headers tokens mutating 50 made [] ≡ ok headers)
unfolding is_mutated contains_folded equal_fold canonical_key lookup
copy_headers-through_agent_example =
    copy_headers-through_agent tokens tokens 10 20 30 50 headers made tokens-IsSound (omega arith)
      (omega arith)
      (
        record { canonical = refl; kept = refl; valued = refl },
        (record { canonical = refl; kept = refl; valued = tt }, tt),
      )
      (refl, (refl, tt)) headers-made

abbrev with_credentials : Header
with_credentials = ("AUTHORIZATION", "secret" ∷ []) ∷ headers

make_headers-IsKept_example : All (IsKept tokens mutating 10) made
unfolding make_headers make_header is_mutated contains_folded equal_fold mutate_header sign
make_headers-IsKept_example = make_headers-IsKept tokens mutating 10 with_credentials made refl
