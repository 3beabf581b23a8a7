-- ===== src/Tunnel/AgentInfo.antt =====
-- internal/tunnel/agentinfo.go: the annotations of an agent, as a map and as a list of messages.
use oes_birger.Prelude.{
  String, ◌≡◌, refl, List, [], ◌∷◌, Option, none, some, lookup, insert, lookup-insert, arith,
  eq_iff,
}
use oes_birger.Tunnel.Messages.{Annotation, AgentInformation}

pub record AgentInfo : Type 0 where
  pub annotations : List (String × String)

-- The list is in the order of the range over the map.
unfoldable pub annotations_to_pb : List (String × String) → List Annotation
annotations_to_pb [] = []
annotations_to_pb ((k, v) ∷ m) = record { name = k; value = v } ∷ annotations_to_pb m

-- Each annotation is written into the map, in the order of the message.
unfoldable pub annotations_into : List Annotation → List (String × String) → List (String × String)
annotations_into [] m = m
annotations_into (a ∷ annotations) m = annotations_into annotations (insert a.name a.value m)

pub to_pb : AgentInfo → AgentInformation
to_pb ai = record { annotations = annotations_to_pb ai.annotations }

-- The receiver may be nil.
pub from_pb : Option AgentInformation → AgentInfo
from_pb none = record { annotations = [] }
from_pb (some ai) = record { annotations = annotations_into ai.annotations [] }

-- Keys of a Go map are distinct.
abbrev pub HasDistinctKeys : List (String × String) → Type 0
HasDistinctKeys [] = Unit
HasDistinctKeys ((k, v) ∷ m) = (lookup k m ≡ none) × HasDistinctKeys m

abbrev or_else : Option String → Option String → Option String
or_else none o = o
or_else (some v) o = some v

pub lookup-annotations_into :
    (m out : List (String × String)) (k : String)
    → HasDistinctKeys m
    → lookup k (annotations_into (annotations_to_pb m) out) ≡ or_else (lookup k m) (lookup k out)
unfolding annotations_into annotations_to_pb lookup
lookup-annotations_into [] out k d = refl
lookup-annotations_into ((j, v) ∷ m) out k d =
    ground
      (arith, lookup-annotations_into m (insert j v out) k d.1, lookup-insert j k v out, eq_iff j k)

-- The annotations that arrive are those that were sent, under every key.
pub from_pb-to_pb :
    (ai : AgentInfo) (k : String)
    → HasDistinctKeys ai.annotations
    → lookup k (from_pb (some (to_pb ai))).annotations ≡ lookup k ai.annotations
unfolding from_pb to_pb lookup
from_pb-to_pb ai k d = ground (arith, lookup-annotations_into ai.annotations [] k d)
