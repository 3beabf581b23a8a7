-- ===== src/Service/Handler/Headers.antt =====
-- The headers of a response at the client: what `copyHeaders` leaves in the writer's header.
use oes_birger.Prelude.{
  String, ◌==◌, eq_iff, ◌≡◌, refl, ◌∙◌, List, [], ◌∷◌, ◌++◌, append-nil, append_assoc, Option, none,
  some, lookup, insert, delete, lookup-insert, lookup-delete, arith, if◌then◌else◌, All, ap,
  Bool-cases, inl, inr,
}
use oes_birger.Text.{canonical_key}
use oes_birger.Tunnel.Messages.{HttpHeader, HttpTunnelResponse}
use oes_birger.Tunnel.Headers.{Header, values_of, header_add, header_add_all}
use oes_birger.Service.Handler.{Writer, clear, add_headers, copy_headers}

-- All the values that a message has for a name, in any spelling of it, in order.
abbrev pub values_for : String → List HttpHeader → List String
values_for key [] = []
values_for key (header ∷ headers) =
    let rest = values_for key headers in
    if canonical_key header.name == key then header.values ++ rest else rest

-- Every name stands as net/http spells it.
abbrev pub IsCanonical : Header → Type 0
IsCanonical h = All (λ (e : String × List String). canonical_key e.0 ≡ e.0) h

values_of-lookup :
    (key : String) (h : Header) (found : Option (List String))
    → lookup key h ≡ found
    → values_of key h ≡ elim found [ none ↦ [] | some values ↦ values ]
values_of-lookup key h found e =
    ap
      (λ (o : Option (List String)). elim o as (λ x. List String) [
        | none ↦ []
        | some values ↦ values
      ])
      e

values_of-insert :
    (key name : String) (values : List String) (h : Header)
    → values_of key (insert name values h) ≡ (if name == key then values else values_of key h)
values_of-insert key name values h =
    values_of-lookup key (insert name values h) _ (lookup-insert name key values h)
    ∙ elim (Bool-cases (name == key)) [ inl same ↦ rw same refl | inr other ↦ rw other refl ]

values_of-header_add :
    (key name value : String) (h : Header)
    → values_of key (header_add name value h)
      ≡ values_of key h ++ (if canonical_key name == key then value ∷ [] else [])
unfolding header_add
values_of-header_add key name value h =
    let name' = canonical_key name in
    values_of-insert key name' (values_of name' h ++ value ∷ []) h
    ∙ elim (Bool-cases (name' == key)) [
      | inl same ↦ rw same (ap (λ n. values_of n h ++ value ∷ []) ((eq_iff name' key).0 same))
      | inr other ↦ rw other (rw append-nil refl)
    ]

pub values_of-header_add_all :
    (key name : String) (values : List String) (h : Header)
    → values_of key (header_add_all name values h)
      ≡ values_of key h ++ (if canonical_key name == key then values else [])
unfolding header_add_all
values_of-header_add_all key name [] h = ground (arith, append-nil (values_of key h))
values_of-header_add_all key name (v ∷ vs) h = ground (
  arith,
  values_of-header_add_all key name vs (header_add name v h),
  values_of-header_add key name v h,
  append_assoc (values_of key h) (v ∷ []) vs,
  append-nil (values_of key h),
)

pub values_of-add_headers :
    (key : String) (headers : List HttpHeader) (h : Header)
    → values_of key (add_headers headers h) ≡ values_of key h ++ values_for key headers
unfolding add_headers
values_of-add_headers key [] h = rw append-nil
values_of-add_headers key (header ∷ headers) h = ground (
  arith,
  values_of-add_headers key headers (header_add_all header.name header.values h),
  values_of-header_add_all key header.name header.values h,
  append_assoc (values_of key h) header.values (values_for key headers),
  append-nil (values_of key h),
)

lookup-clear :
    (key : String) (names h : Header)
    → IsCanonical names
    → (lookup key names ≡ none → lookup key h ≡ none)
    → lookup key (clear names h) ≡ none
unfolding clear lookup
lookup-clear key [] h c missing = missing refl
lookup-clear key ((name, values) ∷ names) h c missing =
    lookup-clear key names (delete (canonical_key name) h) c.1
      λ absent. ground (arith, lookup-delete (canonical_key name) key h, c.0, missing, absent)

-- The client is sent the values of the response, and no header that was there before.
pub values_of-copy_headers :
    (key : String) (resp : HttpTunnelResponse) (w : Writer)
    → IsCanonical w.header
    → values_of key (copy_headers resp w).header ≡ values_for key resp.headers
unfolding copy_headers
values_of-copy_headers key resp w c =
    let cleared = lookup-clear key w.header w.header c (λ absent. absent) in
    values_of-add_headers key resp.headers (clear w.header w.header)
    ∙ ap (λ values. values ++ values_for key resp.headers)
        (values_of-lookup key (clear w.header w.header) none cleared)
