-- ===== src/Service/Credentials.antt =====
-- internal/serviceconfig/service_server.go: whom a client of the service API speaks for. The parsing
-- of the value of a Basic `Authorization` header is net/http's, the parameter `basic_auth`.
use oes_birger.Prelude.{
  ℕ, String, ◌==◌, Bool, not, List, [], ◌∷◌, Option, none, some, if◌then◌else◌, delete, Result, ok,
  err, panic,
}
use oes_birger.Text.{is_empty_text, split_at_space, canonical_key}
use oes_birger.Jwt.{Registry, validate_jwt}
use oes_birger.Authority.{Certificate, Crypto, get_certificate_name_from_cert, service_purpose}
use oes_birger.Tunnel.Headers.{Header, values_of}
use oes_birger.Route.Direct.{Search}

pub record IncomingServiceConfig : Type 0 where
  pub name : String
  pub port : ℕ
  pub use_http : Bool
  pub service_type : String
  pub destination : String
  pub destination_service : String

pub record Identity : Type 0 where
  pub agent_identity : String
  pub endpoint_type : String
  pub endpoint_name : String

pub data Refusal : Type 0 where
  no_credentials : Refusal

-- `Header.Get` and `Header.Del`.
unfoldable pub header_get : String → Header → String
header_get name h = elim (values_of (canonical_key name) h) [ [] ↦ "" | v ∷ vs ↦ v ]

unfoldable pub header_del : String → Header → Header
header_del name h = delete (canonical_key name) h

abbrev pub token_header : String
token_header = "X-Opsmx-Token"

unfoldable pub fixed_identity : IncomingServiceConfig → Search
fixed_identity service = record {
  name = service.destination;
  endpoint_type = service.service_type;
  endpoint_name = service.destination_service;
  session = "";
}

unfoldable pub extract_endpoint_from_cert : Crypto → List Certificate → Result Refusal Identity
extract_endpoint_from_cert lib [] = err no_credentials
extract_endpoint_from_cert lib (cert ∷ more) = elim (get_certificate_name_from_cert lib cert) [
  | err e ↦ err no_credentials
  | panic ↦ panic
  | ok names ↦
      if not (names.purpose == service_purpose)
      then err no_credentials
      else ok (record {
        agent_identity = names.agent;
        endpoint_type = names.type;
        endpoint_name = names.name;
      })
]

-- The token of a Bearer header, or the empty text.
unfoldable pub bearer_token : String → String
bearer_token auth = elim (split_at_space auth) [
  | none ↦ ""
  | some (scheme, token) ↦ if scheme == "Bearer" then token else ""
]

module _ (basic_auth : String → Option (String × String)) where
  -- The first of the three that is not empty; `none` if the last one is not there.
  unfoldable pub auth_password : Header → Option String
  unfolding header_get bearer_token
  auth_password h =
      let special = header_get token_header h in
      let auth = header_get "Authorization" h in
      let bearer = bearer_token auth in
      if not (is_empty_text special)
      then some special
      else if not (is_empty_text bearer)
      then some bearer
      else elim (basic_auth auth) [ none ↦ none | some (username, password) ↦ some password ]

  -- The header is handed on without our own field.
  unfoldable pub extract_endpoint_from_jwt :
      Registry → ℕ → Header → Result Refusal Identity × Header
  unfolding auth_password header_del
  extract_endpoint_from_jwt tokens now h = (
    elim (auth_password h) [
      | none ↦ err no_credentials
      | some password ↦ elim (validate_jwt tokens password now) [
        | err e ↦ err no_credentials
        | panic ↦ panic
        | ok (endpoint_type, endpoint_name, agent) ↦ ok (record {
          agent_identity = agent;
          endpoint_type = endpoint_type;
          endpoint_name = endpoint_name;
        })
      ]
    ],
    header_del token_header h,
  )

  unfoldable pub extract_endpoint :
      Crypto → Registry → ℕ → List Certificate → Header → Result Refusal Identity × Header
  unfolding extract_endpoint_from_cert extract_endpoint_from_jwt
  extract_endpoint lib tokens now certs h = elim (extract_endpoint_from_cert lib certs) [
    | ok who ↦ (ok who, h)
    | panic ↦ (panic, h)
    | err e ↦ extract_endpoint_from_jwt tokens now h
  ]

-- Where `secureAPIHandlerMaker` sends a request of the identity.
unfoldable pub search_of : Identity → Search
search_of who = record {
  name = who.agent_identity;
  endpoint_type = who.endpoint_type;
  endpoint_name = who.endpoint_name;
  session = "";
}
