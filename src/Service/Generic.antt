-- ===== src/Service/Generic.antt =====
-- internal/serviceconfig/generic_endpoint.go: an endpoint that is called over HTTP with credentials of
-- its own; here its configuration, and how the credentials are loaded. Base64 is the parameter `decode`,
-- the secret store `get_secret`. The children hold the rest of the file.
pub mod Uri
pub mod Make
pub mod Execute
pub mod Sent
use Prim.Native.Char.{Char, code}
use oes_birger.Prelude.{
  ℕ, String, ◌==◌, Bool, true, false, not, ◌&&◌, ◌||◌, List, [], ◌∷◌, Option, none, some,
  if◌then◌else◌, eqb, leb, lookup, Result, ok, err, panic, ◌>>=◌,
}
use oes_birger.Text.{is_empty_text, concat}
use oes_birger.Jwt.{Registry, Mutation, unmutate_header, mutation_is_registered}
use oes_birger.Jwt
use oes_birger.Tunnel.Messages.{
  MessageWrapper, HttpHeader, OpenHttpTunnelRequest, make_bad_gateway_response,
}
use oes_birger.Tunnel.Headers.{Header, copy_headers, header_set}
use oes_birger.Tunnel.Cancel.{CancelRegistry, register_cancel_function, unregister_cancel_function}
use oes_birger.Tunnel.Request.{HttpResponse, Run, run_http_request}

pub record Credentials : Type 0 where
  pub type : String
  pub username : String
  pub password : String
  pub token : String
  pub secret_name : String
  pub raw_username : String
  pub raw_password : String
  pub raw_token : String

pub record GenericEndpoint : Type 0 where
  pub endpoint_type : String
  pub endpoint_name : String
  pub url : String
  pub insecure : Bool
  pub credentials : Credentials

pub data Error : Type 0 where
  missing : String → Error
  unknown_type : String → Error
  outside_cluster : Error
  secret_not_wanted : Error
  library : String → Error

abbrev pub is_token_type : String → Bool
is_token_type type = type == "bearer" || type == "token"

unfoldable pub load_base64_secrets :
    (String → Result Error String) → Credentials → Result Error Credentials
load_base64_secrets decode c =
    if c.type == "none" || c.type == ""
    then ok (record c { type = "none" })
    else if c.type == "basic"
    then (if is_empty_text c.username || is_empty_text c.password
        then err (missing "username or password")
        else (do
          raw_username ← decode c.username
          raw_password ← decode c.password
          ok (record c { raw_username = raw_username; raw_password = raw_password })))
    else if is_token_type c.type
    then (if is_empty_text c.token
        then err (missing "token")
        else (do raw_token ← decode c.token; ok (record c { raw_token = raw_token })))
    else err (unknown_type c.type)

-- An item that is there and not empty.
unfoldable pub get_item : List (String × String) → String → Option String
get_item m key = elim (lookup key m) [
  | none ↦ none
  | some s ↦ if is_empty_text s then none else some s
]

abbrev pub need : String → Option String → Result Error String
need what none = err (missing what)
need what (some s) = ok s

unfoldable pub take_from_secret : Credentials → List (String × String) → Result Error Credentials
unfolding get_item
take_from_secret c secret =
    if c.type == "basic"
    then (do
      username ← need "username" (get_item secret "username")
      password ← need "password" (get_item secret "password")
      ok (record c { raw_username = username; raw_password = password }))
    else if is_token_type c.type
    then (do token ← need "token" (get_item secret "token"); ok (record c { raw_token = token }))
    else err (unknown_type c.type)

-- `none` is a nil loader.
unfoldable pub load_kubernetes_secrets :
    Option (String → Result Error (List (String × String))) → Credentials → Result Error Credentials
unfolding take_from_secret
load_kubernetes_secrets none c = err outside_cluster
load_kubernetes_secrets (some get_secret) c =
    if c.type == "none" || c.type == ""
    then err secret_not_wanted
    else (do secret ← get_secret c.secret_name; take_from_secret c secret)

unfoldable pub load_secrets :
    (String → Result Error String)
    → Option (String → Result Error (List (String × String)))
    → Credentials
    → Result Error Credentials
unfolding load_base64_secrets load_kubernetes_secrets
load_secrets decode get_secret c =
    if is_empty_text c.secret_name
    then load_base64_secrets decode c
    else load_kubernetes_secrets get_secret c
