-- ===== src/Service/Generic/Make.antt =====
-- generic_endpoint.go, `MakeGenericEndpoint`. The YAML library is the argument `unmarshal`.
use Prim.Native.Char.{code}
use oes_birger.Prelude.{
  String, Bool, ◌&&◌, List, Option, none, some, if◌then◌else◌, eqb, Result, ok, err, panic, ◌>>=◌,
}
use oes_birger.Text.{is_empty_text}
use oes_birger.Service.Generic.{Credentials, GenericEndpoint, Error, load_secrets}

pub record GenericConfig : Type 0 where
  pub url : String
  pub insecure : Bool
  pub credentials : Credentials

-- `strings.TrimSuffix(url, "/")`: one slash at the end is taken off.
unfoldable pub trim_slash : String → String
unfolding is_empty_text
trim_slash String.[] = ""
trim_slash (String.◌∷◌ c s) =
    let rest = trim_slash s in
    if eqb (code c) b'/' && is_empty_text s then "" else String.◌∷◌ c rest

-- Where the credentials were loaded; a service without a URL is not configured.
unfoldable pub with_credentials :
    String → String → GenericConfig → Credentials → Option GenericEndpoint
unfolding trim_slash
with_credentials endpoint_type endpoint_name config credentials =
    if is_empty_text config.url
    then none
    else some (record {
      endpoint_type = endpoint_type;
      endpoint_name = endpoint_name;
      url = trim_slash config.url;
      insecure = config.insecure;
      credentials = credentials;
    })

-- The endpoint, or nil where it is not configured; secrets that cannot be loaded are only logged.
unfoldable pub make_generic_endpoint {ℓ} :
    {B : Type ℓ}
    → (B → Result Error GenericConfig)
    → (String → Result Error String)
    → Option (String → Result Error (List (String × String)))
    → String
    → String
    → B
    → Result Error (Option GenericEndpoint)
unfolding load_secrets with_credentials
make_generic_endpoint unmarshal decode get_secret endpoint_type endpoint_name config_bytes = do
  config ← unmarshal config_bytes
  elim (load_secrets decode get_secret config.credentials) [
    | err e ↦ ok none
    | panic ↦ panic
    | ok credentials ↦ ok (with_credentials endpoint_type endpoint_name config credentials)
  ]
