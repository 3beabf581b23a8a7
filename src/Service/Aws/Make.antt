-- ===== src/Service/Aws/Make.antt =====
-- awsapi.go, `MakeAwsEndpoint`. The secret store, the YAML library and the session of the AWS SDK are
-- arguments.
use oes_birger.Prelude.{
  String, ◌==◌, List, Option, none, some, if◌then◌else◌, Result, ok, err, panic, ◌>>=◌,
}
use oes_birger.Text.{is_empty_text}
use oes_birger.Service.Generic.{get_item}

pub record AwsCredentials : Type 0 where
  pub type : String
  pub secret_name : String

-- Static keys, or those of the role of the machine.
pub data Credentials : Type 0 where
  static_credentials : String → String → Credentials
  role_credentials : String → Credentials

-- The signer is made from the credentials.
pub record AwsEndpoint : Type 0 where
  pub creds : Credentials

pub data Error : Type 0 where
  no_secret_name : Error
  no_access_key : Error
  no_secret_access_key : Error
  unknown_type : String → Error
  library : String → Error

abbrev need : Error → Option String → Result Error String
need e none = err e
need e (some s) = ok s

unfoldable pub static_from : List (String × String) → Result Error AwsEndpoint
unfolding get_item
static_from secret = do
  access_key ← need no_access_key (get_item secret "awsAccessKey")
  secret_key ← need no_secret_access_key (get_item secret "awsSecretAccessKey")
  ok (record { creds = static_credentials access_key secret_key })

-- `secretsLoader.GetSecret(name)`, which panics on a nil loader.
unfoldable pub get_secret_of :
    Option (String → Result Error (List (String × String)))
    → String
    → Result Error (List (String × String))
get_secret_of none name = panic
get_secret_of (some get_secret) name = get_secret name

unfoldable pub make_aws_endpoint {ℓ} :
    {B : Type ℓ}
    → (B → Result Error AwsCredentials)
    → Option (String → Result Error (List (String × String)))
    → Result Error String
    → B
    → Result Error AwsEndpoint
unfolding static_from get_secret_of
make_aws_endpoint unmarshal get_secret new_session config_bytes = do
  c ← unmarshal config_bytes
  if c.type == "kubernetes-secret"
      then (if is_empty_text c.secret_name
          then err no_secret_name
          else (do secret ← get_secret_of get_secret c.secret_name; static_from secret))
      else if c.type == "iam"
      then (do session ← new_session; ok (record { creds = role_credentials session }))
      else err (unknown_type c.type)
