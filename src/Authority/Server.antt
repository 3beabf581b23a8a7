-- ===== src/Authority/Server.antt =====
-- internal/ca/ca.go: the making of a new authority, the certificate of the controller's server, and the
-- pool against which the certificates of clients are checked. Times are in nanoseconds. `x509_key_pair`
-- is `tls.X509KeyPair`; what `AppendCertsFromPEM` makes of a pool is an argument too.
use oes_birger.Prelude.{ℕ, ◌-◌, String, true, false, List, [], ◌∷◌, ◌++◌, Result, ok, ◌>>=◌}
use oes_birger.Authority.{Bytes, Certificate, Crypto, KeyPair, Ca, Error, leaf, to_pem}

-- `now.Add(-10 * time.Second)`.
abbrev pub ten_seconds_before : ℕ → ℕ
ten_seconds_before now = now - 10000000000

module _ (lib : Crypto) where
  unfoldable pub root_template : ℕ → Certificate
  root_template now = record {
    serial_number = now;
    common_name = "";
    organization = "OpsMx API Forwarder CA" ∷ [];
    organizational_unit = [];
    country = "US" ∷ [];
    dns_names = [];
    not_before = ten_seconds_before now;
    not_after = lib.add_years 10 now;
    is_ca = true;
  }

  -- The certificate signs itself; it and its key are given as PEM.
  unfoldable pub make_certificate_authority : ℕ → ℕ → Result Error (Bytes × Bytes)
  unfolding root_template to_pem
  make_certificate_authority now random = do
    priv ← lib.generate_key random
    cert_bytes ← lib.create_certificate (root_template now) (root_template now) priv priv
    cert_pem ← to_pem lib cert_bytes "CERTIFICATE"
    key_pem ← to_pem lib (lib.marshal_private_key priv) "RSA PRIVATE KEY"
    ok (cert_pem, key_pem)

  unfoldable pub server_template : List String → ℕ → Certificate
  server_template names now = record {
    serial_number = now;
    common_name = "";
    organization = "OpsMx API Forwarder Server Certificate" ∷ [];
    organizational_unit = [];
    country = "US" ∷ [];
    dns_names = names;
    not_before = ten_seconds_before now;
    not_after = lib.add_years 1 now;
    is_ca = false;
  }

  unfoldable pub make_server_cert :
      (Bytes → Bytes → Result Error KeyPair) → Ca → List String → ℕ → ℕ → Result Error KeyPair
  unfolding server_template to_pem
  make_server_cert x509_key_pair c names now random = do
    issuer_bytes ← leaf c.ca_cert.certificate
    ca_cert ← lib.parse_certificate issuer_bytes
    key ← lib.generate_key random
    bytes ← lib.create_certificate (server_template names now) ca_cert key c.ca_cert.private_key
    cert_pem ← to_pem lib bytes "CERTIFICATE"
    key_pem ← to_pem lib (lib.marshal_private_key key) "RSA PRIVATE KEY"
    x509_key_pair cert_pem key_pem

  unfoldable pub get_ca_certificate : Ca → Result Error Bytes
  get_ca_certificate c = leaf c.ca_cert.certificate

  -- The loop over the chain; a pool is the list of its certificates.
  unfoldable pub add_chain :
      (Bytes → List Certificate → List Certificate)
      → List Bytes
      → List Certificate
      → Result Error (List Certificate)
  add_chain append_from_pem [] pool = ok pool
  add_chain append_from_pem (cert ∷ chain) pool = do
    x ← lib.parse_certificate cert
    add_chain append_from_pem chain (append_from_pem cert (pool ++ x ∷ []))

  unfoldable pub make_cert_pool :
      (Bytes → List Certificate → List Certificate) → Ca → Result Error (List Certificate)
  unfolding add_chain
  make_cert_pool append_from_pem c = add_chain append_from_pem c.ca_cert.certificate []
