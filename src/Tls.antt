-- ===== src/Tls.antt =====
-- internal/tls/tls.go; `AppendCertsFromPEM` and `X509KeyPair` of Go's libraries are parameters.
pub mod Laws
use webcb.Base.{
  ◌||◌, List, [], ◌∷◌, ◌++◌, Option, none, some, Result, ok, err, message, Bytes, length, ◌==◌,
  if◌then◌else◌,
}

-- `tls.ClientAuthType`: its zero value, and the one that the server sets.
pub data ClientAuth : Type 0 where
  no_client_cert require_and_verify_client_cert : ClientAuth

-- The fields of `tls.Config` that the program sets.
pub record TlsConfig (Pool Certificate : Type 0) : Type 0 where
  pub certificates : List Certificate
  pub root_cas : Option Pool
  pub client_cas : Option Pool
  pub client_auth : ClientAuth

-- `&tls.Config{}`
abbrev pub empty_config : {Pool Certificate : Type 0} → TlsConfig Pool Certificate
empty_config = record {
  certificates = [];
  root_cas = none;
  client_cas = none;
  client_auth = ClientAuth.no_client_cert;
}

module _ {Pool Certificate : Type 0} (append_certs : Bytes → Option Pool)
    (x509_key_pair : Bytes → Bytes → Result Certificate) where
  abbrev Tls : Type 0
  Tls = TlsConfig Pool Certificate

  -- `AppendCertsFromPEM` gives a pool, or says that it found no certificate.
  pool_of : Option Pool → Result Pool
  pool_of none = err (message "unable to append root certificate to the ca pool")
  pool_of (some pool) = ok pool

  pub load_root_ca : Bytes → Result Pool
  unfolding pool_of
  load_root_ca ca = pool_of (append_certs ca)

  pub load_key_pair : Bytes → Bytes → Result Certificate
  load_key_pair cert key = x509_key_pair cert key

  -- the certificate is added, and the pool set for both roles
  installed : Tls → Option Pool → Result Certificate → Result Tls
  installed config pool (err e) = err e
  installed config pool (ok certificate) = ok (record config {
    certificates = config.certificates ++ certificate ∷ [];
    root_cas = pool;
    client_cas = pool;
  })

  with_pool : Bytes → Bytes → Tls → Result (Option Pool) → Result Tls
  unfolding installed load_key_pair
  with_pool cert key config (err e) = err e
  with_pool cert key config (ok pool) =
      if (length cert == 0) || (length key == 0)
      then err (message "both client certificate and key are required")
      else installed config pool (load_key_pair cert key)

  optional : Result Pool → Result (Option Pool)
  optional (ok pool) = ok (some pool)
  optional (err e) = err e

  unfoldable pub load_certificate : Bytes → Bytes → Bytes → Tls → Result Tls
  unfolding with_pool optional load_root_ca
  load_certificate ca cert key config =
      with_pool cert key config (if length ca == 0 then ok none else optional (load_root_ca ca))
