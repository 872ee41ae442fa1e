-- ===== src/Server/Config.antt =====
-- The options of server/option.go and how `NewServer` of server/server.go applies them.
pub mod Laws
use webcb.Base.{
  ℕ, Bool, true, false, ◌||◌, List, [], ◌∷◌, Option, none, some, Result, ok, err, Error, message,
  Bytes, length, ltb, ◌==◌, if◌then◌else◌,
}
use webcb.Tls.{TlsConfig, ClientAuth, empty_config, load_certificate}
use webcb.Base.Int.{ℤ, pos, positive}

-- 200 << 20
abbrev pub default_grpc_max_recv_size : ℤ
default_grpc_max_recv_size = pos 209_715_200

pub record Config : Type 0 where
  pub grpc_max_recv_size : ℤ
  pub ca : Bytes
  pub cert : Bytes
  pub key : Bytes
  pub dev : Bool

pub default_option : Config
default_option = record {
  grpc_max_recv_size = default_grpc_max_recv_size;
  ca = [];
  cert = [];
  key = [];
  dev = false;
}

-- The functions that make an `Option` of the server.
pub data ServerOption : Type 0 where
  with_grpc_max_recv_size : ℤ → ServerOption
  with_credentials : Bytes → Bytes → ServerOption
  with_certificate_authority : Bytes → ServerOption
  with_dev_mode : Bool → ServerOption

unfoldable pub apply : ServerOption → Config → Config
apply (with_grpc_max_recv_size size) c =
    if positive size then record c { grpc_max_recv_size = size } else c
apply (with_credentials cert key) c = record c { cert = cert; key = key }
apply (with_certificate_authority ca) c = record c { ca = ca }
apply (with_dev_mode enable) c = record c { dev = enable }

pub apply_all : List ServerOption → Config → Config
unfolding apply
apply_all [] c = c
apply_all (o ∷ os) c = apply_all os (apply o c)

-- How the gRPC server is set up: without TLS, or with a TLS configuration.
pub data Setup (T : Type 0) : Type 0 where
  plain : Config → Setup T
  secured : Config → T → Setup T

module _ {Pool Certificate : Type 0} (append_certs : Bytes → Option Pool)
    (x509_key_pair : Bytes → Bytes → Result Certificate) where
  -- the TLS configuration that `NewServer` starts with
  abbrev pub server_tls : TlsConfig Pool Certificate
  server_tls = record empty_config { client_auth = ClientAuth.require_and_verify_client_cert }

  -- `LoadCertificate` of internal/tls, into that configuration
  abbrev pub loaded : Config → Result (TlsConfig Pool Certificate)
  loaded c = load_certificate append_certs x509_key_pair c.ca c.cert c.key server_tls

  with_tls :
      Config → Result (TlsConfig Pool Certificate) → Result (Setup (TlsConfig Pool Certificate))
  with_tls c (ok t) = ok (Setup.secured c t)
  with_tls c (err e) = err e

  -- `NewServer` up to the server that it makes.
  unfoldable pub new_server : List ServerOption → Result (Setup (TlsConfig Pool Certificate))
  unfolding with_tls apply_all default_option
  new_server opts =
      let c = apply_all opts default_option in
      if c.dev
      then ok (Setup.plain c)
      else if (length c.cert == 0) || (length c.key == 0)
      then err (message "tls certificate is required in non dev mode environment")
      else with_tls c (loaded c)
