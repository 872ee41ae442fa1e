-- ===== src/Command/Dial.antt =====
-- How the commands of the command folder that call a server connect to it: the same lines of clear.go,
-- copy.go, paste.go and status.go.
pub mod Laws
use webcb.Base.{
  ℕ, Bool, true, false, List, [], ◌∷◌, ◌++◌, Option, none, some, Result, ok, err, Error, message,
  wrapped, Bytes, decimal, String, length, ◌==◌, if◌then◌else◌,
}
use webcb.Base.Int.{ℤ, is_zero}
use webcb.Base.Try.{◌>>=◌}
use webcb.Tls.{TlsConfig, empty_config, load_certificate}
use webcb.Command.{
  Flags, is_empty, host_flag, port_flag, tls_cert_flag, tls_key_flag, tls_ca_flag,
  conn_insecure_flag, conn_timeout_flag, default_client_addr, default_client_conn_timeout,
}

-- `grpc.WithTransportCredentials`
pub data Credentials (T : Type 0) : Type 0 where
  insecure : Credentials T
  secure : T → Credentials T

-- What the commands use of the machine and of gRPC: reading files, joining a host and a port, parsing
-- certificates, and `grpc.DialContext` with an address, credentials and a timeout.
pub record Machine (Pool Certificate Conn : Type 0) : Type 0 where
  pub read_file : Bytes → Result Bytes
  pub join_host_port : Bytes → Bytes → Bytes
  pub append_certs : Bytes → Option Pool
  pub x509_key_pair : Bytes → Bytes → Result Certificate
  pub dial : Bytes → Credentials (TlsConfig Pool Certificate) → ℤ → Result Conn

-- `fmt.Errorf` with the error of a call
pub described : {A : Type 0} → String → Result A → Result A
described text (err e) = err (wrapped text e)
described text (ok a) = ok a

module _ {Pool Certificate Conn : Type 0} (machine : Machine Pool Certificate Conn)
    (flags : Flags) where
  abbrev pub Creds : Type 0
  Creds = Credentials (TlsConfig Pool Certificate)

  abbrev pub address : Bytes
  address =
      let host = flags.string host_flag in
      machine.join_host_port (if is_empty host then default_client_addr else host)
        (decimal (flags.uint64 port_flag))

  abbrev pub connexion_timeout : ℤ
  connexion_timeout =
      let timeout = flags.duration conn_timeout_flag in
      if is_zero timeout then default_client_conn_timeout else timeout

  -- the files of the flags, and `LoadCertificate`
  loading : Result (TlsConfig Pool Certificate)
  unfolding described
  loading = do
    ca ←
        if is_empty (flags.string tls_ca_flag)
        then ok []
        else described "unable to read root certificate: "
            (machine.read_file (flags.string tls_ca_flag))
    cert ← described "unable to read certificate: " (machine.read_file (flags.string tls_cert_flag))
    key ←
        described "unable to read certificate key: " (machine.read_file (flags.string tls_key_flag))
    load_certificate machine.append_certs machine.x509_key_pair ca cert key empty_config

  pub credentials : Result Creds
  unfolding loading
  credentials =
      if flags.boolean conn_insecure_flag
      then ok Credentials.insecure
      else if is_empty (flags.string tls_cert_flag)
      then err (message "tls certificate is required in secure connection mode")
      else if is_empty (flags.string tls_key_flag)
      then err (message "tls certificate key is required in secure connection mode")
      else (loading >>= λ t. ok (Credentials.secure t))
