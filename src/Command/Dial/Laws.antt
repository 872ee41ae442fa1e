-- ===== src/Command/Dial/Laws.antt =====
-- What credentials the commands of the command folder that call a server use.
use webcb.Base.{
  ◌≡◌, ◌⊎◌, inl, inr, refl, sym, ap, subst, Bool, true, false, [], arith, Result, ok, err, message,
  Bytes, String, if◌then◌else◌,
}
use webcb.Base.Try.{◌>>=◌, bind_inverse}
use webcb.Tls.{TlsConfig, empty_config, load_certificate}
use webcb.Command.{Flags, is_empty, tls_cert_flag, tls_key_flag, tls_ca_flag, conn_insecure_flag}
use webcb.Command.Dial.{Credentials, Machine, Creds, described, loading, credentials}

pub described_inverse :
    {A : Type 0} (prefix : String) (r : Result A) (a : A) → described prefix r ≡ ok a → r ≡ ok a
unfolding described
described_inverse prefix (err e) a h = absurd (ground arith)
described_inverse prefix (ok b) a h = h

-- the authority's bytes: none, or those of its file
pub ca_read :
    (no_ca : Bool) (ca : Bytes) (r : Result Bytes)
    → (if no_ca then ok [] else described "unable to read root certificate: " r) ≡ ok ca
    → ((no_ca ≡ true) × (ca ≡ [])) ⊎ ((no_ca ≡ false) × (r ≡ ok ca))
ca_read true ca r h = inl (refl, ap bytes_of (sym h))
  where
    bytes_of : Result Bytes → Bytes
    bytes_of (ok x) = x
    bytes_of (err e) = []
ca_read false ca r h = inr (refl, described_inverse "unable to read root certificate: " r ca h)

module _ {Pool Certificate Conn : Type 0} (machine : Machine Pool Certificate Conn)
    (flags : Flags) where
  abbrev T : Type 0
  T = TlsConfig Pool Certificate

  -- What the flags let the command use: no security on demand, or else the certificate and the key
  -- of two files, and the authority of a third one if it is named.
  pub record Loads (t : T) : Type 0 where
    pub named :
        (is_empty (flags.string tls_cert_flag) ≡ false)
        × (is_empty (flags.string tls_key_flag) ≡ false)
    pub ca : Bytes
    pub cert : Bytes
    pub key : Bytes
    pub authority :
        ((is_empty (flags.string tls_ca_flag) ≡ true) × (ca ≡ []))
        ⊎ ((is_empty (flags.string tls_ca_flag) ≡ false)
            × (machine.read_file (flags.string tls_ca_flag) ≡ ok ca))
    pub certificate : machine.read_file (flags.string tls_cert_flag) ≡ ok cert
    pub private_key : machine.read_file (flags.string tls_key_flag) ≡ ok key
    pub made :
        load_certificate machine.append_certs machine.x509_key_pair ca cert key empty_config ≡ ok t

  abbrev pub Trusted : Creds machine flags → Type 0
  Trusted Credentials.insecure = flags.boolean conn_insecure_flag ≡ true
  Trusted (Credentials.secure t) = (flags.boolean conn_insecure_flag ≡ false) × Loads t

  Loads-loading :
      (t : T)
      → is_empty (flags.string tls_cert_flag) ≡ false
      → is_empty (flags.string tls_key_flag) ≡ false
      → loading machine flags ≡ ok t
      → Loads t
  unfolding loading
  Loads-loading t c k h =
      let (ca, a, h1) = bind_inverse _ _ t h in
      let (cert, b, h2) =
        bind_inverse
          (described "unable to read certificate: "
            (machine.read_file (flags.string tls_cert_flag)))
          _ t h1 in
      let (key, d, h3) =
        bind_inverse
          (described "unable to read certificate key: "
            (machine.read_file (flags.string tls_key_flag)))
          _ t h2 in
      record {
        named = (c, k);
        ca = ca;
        cert = cert;
        key = key;
        authority =
            ca_read (is_empty (flags.string tls_ca_flag)) ca
              (machine.read_file (flags.string tls_ca_flag)) a;
        certificate = described_inverse _ _ cert b;
        private_key = described_inverse _ _ key d;
        made = h3;
      }

  abbrev creds_of : Creds machine flags → Result (Creds machine flags) → Creds machine flags
  creds_of d (ok c) = c
  creds_of d (err e) = d

  pub credentials-Trusted : (c : Creds machine flags) → credentials machine flags ≡ ok c → Trusted c
  unfolding credentials
  credentials-Trusted c h =
      choose (flags.boolean conn_insecure_flag) (is_empty (flags.string tls_cert_flag))
        (is_empty (flags.string tls_key_flag)) refl refl refl h
    where
      choose :
          (insecure no_cert no_key : Bool)
          → flags.boolean conn_insecure_flag ≡ insecure
          → is_empty (flags.string tls_cert_flag) ≡ no_cert
          → is_empty (flags.string tls_key_flag) ≡ no_key
          → (if insecure
              then ok Credentials.insecure
              else if no_cert
              then err (message "tls certificate is required in secure connection mode")
              else if no_key
              then err (message "tls certificate key is required in secure connection mode")
              else (loading machine flags >>= λ t. ok (Credentials.secure t)))
            ≡ ok c
          → Trusted c
      choose true no_cert no_key i a b h = subst Trusted (ap (creds_of c) h) i
      choose false true no_key i a b h = absurd (ground arith)
      choose false false true i a b h = absurd (ground arith)
      choose false false false i a b h =
          let (t, l, e) = bind_inverse (loading machine flags) _ c h in
          subst Trusted (ap (creds_of c) e) (i, Loads-loading t a b l)
