-- ===== src/Server/Config/Laws.antt =====
-- What any options make of a server.
use webcb.Base.{
  Option, none, some, ◌≡◌, refl, sym, ◌∙◌, ap, subst, message, arith, Bool, true, false, ◌||◌, List,
  [], ◌∷◌, Result, ok, err, Bytes, length, ◌==◌, if◌then◌else◌, Bool-cases, inl, inr,
}
use webcb.Tls.{TlsConfig, ClientAuth}
use webcb.Tls.Laws.{Loaded, load_certificate-Loaded}
use webcb.Base.Int.{ℤ, pos, positive}
use webcb.Server.Config.{
  Config, default_option, ServerOption, apply, apply_all, Setup, server_tls, loaded, with_tls,
  new_server,
}

apply-positive :
    (o : ServerOption) (c : Config)
    → positive c.grpc_max_recv_size ≡ true
    → positive (apply o c).grpc_max_recv_size ≡ true
unfolding apply
apply-positive (ServerOption.with_grpc_max_recv_size size) c h = elim (Bool-cases (positive size)) [
  | inl e ↦ rw e e
  | inr e ↦ rw e h
]
apply-positive (ServerOption.with_credentials cert key) c h = h
apply-positive (ServerOption.with_certificate_authority ca) c h = h
apply-positive (ServerOption.with_dev_mode enable) c h = h

apply_all-positive :
    (os : List ServerOption) (c : Config)
    → positive c.grpc_max_recv_size ≡ true
    → positive (apply_all os c).grpc_max_recv_size ≡ true
unfolding apply_all
apply_all-positive [] c h = h
apply_all-positive (o ∷ os) c h = apply_all-positive os (apply o c) (apply-positive o c h)

-- What an option sets, if it does.
abbrev size_given : ServerOption → Option ℤ
size_given (ServerOption.with_grpc_max_recv_size size) = if positive size then some size else none
size_given (ServerOption.with_credentials cert key) = none
size_given (ServerOption.with_certificate_authority ca) = none
size_given (ServerOption.with_dev_mode enable) = none

abbrev cert_given : ServerOption → Option Bytes
cert_given (ServerOption.with_grpc_max_recv_size size) = none
cert_given (ServerOption.with_credentials cert key) = some cert
cert_given (ServerOption.with_certificate_authority ca) = none
cert_given (ServerOption.with_dev_mode enable) = none

abbrev key_given : ServerOption → Option Bytes
key_given (ServerOption.with_grpc_max_recv_size size) = none
key_given (ServerOption.with_credentials cert key) = some key
key_given (ServerOption.with_certificate_authority ca) = none
key_given (ServerOption.with_dev_mode enable) = none

abbrev ca_given : ServerOption → Option Bytes
ca_given (ServerOption.with_grpc_max_recv_size size) = none
ca_given (ServerOption.with_credentials cert key) = none
ca_given (ServerOption.with_certificate_authority ca) = some ca
ca_given (ServerOption.with_dev_mode enable) = none

abbrev dev_given : ServerOption → Option Bool
dev_given (ServerOption.with_grpc_max_recv_size size) = none
dev_given (ServerOption.with_credentials cert key) = none
dev_given (ServerOption.with_certificate_authority ca) = none
dev_given (ServerOption.with_dev_mode enable) = some enable

abbrev or_else : {A : Type 0} → Option A → A → A
or_else none a = a
or_else (some b) a = b

-- the last value that the options set, or else the given one
abbrev pub last : {A : Type 0} → (ServerOption → Option A) → A → List ServerOption → A
last given a [] = a
last given a (o ∷ os) = last given (or_else (given o) a) os

-- The configuration of which each field is the last one that the options set.
abbrev asked : Config → List ServerOption → Config
asked c os = record {
  grpc_max_recv_size = last size_given c.grpc_max_recv_size os;
  ca = last ca_given c.ca os;
  cert = last cert_given c.cert os;
  key = last key_given c.key os;
  dev = last dev_given c.dev os;
}

-- The configuration that options ask for: a limit of 200 MiB, no files and no development mode, but
-- for what they set last.
abbrev pub Configured : List ServerOption → Config → Type 0
Configured os c = c ≡ record {
  grpc_max_recv_size = last size_given (pos 209_715_200) os;
  ca = last ca_given [] os;
  cert = last cert_given [] os;
  key = last key_given [] os;
  dev = last dev_given false os;
}

apply_all-asked : (os : List ServerOption) (c : Config) → apply_all os c ≡ asked c os
unfolding apply_all apply
apply_all-asked [] c = refl
apply_all-asked (ServerOption.with_grpc_max_recv_size size ∷ os) c =
    elim (Bool-cases (positive size)) [
      | inl e ↦ rw e (apply_all-asked os (record c { grpc_max_recv_size = size }))
      | inr e ↦ rw e (apply_all-asked os c)
    ]
apply_all-asked (ServerOption.with_credentials cert key ∷ os) c =
    apply_all-asked os (record c { cert = cert; key = key })
apply_all-asked (ServerOption.with_certificate_authority ca ∷ os) c =
    apply_all-asked os (record c { ca = ca })
apply_all-asked (ServerOption.with_dev_mode enable ∷ os) c =
    apply_all-asked os (record c { dev = enable })

default-Configured : (os : List ServerOption) → Configured os (apply_all os default_option)
unfolding default_option
default-Configured os = apply_all-asked os default_option

module _ {Pool Certificate : Type 0} (append_certs : Bytes → Option Pool)
    (x509_key_pair : Bytes → Bytes → Result Certificate) where
  abbrev T : Type 0
  T = TlsConfig Pool Certificate

  -- Without TLS just if the options ask for development mode; else with the certificate, the key and
  -- the authority that they ask for loaded, and a certificate asked of every client. The limit on a
  -- message is positive.
  abbrev pub Safe : List ServerOption → Setup T → Type 0
  Safe os (Setup.plain c) =
      (last dev_given false os ≡ true) × Configured os c × (positive c.grpc_max_recv_size ≡ true)
  Safe os (Setup.secured c t) =
      (last dev_given false os ≡ false)
      × Configured os c
      × Loaded append_certs x509_key_pair (last ca_given [] os) (last cert_given [] os)
          (last key_given [] os) (server_tls append_certs x509_key_pair) t
      × (t.client_auth ≡ ClientAuth.require_and_verify_client_cert)
      × (positive c.grpc_max_recv_size ≡ true)

  abbrev Loads : Config → T → Type 0
  Loads c t =
      Loaded append_certs x509_key_pair c.ca c.cert c.key (server_tls append_certs x509_key_pair) t

  Safe-with_tls :
      (os : List ServerOption) (c : Config) (r : Result T)
      → c.dev ≡ false
      → Configured os c
      → loaded append_certs x509_key_pair c ≡ r
      → positive c.grpc_max_recv_size ≡ true
      → (s : Setup T) → with_tls append_certs x509_key_pair c r ≡ ok s
      → Safe os s
  unfolding with_tls
  Safe-with_tls os c (err e) d q l m s h = absurd (ground arith)
  Safe-with_tls os c (ok t) d q l m s h = subst (Safe os) (setup_eq h) (
    sym (ap (λ (x : Config). x.dev) q) ∙ d,
    q,
    subst (λ (x : Config). Loads x t) q loads,
    loads.same_auth,
    m,
  )
    where
      loads : Loads c t
      loads =
          load_certificate-Loaded append_certs x509_key_pair c.ca c.cert c.key
            (server_tls append_certs x509_key_pair) t l

      setup_of : Result (Setup T) → Setup T
      setup_of (ok x) = x
      setup_of (err e) = Setup.plain c

      setup_eq : ◌≡◌ {A = Result (Setup T)} (ok (Setup.secured c t)) (ok s) → Setup.secured c t ≡ s
      setup_eq e = ap setup_of e

  -- Whatever the options, the configuration of a server that `NewServer` makes has in each field what
  -- the last option of that kind set, or else the default: no files, no development mode, and a limit
  -- of 200 MiB, which an option that is not positive does not change. The server is without TLS just
  -- if development mode is on. Otherwise its TLS configuration has exactly the certificate that was
  -- parsed from that certificate and that key, neither of them empty, for clients the pool that was
  -- made of the authority, or none if no authority is given, and asks a certificate of each client.
  -- The limit on messages is positive.
  pub new_server-Safe :
      (os : List ServerOption) (s : Setup T)
      → new_server append_certs x509_key_pair os ≡ ok s
      → Safe os s
  unfolding new_server
  new_server-Safe os s h = made (apply_all os default_option).dev _ refl refl h
    where
      c : Config
      c = apply_all os default_option

      configured : Configured os c
      configured = default-Configured os

      limit : positive c.grpc_max_recv_size ≡ true
      limit = apply_all-positive os default_option refl

      setup_of : Result (Setup T) → Setup T
      setup_of (ok x) = x
      setup_of (err e) = Setup.plain c

      made :
          (dev empty : Bool)
          → c.dev ≡ dev
          → ((length c.cert == 0) || (length c.key == 0)) ≡ empty
          → (if dev
              then ok (Setup.plain c)
              else if empty
              then err (message "tls certificate is required in non dev mode environment")
              else with_tls append_certs x509_key_pair c (loaded append_certs x509_key_pair c))
            ≡ ok s
          → Safe os s
      made true empty d z e =
          subst (Safe os) (ap setup_of e)
            (sym (ap (λ (x : Config). x.dev) configured) ∙ d, configured, limit)
      made false true d z e = absurd (ground arith)
      made false false d z e =
          Safe-with_tls os c (loaded append_certs x509_key_pair c) d configured refl limit s e
