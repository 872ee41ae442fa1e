-- ===== src/Command/Serve/Meant.antt =====
-- How a server of command/server.go is set up and ends, by the flags.
use webcb.Base.{
  ◌≡◌, ◌⊎◌, inl, inr, refl, ◌∙◌, ap, subst, Bytes, Bool, true, false, List, [], ◌∷◌, ◌++◌, Option,
  none, some, Result, ok, err, Error, Bool-cases,
}
use webcb.Base.Int.{pos, positive}
use webcb.Base.Try.{bind_inverse}
use webcb.Server.Config.{Config, Setup, server_tls}
use webcb.Server.Config.Laws.{Safe, Configured}
use webcb.Tls.{ClientAuth}
use webcb.Tls.Laws.{Loaded}
use webcb.Command.Dial.{described}
use webcb.Command.Dial.Laws.{described_inverse, ca_read}
use webcb.Command.{
  Flags, is_empty, dev_mode_flag, tls_ca_flag, tls_cert_flag, tls_key_flag,
  grpc_max_received_bytes_flag,
}
use webcb.Command.Serve.{Host, Deed, T, Files, files, options, stop, ending}

module _ {Addr Pool Certificate : Type 0} (host : Host Addr Pool Certificate) (flags : Flags) where
  abbrev D : Type 0
  D = Deed Addr (T host flags)

  -- What the files of the flags hold: the certificate, its key, and the authority if it is named.
  pub record Read (ca cert key : Bytes) : Type 0 where
    pub authority :
        ((is_empty (flags.string tls_ca_flag) ≡ true) × (ca ≡ []))
        ⊎ ((is_empty (flags.string tls_ca_flag) ≡ false)
            × (host.read_file (flags.string tls_ca_flag) ≡ ok ca))
    pub certificate : host.read_file (flags.string tls_cert_flag) ≡ ok cert
    pub private_key : host.read_file (flags.string tls_key_flag) ≡ ok key

  -- A TLS configuration that has what is loaded from those files, and asks clients for a certificate.
  pub record Certified (t : T host flags) : Type 0 where
    pub ca : Bytes
    pub cert : Bytes
    pub key : Bytes
    pub read : Read ca cert key
    pub holds :
        Loaded host.append_certs host.x509_key_pair ca cert key
          (server_tls host.append_certs host.x509_key_pair)
          t
    pub asks : t.client_auth ≡ ClientAuth.require_and_verify_client_cert

  abbrev pub Limited : Config → Type 0
  Limited c =
      ((positive (flags.int grpc_max_received_bytes_flag) ≡ true)
        × (c.grpc_max_recv_size ≡ flags.int grpc_max_received_bytes_flag))
      ⊎ ((positive (flags.int grpc_max_received_bytes_flag) ≡ false)
          × (c.grpc_max_recv_size ≡ pos 209_715_200))

  -- How the flags let a server be set up.
  abbrev pub Meant : Setup (T host flags) → Type 0
  Meant (Setup.plain c) = (flags.boolean dev_mode_flag ≡ true) × Limited c
  Meant (Setup.secured c t) = (flags.boolean dev_mode_flag ≡ false) × Certified t × Limited c

  -- how a server ends: its error may be logged, and a graceful stop may be followed by a forced one
  pub record Stopped (deeds : List D) : Type 0 where
    pub logs : List D
    pub forced : List D
    pub logged : (logs ≡ []) ⊎ ((e : Error) × (logs ≡ Deed.logged e ∷ []))
    pub at_last : (forced ≡ []) ⊎ (forced ≡ Deed.forced_stop ∷ [])
    pub whole : deeds ≡ logs ++ Deed.graceful_stop ∷ forced

  files-Read :
      (f : Files host flags)
      → flags.boolean dev_mode_flag ≡ false
      → files host flags ≡ ok f
      → Read f.ca f.cert f.key
  unfolding files
  files-Read f d h =
      let (ca, a, h1) = bind_inverse _ _ f (rw d at h) in
      let (cert, b, h2) =
        bind_inverse
          (described "unable to read certificate: " (host.read_file (flags.string tls_cert_flag))) _
          f h1 in
      let (key, k, h3) =
        bind_inverse
          (described "unable to read certificate key: "
            (host.read_file (flags.string tls_key_flag)))
          _ f h2 in
      subst (λ (x : Files host flags). Read x.ca x.cert x.key) (ap (files_of f) h3)
        (record {
          authority =
              ca_read (is_empty (flags.string tls_ca_flag)) ca
                (host.read_file (flags.string tls_ca_flag)) a;
          certificate = described_inverse _ _ cert b;
          private_key = described_inverse _ _ key k;
        })
    where
      files_of : Files host flags → Result (Files host flags) → Files host flags
      files_of g (ok x) = x
      files_of g (err e) = g

  Limited-options :
      (f : Files host flags) (c : Config) → Configured (options host flags f) c → Limited c
  Limited-options f c q = elim (Bool-cases (positive (flags.int grpc_max_received_bytes_flag))) [
    | inl e ↦ inl (e, ap (λ (x : Config). x.grpc_max_recv_size) q ∙ rw e refl)
    | inr e ↦ inr (e, ap (λ (x : Config). x.grpc_max_recv_size) q ∙ rw e refl)
  ]

  pub Meant-Safe :
      (f : Files host flags) (setup : Setup (T host flags))
      → files host flags ≡ ok f
      → Safe host.append_certs host.x509_key_pair (options host flags f) setup
      → Meant setup
  Meant-Safe f (Setup.plain c) h (d, q, _) = (d, Limited-options f c q)
  Meant-Safe f (Setup.secured c t) h (d, q, l, a, _) = (
    d,
    record { ca = f.ca; cert = f.cert; key = f.key; read = files-Read f d h; holds = l; asks = a },
    Limited-options f c q,
  )

  pub Stopped-stop :
      (signalled : Bool) (e done : Option Error)
      → Stopped (ending host flags signalled e ++ (stop done).1)
  unfolding ending stop
  Stopped-stop signalled e done = record {
    logs = ending host flags signalled e;
    forced = after done;
    logged = logging signalled e;
    at_last = last_deed done;
    whole = ap (λ l. ending host flags signalled e ++ l) (stopping done);
  }
    where
      after : Option Error → List D
      after none = []
      after (some x) = Deed.forced_stop ∷ []

      last_deed : (o : Option Error) → (after o ≡ []) ⊎ (after o ≡ Deed.forced_stop ∷ [])
      last_deed none = inl refl
      last_deed (some x) = inr refl

      stopping : (o : Option Error) → (stop o).1 ≡ Deed.graceful_stop ∷ after o
      stopping none = refl
      stopping (some x) = refl

      logging :
          (b : Bool) (o : Option Error)
          → (ending host flags b o ≡ [])
            ⊎ ((x : Error) × (ending host flags b o ≡ Deed.logged x ∷ []))
      logging b none = inl refl
      logging true (some x) = inl refl
      logging false (some x) = inr (x, refl)
