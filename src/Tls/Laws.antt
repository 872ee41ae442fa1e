-- ===== src/Tls/Laws.antt =====
-- What a call of `LoadCertificate` of internal/tls/tls.go that succeeds has loaded.
use webcb.Base.{
  ◌≡◌, ◌⊎◌, refl, sym, ap, subst, ◌<◌, arith, ◌||◌, [], ◌∷◌, ◌++◌, Option, none, some, Result, ok,
  err, Error, Bytes, length, ◌==◌, if◌then◌else◌, Bool-cases, inl, inr,
}
use webcb.Tls.{
  TlsConfig, pool_of, load_root_ca, load_key_pair, installed, with_pool, optional, load_certificate,
}

module _ {Pool Certificate : Type 0} (append_certs : Bytes → Option Pool)
    (x509_key_pair : Bytes → Bytes → Result Certificate) where
  abbrev Tls : Type 0
  Tls = TlsConfig Pool Certificate

  -- the pool of the authority, or none if no authority is given
  abbrev pub Authority : Bytes → Option Pool → Type 0
  Authority ca o =
      ((length ca ≡ 0) × (o ≡ none))
      ⊎ ((0 < length ca) × ((pool : Pool) × (append_certs ca ≡ some pool) × (o ≡ some pool)))

  -- The pair was parsed and added, and the authority's pool, if one is given, serves both roles.
  pub record Loaded (ca cert key : Bytes) (config t : Tls) : Type 0 where
    pub certificate : Certificate
    pub parsed : x509_key_pair cert key ≡ ok certificate
    pub certificates : t.certificates ≡ config.certificates ++ certificate ∷ []
    pub not_empty : (0 < length cert) × (0 < length key)
    pub client_cas : Authority ca t.client_cas
    pub same_auth : t.client_auth ≡ config.client_auth
    pub same_cas : t.root_cas ≡ t.client_cas

  abbrev value_of : Tls → Result Tls → Tls
  value_of t (ok x) = x
  value_of t (err e) = t

  Loaded-installed :
      (ca cert key : Bytes) (config t : Tls) (pool : Option Pool) (r : Result Certificate)
      → x509_key_pair cert key ≡ r
      → (0 < length cert) × (0 < length key)
      → Authority ca pool
      → installed append_certs x509_key_pair config pool r ≡ ok t
      → Loaded ca cert key config t
  unfolding installed
  Loaded-installed ca cert key config t pool (err e) h n q g = absurd (ground arith)
  Loaded-installed ca cert key config t pool (ok c) h n q g =
      subst (Loaded ca cert key config) (ap (value_of t) g) (record {
        certificate = c;
        parsed = h;
        certificates = refl;
        not_empty = n;
        client_cas = q;
        same_cas = refl;
        same_auth = refl;
      })

  Loaded-with_pool :
      (ca cert key : Bytes) (config t : Tls) (r : Result (Option Pool))
      → ((pool : Option Pool) → r ≡ ok pool → Authority ca pool)
      → with_pool append_certs x509_key_pair cert key config r ≡ ok t
      → Loaded ca cert key config t
  unfolding with_pool load_key_pair
  Loaded-with_pool ca cert key config t (err e) q g = absurd (ground arith)
  Loaded-with_pool ca cert key config t (ok pool) q g =
      elim (Bool-cases ((length cert == 0) || (length key == 0))) [
        | inl z ↦ absurd (refused (rw z at g))
        | inr nz ↦
            Loaded-installed ca cert key config t pool (x509_key_pair cert key) refl
              (ground arith, ground arith) (q pool refl) (rw nz at g)
      ]
    where
      refused : {e : Error} → ◌≡◌ {A = Result Tls} (err e) (ok t) → ⊥
      refused h = ground arith

  pool_given :
      (o : Option Pool) (pool : Option Pool)
      → optional append_certs x509_key_pair (pool_of append_certs x509_key_pair o) ≡ ok pool
      → (p : Pool) × (o ≡ some p) × (pool ≡ some p)
  unfolding optional pool_of
  pool_given none pool h = absurd (ground arith)
  pool_given (some p) pool h = (p, refl, ap pool_value (sym h))
    where
      pool_value : Result (Option Pool) → Option Pool
      pool_value (ok x) = x
      pool_value (err e) = none

  none_given :
      (pool : Option Pool) → ◌≡◌ {A = Result (Option Pool)} (ok none) (ok pool) → pool ≡ none
  none_given pool h = ap pool_value (sym h)
    where
      pool_value : Result (Option Pool) → Option Pool
      pool_value (ok x) = x
      pool_value (err e) = pool

  -- `LoadCertificate` that succeeds was given a certificate and a key that are not empty, added just
  -- the certificate parsed from them, and set the pool that was made of the authority for both
  -- roles, or no pool if no authority is given. What is asked of clients it left as it was.
  pub load_certificate-Loaded :
      (ca cert key : Bytes) (config t : Tls)
      → load_certificate append_certs x509_key_pair ca cert key config ≡ ok t
      → Loaded ca cert key config t
  unfolding load_certificate load_root_ca
  load_certificate-Loaded ca cert key config t h = Loaded-with_pool ca cert key config t _ pools h
    where
      pools :
          (pool : Option Pool)
          → (if length ca == 0
              then ok none
              else optional append_certs x509_key_pair (load_root_ca append_certs x509_key_pair ca))
            ≡ ok pool
          → Authority ca pool
      pools pool e = elim (Bool-cases (length ca == 0)) [
        | inl z ↦ inl (ground arith, none_given pool (rw z at e))
        | inr nz ↦ inr (ground arith, pool_given (append_certs ca) pool (rw nz at e))
      ]
