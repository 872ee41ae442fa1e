-- ===== src/Command/Serve/Laws.antt =====
-- What the action of command/server.go does.
use webcb.Base.{
  ◌≡◌, ◌≢◌, ◌⊎◌, inl, inr, refl, ap, Bool, true, false, not, ◌&&◌, List, [], ◌∷◌, ◌++◌, arith,
  Option, none, some, Result, ok, err, Error, message, Bool-cases, if◌then◌else◌,
}
use webcb.Base.Int.{ℤ}
use webcb.Base.Try.{◌>>=◌, bind_inverse}
use webcb.Storage.Open.{min_gc_interval}
use webcb.Server.Handlers.{exceeds}
use webcb.Server.Config.{Setup, new_server}
use webcb.Server.Config.Laws.{new_server-Safe}
use webcb.Command.{Flags, is_empty, dev_mode_flag, path_flag, gc_interval_flag}
use webcb.Command.Serve.Meant.{Meant, Stopped, Meant-Safe, Stopped-stop}
use webcb.Command.Serve.{
  Host, Deed, Served, T, config, gc_interval, files, options, start, stop, ending, open_served,
  with_db, with_dir, located, serve_run,
}

module _ {Addr Pool Certificate : Type 0} (host : Host Addr Pool Certificate) (flags : Flags) where
  abbrev D : Type 0
  D = Deed Addr (T host flags)

  abbrev S : Type 0
  S = Served Addr (T host flags)

  -- No server, or just one, which was set up as the flags say.
  abbrev pub Run : List D → Type 0
  Run deeds =
      (deeds ≡ [])
      ⊎ ((addr : Addr) × (setup : Setup (T host flags)) × (later : List D) × (deeds
            ≡ Deed.started addr setup ∷ later)
          × Meant host flags setup
          × Stopped host flags later)

  -- The database was opened, with an interval that is long enough, in memory only in development mode
  -- and without a path, else at a path; and it was closed last.
  pub record Opened (dirs deeds : List D) : Type 0 where
    pub middle : List D
    pub run : Run middle
    pub whole :
        deeds ≡ dirs ++ (Deed.opened_db (config host flags) ∷ (middle ++ Deed.closed_db ∷ []))
    pub interval : exceeds min_gc_interval (config host flags).gc_interval ≡ false
    pub kept :
        (((config host flags).in_memory ≡ true) × (flags.boolean dev_mode_flag ≡ true))
        ⊎ (((config host flags).in_memory ≡ false) × (is_empty (config host flags).path ≡ false))

  abbrev pub dir : List D
  dir = Deed.made_dir (flags.string path_flag) ∷ []

  abbrev pub Sound : S → Type 0
  Sound r =
      ((r.error ≢ none) × ((r.deeds ≡ []) ⊎ (r.deeds ≡ dir)))
      ⊎ Opened [] r.deeds
      ⊎ Opened dir r.deeds

  abbrev outcome : Addr → Bool → Option Error → Result (Setup (T host flags)) → S
  outcome addr signalled done o = elim o [
    | err e ↦ record { error = some e; deeds = [] }
    | ok setup ↦ record {
      error = none;
      deeds =
          Deed.started addr setup
          ∷ (ending host flags signalled (start host flags addr setup) ++ (stop done).1);
    }
  ]

  open_served-Run :
      (addr : Addr) (signalled : Bool) (done : Option Error)
      → Run (open_served host flags addr signalled done).deeds
  unfolding open_served
  open_served-Run addr signalled done =
      made
        (files host flags >>= λ f.
          new_server host.append_certs host.x509_key_pair (options host flags f))
        refl
    where
      made :
          (o : Result (Setup (T host flags)))
          → (files host flags >>= λ f.
              new_server host.append_certs host.x509_key_pair (options host flags f))
            ≡ o
          → Run (outcome addr signalled done o).deeds
      made (err e) q = inl refl
      made (ok setup) q =
          let (f, read, e) = bind_inverse (files host flags) _ setup q in
          inr (
            addr,
            setup,
            _,
            refl,
            Meant-Safe host flags f setup read (
                new_server-Safe host.append_certs host.x509_key_pair (options host flags f) setup
                  e),
            Stopped-stop host flags signalled (start host flags addr setup) done,
          )

  long_enough : exceeds min_gc_interval (gc_interval host flags) ≡ false
  unfolding exceeds
  long_enough = clamped (flags.duration gc_interval_flag)
    where
      clamped :
          (d : ℤ)
          → exceeds min_gc_interval (if exceeds min_gc_interval d then min_gc_interval else d)
            ≡ false
      clamped d = elim (Bool-cases (exceeds min_gc_interval d)) [ inl e ↦ rw e | inr e ↦ rw (e, e) ]

  in_memory-kept :
      (not (flags.boolean dev_mode_flag) && is_empty (flags.string path_flag)) ≡ false
      → (((config host flags).in_memory ≡ true) × (flags.boolean dev_mode_flag ≡ true))
        ⊎ (((config host flags).in_memory ≡ false) × (is_empty (config host flags).path ≡ false))
  in_memory-kept h = elim (Bool-cases (flags.boolean dev_mode_flag)) [
    | inl d ↦ elim (Bool-cases (is_empty (flags.string path_flag))) [
      | inl e ↦ inl (rw (d, e), d)
      | inr e ↦ inr (rw (d, e), e)
    ]
    | inr d ↦ elim (Bool-cases (is_empty (flags.string path_flag))) [
      | inl e ↦ absurd (ground (arith, h, d, e))
      | inr e ↦ inr (rw d, e)
    ]
  ]

  abbrev Kept : Type 0
  Kept =
      (((config host flags).in_memory ≡ true) × (flags.boolean dev_mode_flag ≡ true))
      ⊎ (((config host flags).in_memory ≡ false) × (is_empty (config host flags).path ≡ false))

  abbrev Out : S → Type 0
  Out r = ((r.error ≢ none) × (r.deeds ≡ [])) ⊎ Opened [] r.deeds

  abbrev around : S → Option Error → S
  around rest o = elim o [
    | some e ↦ record { error = some e; deeds = [] }
    | none ↦ record {
      error = rest.error;
      deeds = Deed.opened_db (config host flags) ∷ (rest.deeds ++ Deed.closed_db ∷ []);
    }
  ]

  abbrev below : S → Option Error → S
  below rest m = elim m [
    | some e ↦ record { error = some e; deeds = [] }
    | none ↦ record {
      error = rest.error;
      deeds = Deed.made_dir (flags.string path_flag) ∷ rest.deeds;
    }
  ]

  with_db-Sound : (rest : S) → Kept → Run rest.deeds → Out (with_db host flags (λ c. rest))
  unfolding with_db
  with_db-Sound rest k m = opening (host.new_badger_db (config host flags))
    where
      opening : (o : Option Error) → Out (around rest o)
      opening (some e) = inl (λ x. absurd (ground arith), refl)
      opening none =
          inr (record {
            middle = rest.deeds;
            run = m;
            whole = refl;
            interval = long_enough;
            kept = k;
          })

  with_dir-Sound : (rest : S) → Out rest → Sound (with_dir host flags rest)
  unfolding with_dir
  with_dir-Sound rest o = elim (Bool-cases (is_empty (flags.string (flags.string path_flag)))) [
    | inl e ↦ rw e (plain o)
    | inr e ↦ rw e (making (host.mkdir_all (flags.string path_flag)))
  ]
    where
      plain : Out rest → Sound rest
      plain (inl (x, y)) = inl (x, inl y)
      plain (inr y) = inr (inl y)

      made :
          Out rest
          → Sound (record {
            error = rest.error;
            deeds = Deed.made_dir (flags.string path_flag) ∷ rest.deeds;
          })
      made (inl (x, y)) = inl (x, inr (ap (λ l. Deed.made_dir (flags.string path_flag) ∷ l) y))
      made (inr y) = inr (
          inr (record {
            middle = y.middle;
            run = y.run;
            whole = ap (λ l. Deed.made_dir (flags.string path_flag) ∷ l) y.whole;
            interval = y.interval;
            kept = y.kept;
          }))

      making : (m : Option Error) → Sound (below rest m)
      making (some e) = inl (λ x. absurd (ground arith), inl refl)
      making none = made o

  -- A run of `serve` that does not get to open the database fails, and at most made the directory.
  -- Every other one opens it, and closes it last of all. It is opened with a collector's interval of
  -- at least a minute, and in memory only in development mode, else at a path that is not empty. At
  -- most one server is started between the two, and stopped, first gracefully, with its error logged
  -- at most once. It is without TLS just if the flag for development mode is set. Otherwise it has
  -- what `LoadCertificate` makes of the contents of the files that the flags name, the certificate,
  -- its key and the authority if one is named, and asks a certificate of each client. Its limit on
  -- messages is the flag's, or 200 MiB where that is not positive.
  pub serve_run-Sound :
      (signalled : Bool) (done : Option Error) → Sound (serve_run host flags signalled done)
  unfolding serve_run located
  serve_run-Sound signalled done = at_address (host.resolve _)
    where
      guarded :
          (addr : Addr) (no_path : Bool)
          → (not (flags.boolean dev_mode_flag) && is_empty (flags.string path_flag)) ≡ no_path
          → Sound (
              if no_path
              then record {
                error = some (
                    message
                      "a path is required to persist clipboard data when dev mode is disable");
                deeds = [];
              }
              else with_dir host flags
                  (with_db host flags (λ c. open_served host flags addr signalled done)))
      guarded addr true h = inl (λ x. absurd (ground arith), inl refl)
      guarded addr false h = with_dir-Sound _ (
          with_db-Sound (open_served host flags addr signalled done) (in_memory-kept h)
            (open_served-Run addr signalled done))

      at_address :
          (r : Result Addr)
          → Sound (
              located host flags r (λ addr.
                if not (flags.boolean dev_mode_flag) && is_empty (flags.string path_flag)
                then record {
                  error = some (
                      message
                        "a path is required to persist clipboard data when dev mode is disable");
                  deeds = [];
                }
                else with_dir host flags
                    (with_db host flags (λ c. open_served host flags addr signalled done))))
      at_address (err e) = inl (λ x. absurd (ground arith), inl refl)
      at_address (ok addr) = guarded addr _ refl
