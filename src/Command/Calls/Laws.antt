-- ===== src/Command/Calls/Laws.antt =====
-- What the commands of the command folder that call a server do with the connection.
use webcb.Command.Ui.{format_duration, format_duration-Found}
use webcb.Client.Calls.{ServerConfig}
use webcb.Base.{
  ℕ, ◌<◌, ◌/◌, ◌≡◌, ◌≢◌, ◌⊎◌, inl, inr, refl, Bool, not, List, [], ◌∷◌, ◌++◌, arith, Option, none,
  some, Result, ok, err, Error, Bytes, Bool-cases, ltb, length, if◌then◌else◌,
}
use webcb.Base.Int.{ℤ, pos, positive}
use webcb.Tls.{TlsConfig}
use webcb.Client.Options.{CopyOption, copy_config, apply_copy, default_copy_config}
use webcb.Server.Handlers.{default_transfer_rate, default_ttl}
use webcb.Command.{
  Flags, ttl_flag, checksum_flag, compress_flag, no_password_flag, verbose_flag, is_empty,
  file_flag,
}
use webcb.Command.Dial.{Machine, Creds, address, connexion_timeout, credentials}
use webcb.Command.Dial.Laws.{Trusted, credentials-Trusted}
use webcb.Command.Calls.{
  Event, Ended, Units, Run, failed, over, connected, Invocation, run_of, quiet, shown, status_lines,
  status_shown, copy_lines, digest_line, paste_ended, creating, copy_shown, copy_ended, Timed,
  clear_run, status_run, copy_run, paste_run, copy_options,
}

module _ {F Pool Certificate Conn : Type 0} (units : Units F)
    (machine : Machine Pool Certificate Conn) (flags : Flags) where
  abbrev E : Type 0
  E = Event (TlsConfig Pool Certificate)

  -- events of the call alone: no connection is dialled or closed
  abbrev pub Local : List E → Type 0
  Local [] = Unit
  Local (Event.dialled a c t ∷ es) = ⊥
  Local (Event.closed ∷ es) = ⊥
  Local (Event.printed s x ∷ es) = Local es
  Local (Event.created p ∷ es) = Local es
  Local (Event.notified ∷ es) = Local es

  -- A run that dialled, once, with credentials that the flags allow, and closed the connection last.
  pub record Dialled (events : List E) : Type 0 where
    pub creds : Creds machine flags
    pub middle : List E
    pub trusted : Trusted machine flags creds
    pub local : Local middle
    pub whole :
        events
        ≡ Event.dialled (address machine flags) creds (connexion_timeout machine flags)
          ∷ (middle ++ Event.closed ∷ [])

  -- Without a connection a command does nothing, and fails.
  abbrev pub Guarded : Run units machine flags → Type 0
  Guarded r = ((r.events ≡ []) × (r.error ≢ none)) ⊎ Dialled r.events

  -- a run that ends, and is guarded
  abbrev pub Ends : Option (Run units machine flags) → Type 0
  Ends o = (r : Run units machine flags) × (o ≡ some r) × Guarded r

  failed-Ends : (e : Error) → Ends (some (failed units machine flags e))
  unfolding failed
  failed-Ends e = (failed units machine flags e, refl, inl (refl, λ x. absurd (ground arith)))

  -- a call that returns
  abbrev Returns : (Conn → Option (Run units machine flags)) → Type 0
  Returns call =
      (conn : Conn) → (r : Run units machine flags) × (call conn ≡ some r) × Local r.events

  over-Ends :
      (c : Creds machine flags) (conn : Result Conn)
      (call : Conn → Option (Run units machine flags))
      → Trusted machine flags c
      → Returns call
      → Ends (over units machine flags c conn call)
  unfolding over
  over-Ends c (err e) call t h = failed-Ends e
  over-Ends c (ok conn) call t h =
      let (x, q, local) = h conn in
      (
        record {
          error = x.error;
          events =
              Event.dialled (address machine flags) c (connexion_timeout machine flags)
              ∷ (x.events ++ Event.closed ∷ []);
        },
        rw (over, q),
        inr (record { creds = c; middle = x.events; trusted = t; local = local; whole = refl }),
      )

  connected-Ends :
      (call : Conn → Option (Run units machine flags))
      → Returns call
      → Ends (connected units machine flags call)
  unfolding connected
  connected-Ends call h = made (credentials machine flags) refl
    where
      made :
          (o : Result (Creds machine flags))
          → credentials machine flags ≡ o
          → Ends (elim o [
            | err e ↦ some (failed units machine flags e)
            | ok c ↦
                over units machine flags c
                  (machine.dial (address machine flags) c (connexion_timeout machine flags))
                  call
          ])
      made (err e) q = failed-Ends e
      made (ok c) q = over-Ends c _ call (credentials-Trusted machine flags c q) h

  sized-Ends :
      (size : Result ℤ) (call : ℤ → Conn → Option (Run units machine flags))
      → ((n : ℤ) → Returns (call n))
      → Ends (elim size [
        | err e ↦ some (failed units machine flags e)
        | ok n ↦ connected units machine flags (call n)
      ])
  sized-Ends (err e) call h = failed-Ends e
  sized-Ends (ok n) call h = connected-Ends (call n) (h n)

  abbrev Text : ℕ → ℤ → Type 0
  Text rounds d = (text : Bytes) × (format_duration units.duration_text rounds d ≡ some text)

  duration_shown : (rounds n : ℕ) (d : ℤ) → 12 < rounds → d ≡ pos n → Text rounds d
  duration_shown rounds n d l e =
      let (scale, q, _) = format_duration-Found units.duration_text rounds n l in
      rw e (units.duration_text (pos n) (scale / 100), q)

  -- The durations that are shown are not negative, and their loop has enough rounds.
  abbrev pub Timely : Invocation units machine flags → Type 0
  Timely (Invocation.status rounds call) =
      (12 < rounds)
      × ((conn : Conn) (s : ServerConfig) → call conn ≡ ok s → (n : ℕ) × (s.gc_interval ≡ pos n))
  Timely (Invocation.copy rounds late call) =
      (12 < rounds)
      × ((conn : Conn) (os : List CopyOption) (t : Timed F)
          → call conn os ≡ Ended.finished (ok t)
          → (n : ℕ) × (t.copy_duration ≡ pos n))
  Timely i = Unit

  status_returns :
      (rounds : ℕ) (r : Result ServerConfig)
      → ((s : ServerConfig) → r ≡ ok s → Text rounds s.gc_interval)
      → (x : Run units machine flags) × ((elim r [
        | err e ↦ quiet units machine flags (some e)
        | ok s ↦
            status_shown units machine flags s
              (format_duration units.duration_text rounds s.gc_interval)
      ])
          ≡ some x)
        × Local x.events
  unfolding quiet status_shown shown
  status_returns rounds (err e) h = (_, refl, tt)
  status_returns rounds (ok s) h =
      let (text, q) = h s refl in
      (record { error = none; events = status_lines units machine flags s text }, rw q, tt)

  copy_lines-Local : (t : Timed F) (text : Bytes) → Local (copy_lines units machine flags t text)
  unfolding copy_lines digest_line
  copy_lines-Local t text = elim (Bool-cases (ltb 0 (length t.summary.checksum))) [
    | inl e ↦ rw e tt
    | inr e ↦ rw e tt
  ]

  paste_ended-Local :
      (late : Bool) (notify : Option Error) (ended : Ended Unit)
      → Local (paste_ended units machine flags late notify ended).events
  unfolding paste_ended failed
  paste_ended-Local late notify Ended.signalled = tt
  paste_ended-Local late notify (Ended.finished (err e)) = tt
  paste_ended-Local late notify (Ended.finished (ok done)) = tt

  abbrev with_file : Run units machine flags → Option Error → Run units machine flags
  with_file r o = elim o [
    | some e ↦ failed units machine flags e
    | none ↦ record { error = r.error; events = Event.created (flags.string file_flag) ∷ r.events }
  ]

  creating-Local :
      (create : Bytes → Option Error) (r : Run units machine flags)
      → Local r.events
      → Local (creating units machine flags create r).events
  unfolding creating failed
  creating-Local create r l = elim (Bool-cases (is_empty (flags.string file_flag))) [
    | inl e ↦ rw e l
    | inr e ↦ rw e (made (create (flags.string file_flag)))
  ]
    where
      made : (o : Option Error) → Local (with_file r o).events
      made (some e) = tt
      made none = l

  copy_returns :
      (rounds : ℕ) (late : Bool) (ended : Ended (Timed F))
      → ((t : Timed F) → ended ≡ Ended.finished (ok t) → Text rounds t.copy_duration)
      → (x : Run units machine flags) × (copy_ended units machine flags rounds late ended ≡ some x)
        × Local x.events
  unfolding copy_ended quiet copy_shown shown
  copy_returns rounds late Ended.signalled h = (_, refl, tt)
  copy_returns rounds late (Ended.finished (err e)) h = (_, refl, tt)
  copy_returns rounds late (Ended.finished (ok t)) h =
      elim (Bool-cases (flags.boolean verbose_flag)) [
        | inl v ↦
            (let (text, q) = h t refl in
              (
                record { error = none; events = copy_lines units machine flags t text },
                rw (v, q),
                copy_lines-Local t text,
              ))
        | inr v ↦ (record { error = none; events = [] }, rw v, tt)
      ]

  -- A run of `clear`, `status`, `copy` or `paste` ends, and either did nothing and failed, or dialled
  -- exactly once, first of all, and closed that connection exactly once, last of all. It dialled
  -- without security only if the flag for that was set, and otherwise with what `LoadCertificate`
  -- made of the files that the flags name, of which the certificate and the key were both named and
  -- could be read, and the authority could be read if it was named. The condition, for `status` and
  -- `copy`: the durations that they print are not negative, and the loop that formats them is given
  -- 13 rounds.
  pub run_of-Ends :
      (i : Invocation units machine flags) → Timely i → Ends (run_of units machine flags i)
  unfolding run_of clear_run status_run copy_run paste_run quiet
  run_of-Ends (Invocation.clear call) t = connected-Ends _ (λ conn. (_, refl, tt))
  run_of-Ends (Invocation.status rounds call) (l, t) = connected-Ends _ (λ conn.
      status_returns rounds (call conn)
        (λ s e. let (n, q) = t conn s e in duration_shown rounds n s.gc_interval l q))
  run_of-Ends (Invocation.copy rounds late call) (l, t) = sized-Ends _ _ λ size conn.
      copy_returns rounds late (call conn (copy_options units machine flags size)) (λ x e.
        let (n, q) = t conn (copy_options units machine flags size) x e in
        duration_shown rounds n x.copy_duration l q)
  run_of-Ends (Invocation.paste late notify create call) t =
      sized-Ends _ _
        (λ size conn. (_, refl, creating-Local create _ (paste_ended-Local late notify _)))

  -- The options that `copy` makes of the flags: the data is encrypted unless that is switched off,
  -- and a rate or a time to live that is not positive gives way to the default.
  pub copy_options-config :
      (n : ℤ)
      → copy_config (copy_options units machine flags n) default_copy_config ≡ record {
        chunk_size = if positive n then n else default_transfer_rate;
        checksum = flags.boolean checksum_flag;
        ttl = if positive (flags.duration ttl_flag) then flags.duration ttl_flag else default_ttl;
        compression = flags.boolean compress_flag;
        encryption = not (flags.boolean no_password_flag);
      }
  unfolding copy_config apply_copy default_copy_config
  copy_options-config n = elim (Bool-cases (positive n)) [
    | inl a ↦ elim (Bool-cases (positive (flags.duration ttl_flag))) [
      | inl b ↦ rw (a, b)
      | inr b ↦ rw (a, b)
    ]
    | inr a ↦ elim (Bool-cases (positive (flags.duration ttl_flag))) [
      | inl b ↦ rw (a, b)
      | inr b ↦ rw (a, b)
    ]
  ]
