-- ===== src/Command/Calls.antt =====
-- The actions of command/clear.go, command/status.go, command/copy.go and command/paste.go.
pub mod Laws
use webcb.Base.{
  ℕ, Bool, true, false, not, List, [], ◌∷◌, ◌++◌, Option, none, some, Result, ok, err, Error,
  deadline_exceeded, wrapped, message, Bytes, String, length, ltb, if◌then◌else◌,
}
use webcb.Base.Int.{ℤ, pos, is_zero}
use webcb.Tls.{TlsConfig}
use webcb.Client.Options.{CopyOption, PasteOption}
use webcb.Client.Copy.{Summary}
use webcb.Client.Calls.{ServerConfig}
use webcb.Command.{
  Flags, is_empty, timeout_flag, transfer_rate_flag, checksum_flag, ttl_flag, verbose_flag,
  compress_flag, no_password_flag, file_flag, discard_flag,
}
use webcb.Command.Dial.{Credentials, Machine, Creds, address, connexion_timeout, credentials}
use webcb.Command.Ui.{format_duration}

-- what is printed with a format
pub data Shown : Type 0 where
  nothing : Shown
  word : String → Shown
  text : Bytes → Shown
  hex : Bytes → Shown
  truth : Bool → Shown

-- What a command does, in order. `F` is the type of the machine's floats.
pub data Event (T : Type 0) : Type 0 where
  dialled : Bytes → Credentials T → ℤ → Event T
  printed : String → Shown → Event T
  created : Bytes → Event T
  notified : Event T
  closed : Event T

-- the end of a command: its error, and what it did
pub record Ran (T : Type 0) : Type 0 where
  pub error : Option Error
  pub events : List (Event T)

-- Whether a signal or the result of a call comes first.
pub data Ended (A : Type 0) : Type 0 where
  signalled : Ended A
  finished : Result A → Ended A

-- `units.HumanSize`, `units.FromHumanSize`, and `d.Round(m).String()`
pub record Units (F : Type 0) : Type 0 where
  pub float : ℤ → F
  pub human_size : F → Bytes
  pub from_human_size : Bytes → Result ℤ
  pub duration_text : ℤ → ℕ → Bytes

-- the summary of a copy, with what depends on the clock
pub record Timed (F : Type 0) : Type 0 where
  pub summary : Summary
  pub copy_duration : ℤ
  pub transfer_rate : F

module _ {F Pool Certificate Conn : Type 0} (units : Units F)
    (machine : Machine Pool Certificate Conn) (flags : Flags) where
  abbrev pub Run : Type 0
  Run = Ran (TlsConfig Pool Certificate)

  failed : Error → Run
  failed e = record { error = some e; events = [] }

  -- The call over the connection, which is closed when the command returns.
  over : Creds machine flags → Result Conn → (Conn → Option Run) → Option Run
  unfolding failed
  over c (err e) call = some (failed e)
  over c (ok conn) call = elim (call conn) [
    | none ↦ none
    | some r ↦ some (record {
      error = r.error;
      events =
          Event.dialled (address machine flags) c (connexion_timeout machine flags)
          ∷ (r.events ++ Event.closed ∷ []);
    })
  ]

  -- What the commands have in common: credentials, the connection, the call.
  pub connected : (Conn → Option Run) → Option Run
  unfolding over failed
  connected call = elim (credentials machine flags) [
    | err e ↦ some (failed e)
    | ok c ↦ over c (machine.dial (address machine flags) c (connexion_timeout machine flags)) call
  ]

  quiet : Option Error → Option Run
  quiet e = some (record { error = e; events = [] })

  -- `run` of clear.go; `call` is `Clear` of the client.
  pub clear_run : (Conn → Option Error) → Option Run
  unfolding connected quiet
  clear_run call = connected (λ conn. quiet (call conn))

  -- the lines that `run` of status.go prints
  status_lines : ServerConfig → Bytes → List (Event (TlsConfig Pool Certificate))
  status_lines s interval =
      Event.printed "Webcb server status\n" Shown.nothing
      ∷ Event.printed "DB Size           : %s\n"
          (Shown.text (units.human_size (units.float (pos s.db_size))))
      ∷ Event.printed "DB Path           : %s\n" (Shown.word s.db_path)
      ∷ Event.printed "Max accepted rate : %s\n"
          (Shown.text (units.human_size (units.float s.grpc_max_receive_bytes)))
      ∷ Event.printed "GC Interval       : %s\n" (Shown.text interval)
      ∷ Event.printed "Dev mode enable   : %t\n" (Shown.truth s.dev_mode)
      ∷ Event.printed "MTLS enable       : %t\n" (Shown.truth s.grpc_m_tls)
      ∷ []

  shown : List (Event (TlsConfig Pool Certificate)) → Option Run
  shown lines = some (record { error = none; events = lines })

  status_shown : ServerConfig → Option Bytes → Option Run
  unfolding status_lines shown
  status_shown s none = none
  status_shown s (some interval) = shown (status_lines s interval)

  -- `run` of status.go, with a bound on the rounds of `formatDuration`; `call` is `Status` of the client.
  pub status_run : ℕ → (Conn → Result ServerConfig) → Option Run
  unfolding connected quiet status_shown
  status_run rounds call = connected (λ conn. elim (call conn) [
    | err e ↦ quiet (some e)
    | ok s ↦ status_shown s (format_duration units.duration_text rounds s.gc_interval)
  ])

  -- `errors.Is(ctx.Err(), context.DeadlineExceeded)`: there is a deadline, and it has passed.
  expired : Bool → Bool
  expired late = if is_zero (flags.duration timeout_flag) then false else late

  -- the error of a call that failed
  explained : String → Bool → Error → Error
  unfolding expired
  explained prefix late e = wrapped prefix (if expired late then deadline_exceeded else e)

  -- the options of `run` of copy.go
  abbrev pub copy_options : ℤ → List CopyOption
  copy_options chunk_size =
      CopyOption.with_transfer_rate chunk_size
      ∷ CopyOption.with_checksum (flags.boolean checksum_flag)
      ∷ CopyOption.with_ttl (flags.duration ttl_flag)
      ∷ CopyOption.with_compression (flags.boolean compress_flag)
      ∷ CopyOption.with_encryption (not (flags.boolean no_password_flag))
      ∷ []

  digest_line : Bytes → List (Event (TlsConfig Pool Certificate))
  digest_line checksum =
      if ltb 0 (length checksum)
      then Event.printed "Digest       : %x\n" (Shown.hex checksum) ∷ []
      else []

  -- the lines that `run` of copy.go prints
  copy_lines : Timed F → Bytes → List (Event (TlsConfig Pool Certificate))
  unfolding digest_line
  copy_lines t duration =
      Event.printed "Successfully copied data to web clipboard!\n\n" Shown.nothing
      ∷ Event.printed "Duration     : %s\n" (Shown.text duration)
      ∷ Event.printed "Read         : %s\n"
          (Shown.text (units.human_size (units.float (pos t.summary.bytes_read))))
      ∷ Event.printed "Sent         : %s\n"
          (Shown.text (units.human_size (units.float (pos t.summary.byte_write))))
      ∷ (digest_line t.summary.checksum
          ++ (Event.printed "Compressed   : %t\n" (Shown.truth t.summary.compressed)
              ∷ Event.printed "Encrypted    : %t\n" (Shown.truth t.summary.encrypted)
              ∷ Event.printed "Upload speed : %s/s\n"
                  (Shown.text (units.human_size t.transfer_rate))
              ∷ []))

  copy_shown : Timed F → Option Bytes → Option Run
  unfolding copy_lines shown
  copy_shown t none = none
  copy_shown t (some duration) = shown (copy_lines t duration)

  -- after the `select` of copy.go
  copy_ended : ℕ → Bool → Ended (Timed F) → Option Run
  unfolding quiet failed explained copy_shown
  copy_ended rounds late Ended.signalled = some (failed (message "copy canceled"))
  copy_ended rounds late (Ended.finished (err e)) = some (failed (explained "copy failed: " late e))
  copy_ended rounds late (Ended.finished (ok t)) =
      if flags.boolean verbose_flag
      then copy_shown t (format_duration units.duration_text rounds t.copy_duration)
      else quiet none

  -- `run` of copy.go; `call` is `Copy` of the client, or a signal, and `late` tells if the deadline
  -- has passed when the call returns.
  pub copy_run : ℕ → Bool → (Conn → List CopyOption → Ended (Timed F)) → Option Run
  unfolding connected failed copy_ended
  copy_run rounds late call = elim (units.from_human_size (flags.string transfer_rate_flag)) [
    | err e ↦ some (failed e)
    | ok chunk_size ↦
        connected (λ conn. copy_ended rounds late (call conn (copy_options chunk_size)))
  ]

  -- where the data of a paste goes
  pub data Output : Type 0 where
    stdout discarded : Output
    file : Bytes → Output

  output : Output
  output =
      if flags.boolean discard_flag
      then Output.discarded
      else if is_empty (flags.string file_flag)
      then Output.stdout
      else Output.file (flags.string file_flag)

  -- after the `select` of paste.go; `notify` is what `beeep.Notify` returns.
  paste_ended : Bool → Option Error → Ended Unit → Run
  unfolding failed explained
  paste_ended late notify Ended.signalled = failed (message "paste canceled")
  paste_ended late notify (Ended.finished (err e)) = failed (explained "paste failed: " late e)
  paste_ended late notify (Ended.finished (ok done)) = record {
    error = notify;
    events = Event.notified ∷ [];
  }

  -- the file of the output, if there is one, is created first
  creating : (Bytes → Option Error) → Run → Run
  unfolding failed
  creating create r =
      if is_empty (flags.string file_flag) then r else elim (create (flags.string file_flag)) [
        | some e ↦ failed e
        | none ↦ record {
          error = r.error;
          events = Event.created (flags.string file_flag) ∷ r.events;
        }
      ]

  -- `run` of paste.go; `call` is `Paste` of the client, or a signal.
  pub paste_run :
      Bool
      → Option Error
      → (Bytes → Option Error)
      → (Conn → Output → List PasteOption → Ended Unit)
      → Option Run
  unfolding connected failed creating paste_ended output
  paste_run late notify create call =
      elim (units.from_human_size (flags.string transfer_rate_flag)) [
        | err e ↦ some (failed e)
        | ok chunk_size ↦ connected (λ conn. some (
            creating create (
              paste_ended late notify
                (call conn output (PasteOption.with_transfer_rate chunk_size ∷ [])))))
      ]

  -- One of the four commands, with what its call gives.
  pub data Invocation : Type 0 where
    clear : (Conn → Option Error) → Invocation
    status : ℕ → (Conn → Result ServerConfig) → Invocation
    copy : ℕ → Bool → (Conn → List CopyOption → Ended (Timed F)) → Invocation
    paste :
        Bool
        → Option Error
        → (Bytes → Option Error)
        → (Conn → Output → List PasteOption → Ended Unit)
        → Invocation

  pub run_of : Invocation → Option Run
  unfolding clear_run status_run copy_run paste_run
  run_of (Invocation.clear call) = clear_run call
  run_of (Invocation.status rounds call) = status_run rounds call
  run_of (Invocation.copy rounds late call) = copy_run rounds late call
  run_of (Invocation.paste late notify create call) = paste_run late notify create call
