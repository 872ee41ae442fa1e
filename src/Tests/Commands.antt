-- ===== src/Tests/Commands.antt =====
-- Runs of the commands.
use webcb.Base.{
  ℕ, ◌/◌, ◌≡◌, sym, ap, true, false, [], ◌∷◌, ◌++◌, arith, none, some, Result, ok, err, message,
  Bytes,
}
use webcb.Base.Int.{ℤ, pos, negsuc}
use webcb.Client.Calls.{ServerConfig}
use webcb.Client.Options.{copy_config, default_copy_config}
use webcb.Server.Handlers.{default_ttl}
use webcb.Command.{Flags}
use webcb.Command.Ui.{format_duration, Fitting, format_duration-Found, format_duration-negative}
use webcb.Command.Dial.{Machine}
use webcb.Command.Calls.{Units, Invocation, run_of, copy_options}
use webcb.Command.Calls.Laws.{Ends, run_of-Ends, copy_options-config}
use webcb.Command.Serve.{Host, serve_run}
use webcb.Command.Serve.Laws.{Sound, serve_run-Sound}

-- every flag that names a file names one with its own name
abbrev flags : Flags
flags = record {
  string = λ name. name;
  boolean = λ name. false;
  duration = λ name. pos 0;
  int = λ name. pos 5;
  uint64 = λ name. 4444;
}

abbrev machine : Machine Bytes Bytes ℕ
machine = record {
  read_file = λ path. ok path;
  join_host_port = λ host port. host ++ port;
  append_certs = λ ca. some ca;
  x509_key_pair = λ cert key. ok cert;
  dial = λ address creds timeout. ok 7;
}

abbrev units : Units ℤ
units = record {
  float = λ n. n;
  human_size = λ n. [];
  from_human_size = λ s. ok (pos 9);
  duration_text = λ d m. m ∷ [];
}

abbrev server_config : ServerConfig
server_config = record {
  db_size = 1;
  db_path = "/data";
  grpc_max_receive_bytes = pos 50;
  gc_interval = pos 60_000_000_000;
  dev_mode = false;
  grpc_m_tls = true;
}

abbrev status : Invocation units machine flags
status = Invocation.status 13 (λ conn. ok server_config)

interval_of : Result ServerConfig → ℤ
interval_of (ok s) = s.gc_interval
interval_of (err e) = pos 0

run_of-Ends_example : Ends units machine flags (run_of units machine flags status)
unfolding interval_of
run_of-Ends_example =
    run_of-Ends units machine flags status
      (omega arith, λ conn s e. (60_000_000_000, sym (ap interval_of e)))

copy_options-config_example :
    copy_config (copy_options units machine flags (pos 9)) default_copy_config ≡ record {
      chunk_size = pos 9;
      checksum = false;
      ttl = default_ttl;
      compression = false;
      encryption = true;
    }
copy_options-config_example = copy_options-config units machine flags (pos 9)

format_duration-Found_example :
    (scale : ℕ) × (format_duration units.duration_text 13 (pos 1_500_000)
      ≡ some (units.duration_text (pos 1_500_000) (scale / 100)))
    × Fitting scale 1_500_000
format_duration-Found_example = format_duration-Found units.duration_text 13 1_500_000 (omega arith)

format_duration-negative_example : format_duration units.duration_text 1000 (negsuc 0) ≡ none
format_duration-negative_example = format_duration-negative units.duration_text 1000 0

abbrev host : Host Bytes Bytes Bytes
host = record {
  join_host_port = λ name port. name ++ port;
  resolve = λ address. ok address;
  mkdir_all = λ path. none;
  new_badger_db = λ c. none;
  read_file = λ path. ok path;
  append_certs = λ ca. some ca;
  x509_key_pair = λ cert key. ok cert;
  listen = λ addr. none;
  serve = λ setup. some (message "stopped");
}

serve_run-Sound_example : Sound host flags (serve_run host flags false none)
serve_run-Sound_example = serve_run-Sound host flags false none
