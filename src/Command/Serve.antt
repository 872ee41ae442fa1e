-- ===== src/Command/Serve.antt =====
-- The action of command/server.go, and `Start` and `Stop` of server/server.go.
pub mod Laws
pub mod Meant
use webcb.Base.{
  ℕ, Bool, true, false, not, ◌&&◌, List, [], ◌∷◌, ◌++◌, Option, none, some, Result, ok, err, Error,
  message, Bytes, decimal, if◌then◌else◌,
}
use webcb.Base.Int.{ℤ, pos}
use webcb.Base.Try.{◌>>=◌}
use webcb.Tls.{TlsConfig}
use webcb.Storage.Open.{BadgerConfig, min_gc_interval}
use webcb.Server.Handlers.{exceeds}
use webcb.Server.Config.{ServerOption, Setup, new_server}
use webcb.Command.{
  Flags, is_empty, host_flag, port_flag, tls_cert_flag, tls_key_flag, tls_ca_flag, dev_mode_flag,
  path_flag, gc_interval_flag, grpc_max_received_bytes_flag, default_server_addr,
}
use webcb.Command.Dial.{described}

-- What the server uses of the machine: `net.ResolveTCPAddr`, `os.MkdirAll`, `NewBadgerDB` up to its
-- error, `net.ListenTCP`, and `Serve` of gRPC.
pub record Host (Addr Pool Certificate : Type 0) : Type 0 where
  pub join_host_port : Bytes → Bytes → Bytes
  pub resolve : Bytes → Result Addr
  pub mkdir_all : Bytes → Option Error
  pub new_badger_db : BadgerConfig → Option Error
  pub read_file : Bytes → Result Bytes
  pub append_certs : Bytes → Option Pool
  pub x509_key_pair : Bytes → Bytes → Result Certificate
  pub listen : Addr → Option Error
  pub serve : Setup (TlsConfig Pool Certificate) → Option Error

-- What a server does, in order.
pub data Deed (Addr T : Type 0) : Type 0 where
  made_dir : Bytes → Deed Addr T
  opened_db : BadgerConfig → Deed Addr T
  started : Addr → Setup T → Deed Addr T
  logged : Error → Deed Addr T
  graceful_stop : Deed Addr T
  forced_stop : Deed Addr T
  closed_db : Deed Addr T

pub record Served (Addr T : Type 0) : Type 0 where
  pub error : Option Error
  pub deeds : List (Deed Addr T)

-- `Stop`: a graceful stop, which is forced when the context is done first; its error, and what it did.
pub stop : {Addr T : Type 0} → Option Error → Option Error × List (Deed Addr T)
stop none = (none, Deed.graceful_stop ∷ [])
stop (some e) = (some e, Deed.graceful_stop ∷ Deed.forced_stop ∷ [])

module _ {Addr Pool Certificate : Type 0} (host : Host Addr Pool Certificate) (flags : Flags) where
  abbrev pub T : Type 0
  T = TlsConfig Pool Certificate

  -- `Start`
  start : Addr → Setup T → Option Error
  start addr setup = elim (host.listen addr) [ some e ↦ some e | none ↦ host.serve setup ]

  abbrev pub gc_interval : ℤ
  gc_interval =
      let interval = flags.duration gc_interval_flag in
      if exceeds min_gc_interval interval then min_gc_interval else interval

  -- `path` is `cc.String(filepath.Clean(pathFlag))`: the name of the flag is clean.
  abbrev pub config : BadgerConfig
  config = record {
    path = flags.string path_flag;
    in_memory = flags.boolean dev_mode_flag && is_empty (flags.string path_flag);
    gc_interval = gc_interval;
  }

  -- the files of the certificates, unless the server is in development mode
  pub record Files : Type 0 where
    pub ca : Bytes
    pub cert : Bytes
    pub key : Bytes

  pub files : Result Files
  files = if flags.boolean dev_mode_flag then ok (record { ca = []; cert = []; key = [] }) else do
    ca ←
        if is_empty (flags.string tls_ca_flag)
        then ok []
        else described "unable to read root certificate: "
            (host.read_file (flags.string tls_ca_flag))
    cert ← described "unable to read certificate: " (host.read_file (flags.string tls_cert_flag))
    key ← described "unable to read certificate key: " (host.read_file (flags.string tls_key_flag))
    ok (record { ca = ca; cert = cert; key = key })

  abbrev pub options : Files → List ServerOption
  options f =
      ServerOption.with_grpc_max_recv_size (flags.int grpc_max_received_bytes_flag)
      ∷ ServerOption.with_credentials f.cert f.key
      ∷ ServerOption.with_certificate_authority f.ca
      ∷ ServerOption.with_dev_mode (flags.boolean dev_mode_flag)
      ∷ []

  -- a signal, or the return of `Start`, whose error is logged
  pub ending : Bool → Option Error → List (Deed Addr T)
  ending signalled none = []
  ending signalled (some e) = if signalled then [] else Deed.logged e ∷ []

  -- what happens with the database open
  open_served : Addr → Bool → Option Error → Served Addr T
  unfolding files ending stop start
  open_served addr signalled done =
      elim (files >>= λ f. new_server host.append_certs host.x509_key_pair (options f)) [
        | err e ↦ record { error = some e; deeds = [] }
        | ok setup ↦ record {
          error = none;
          deeds = Deed.started addr setup ∷ (ending signalled (start addr setup) ++ (stop done).1);
        }
      ]

  -- `NewBadgerDB`, and `Close` when the action returns
  with_db : (BadgerConfig → Served Addr T) → Served Addr T
  with_db rest = elim (host.new_badger_db config) [
    | some e ↦ record { error = some e; deeds = [] }
    | none ↦
        let r = rest config in
        record { error = r.error; deeds = Deed.opened_db config ∷ (r.deeds ++ Deed.closed_db ∷ []) }
  ]

  -- `os.MkdirAll`, if there is a flag whose name is the path and that is set
  with_dir : Served Addr T → Served Addr T
  with_dir rest =
      if is_empty (flags.string (flags.string path_flag))
      then rest
      else elim (host.mkdir_all (flags.string path_flag)) [
        | some e ↦ record { error = some e; deeds = [] }
        | none ↦ record {
          error = rest.error;
          deeds = Deed.made_dir (flags.string path_flag) ∷ rest.deeds;
        }
      ]

  located : Result Addr → (Addr → Served Addr T) → Served Addr T
  located (err e) rest = record { error = some e; deeds = [] }
  located (ok addr) rest = rest addr

  -- `run`; a signal ends the server, or else the return of `Start`; `done` is the error of the
  -- context if it ends before a graceful stop.
  pub serve_run : Bool → Option Error → Served Addr T
  unfolding located with_dir with_db open_served
  serve_run signalled done =
      let name = flags.string host_flag in
      located
        (host.resolve (
          host.join_host_port (if is_empty name then default_server_addr else name)
            (decimal (flags.uint64 port_flag))))
        (λ addr.
          if not (flags.boolean dev_mode_flag) && is_empty (flags.string path_flag)
          then record {
            error =
                some
                  (message "a path is required to persist clipboard data when dev mode is disable");
            deeds = [];
          }
          else with_dir (with_db (λ c. open_served addr signalled done)))
