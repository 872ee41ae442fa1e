-- ===== src/Command.antt =====
-- The command line of the command folder: the names of command.go, and what a flag library and a
-- machine give.
pub mod Ui
pub mod Dial
pub mod Calls
pub mod Serve
pub mod Codec
use webcb.Base.{
  ℕ, Bool, List, [], ◌∷◌, Option, none, some, Result, ok, err, Error, Bytes, codes, length, ◌==◌,
  if◌then◌else◌,
}
use webcb.Base.Int.{ℤ, pos}

abbrev pub host_flag : Bytes
host_flag = codes "host"

abbrev pub port_flag : Bytes
port_flag = codes "port"

abbrev pub tls_cert_flag : Bytes
tls_cert_flag = codes "cert"

abbrev pub tls_key_flag : Bytes
tls_key_flag = codes "key"

abbrev pub tls_ca_flag : Bytes
tls_ca_flag = codes "ca"

abbrev pub conn_insecure_flag : Bytes
conn_insecure_flag = codes "insecure"

abbrev pub conn_timeout_flag : Bytes
conn_timeout_flag = codes "conn-timeout"

abbrev pub dev_mode_flag : Bytes
dev_mode_flag = codes "dev"

abbrev pub grpc_max_received_bytes_flag : Bytes
grpc_max_received_bytes_flag = codes "grpc-max-receive-bytes"

abbrev pub gc_interval_flag : Bytes
gc_interval_flag = codes "gc-interval"

abbrev pub path_flag : Bytes
path_flag = codes "path"

abbrev pub timeout_flag : Bytes
timeout_flag = codes "timeout"

abbrev pub transfer_rate_flag : Bytes
transfer_rate_flag = codes "transfer-rate"

abbrev pub checksum_flag : Bytes
checksum_flag = codes "checksum"

abbrev pub ttl_flag : Bytes
ttl_flag = codes "ttl"

abbrev pub verbose_flag : Bytes
verbose_flag = codes "verbose"

abbrev pub compress_flag : Bytes
compress_flag = codes "compress"

abbrev pub discard_flag : Bytes
discard_flag = codes "discard"

abbrev pub file_flag : Bytes
file_flag = codes "file"

abbrev pub watch_flag : Bytes
watch_flag = codes "watch"

abbrev pub no_password_flag : Bytes
no_password_flag = codes "no-password"

abbrev pub clipboard_flag : Bytes
clipboard_flag = codes "clipboard"

abbrev pub default_server_addr : Bytes
default_server_addr = codes "0.0.0.0"

abbrev pub default_client_addr : Bytes
default_client_addr = codes "127.0.0.1"

-- 5 * time.Second
abbrev pub default_client_conn_timeout : ℤ
default_client_conn_timeout = pos 5_000_000_000

-- `cli.Context`: the value of a flag, by the flag's name.
pub record Flags : Type 0 where
  pub string : Bytes → Bytes
  pub boolean : Bytes → Bool
  pub duration : Bytes → ℤ
  pub int : Bytes → ℤ
  pub uint64 : Bytes → ℕ

abbrev pub is_empty : Bytes → Bool
is_empty s = length s == 0

-- `readSecret`: `WEBCB_SECRET`, or else what is typed, which needs a terminal that can be written to
pub read_secret : Bytes → Result (Option Error × Result Bytes) → Result Bytes
read_secret env terminal =
    if is_empty env
    then elim terminal [ err e ↦ err e | ok (some e, typed) ↦ err e | ok (none, typed) ↦ typed ]
    else ok env
