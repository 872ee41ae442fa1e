-- ===== src/Client/Calls.antt =====
-- `Clear` and `Status` of client/client.go, and the secret manager.
use webcb.Base.{ℕ, Bool, Option, Result, ok, err, Error, String}
use webcb.Base.Int.{ℤ}
use webcb.Messages.{ServerStatus}

-- `ServerConfig`; the code turns the two sizes into floats, to print them.
pub record ServerConfig : Type 0 where
  pub db_size : ℕ
  pub db_path : String
  pub grpc_max_receive_bytes : ℤ
  pub gc_interval : ℤ
  pub dev_mode : Bool
  pub grpc_m_tls : Bool

-- `Clear`, of what the call of the server returns
pub clear : Option Error → Option Error
clear e = e

-- `Status`, of what the call of the server returns
pub status : Result ServerStatus → Result ServerConfig
status (err e) = err e
status (ok config) = ok (record {
  db_size = config.db_size;
  db_path = config.db_path;
  grpc_max_receive_bytes = config.grpc_max_receive_bytes;
  gc_interval = config.gc_interval;
  dev_mode = config.dev_mode;
  grpc_m_tls = config.grpc_m_tls;
})
