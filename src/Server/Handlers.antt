-- ===== src/Server/Handlers.antt =====
-- The calls `Copy`, `Paste`, `Status` and `Clear` of server/clipboard.go.
pub mod Chunks
pub mod Copying
pub mod Pasting
pub mod RoundTrip
pub mod Refusing
use webcb.Base.{
  ℕ, zero, suc, ◌+◌, Bool, true, false, ◌&&◌, List, [], ◌∷◌, Option, none, some, Result, ok, err,
  Error, eof, key_not_found, message, wrapped, status, Code, canceled, internal, Bytes, String,
  length, replicate, ltb, if◌then◌else◌,
}
use webcb.Base.Int.{ℤ, pos, negsuc, is_zero}
use webcb.Stream.{ReadOut}
use webcb.Stream.Reader.{Reader, new_reader, read}
use webcb.Stream.Writer.{Writer, new_writer, write, flush}
use webcb.Storage.Badger.{Badger}
use webcb.Storage.Batch.{BadgerDb}
use webcb.Storage.Write.{StreamReader, Env, Meta, write_batch}
use webcb.Storage.Read.{StreamWriter, read_batch}
use webcb.Messages.{
  CopyInfo, CopyStream, PastStream, ErrorType, ServerStatus, Incoming, recv, Outgoing,
}
use webcb.Server.Config.{Config}
use webcb.Server.Streams.{GrpcReceiver, receiver, sender, send_error, send_header}

-- 10 * time.Minute, in nanoseconds
abbrev pub default_ttl : ℤ
default_ttl = pos 600_000_000_000

-- 1 << 20
abbrev pub default_transfer_rate : ℤ
default_transfer_rate = pos 1_048_576

-- A handler returns, without an error or with one, or the call panics.
pub data Outcome : Type 0 where
  returns : Option Error → Outcome
  panics : Outcome

-- `errors.Is(err, storage.ErrKeyNotFound)`
pub is_key_not_found : Error → Bool
is_key_not_found key_not_found = true
is_key_not_found (wrapped s e) = is_key_not_found e
is_key_not_found _ = false

-- `limit < z`
unfoldable pub exceeds : ℤ → ℤ → Bool
exceeds (pos z) (pos limit) = ltb limit z
exceeds (pos z) (negsuc limit) = true
exceeds (negsuc z) (pos limit) = false
exceeds (negsuc z) (negsuc limit) = ltb z limit

-- the rate that `Paste` uses
unfoldable pub rate_of : ℤ → ℤ
rate_of rate = if is_zero rate then default_transfer_rate else rate

-- `grpc.NewReader` over a receiver, as `WriteBatch` sees it; `rounds` bounds the loop of one `Read`.
abbrev pub stream_reader : ℕ → StreamReader (Reader GrpcReceiver)
stream_reader rounds = record { read = read receiver rounds; checksum = λ r. r.r.checksum }

unfoldable pub ttl_of : CopyInfo → ℤ
ttl_of fi = if is_zero fi.ttl then default_ttl else fi.ttl

abbrev pub meta_of : CopyInfo → Meta
meta_of fi = record {
  ttl = ttl_of fi;
  compressed = fi.compressed;
  master_key_nonce = fi.master_key_nonce;
  key_nonce = fi.key_nonce;
  iv = fi.iv;
}

module _ {Db Batch Txn : Type 0} (badger : Badger Db Batch Txn) (env : Env) where
  -- how the handler ends; `closed` is what `SendAndClose` returns
  closing : Option Error → Option (Result ℕ × BadgerDb Db) → Option (Outcome × BadgerDb Db)
  closing closed none = none
  closing closed (some (err e, b)) = some (Outcome.returns (some (Error.status Code.internal e)), b)
  closing closed (some (ok n, b)) = some (Outcome.returns closed, b)

  -- What `Copy` makes of the first message; without an info header it takes the text of a nil error.
  copy_first :
      ℕ
      → Option Error
      → Result ℕ
      → Result CopyStream × Incoming CopyStream
      → BadgerDb Db
      → Option (Outcome × BadgerDb Db)
  unfolding closing
  copy_first rounds closed seq (err e, srv) b = some (Outcome.returns (some e), b)
  copy_first rounds closed seq (ok (CopyStream.info fi), srv) b = closing closed (
      write_batch badger env (stream_reader rounds) rounds seq
        (new_reader (record { srv = srv; checksum = [] })) (meta_of fi) b)
  copy_first rounds closed seq (ok (CopyStream.chunk c), srv) b = some (Outcome.panics, b)
  copy_first rounds closed seq (ok (CopyStream.checksum c), srv) b = some (Outcome.panics, b)
  copy_first rounds closed seq (ok CopyStream.nothing, srv) b = some (Outcome.panics, b)

  -- `Copy`; `seq` is the next number of the sequence of versions, `rounds` bounds the loops.
  pub copy :
      ℕ
      → Option Error
      → Result ℕ
      → Incoming CopyStream
      → BadgerDb Db
      → Option (Outcome × BadgerDb Db)
  unfolding copy_first recv
  copy rounds closed seq srv b = copy_first rounds closed seq (recv srv) b

  -- `DropAll` of the storage is a parameter: what it returns, and the database after it.
  clear_all : Option Error × BadgerDb Db → Outcome × BadgerDb Db
  clear_all (none, b) = (Outcome.returns none, b)
  clear_all (some e, b) = (Outcome.returns (some (Error.status Code.internal e)), b)

  -- `Clear`; `cancelled` is the error of a context that is done.
  unfoldable pub clear :
      Option Error
      → (BadgerDb Db → Option Error × BadgerDb Db)
      → BadgerDb Db
      → Outcome × BadgerDb Db
  unfolding clear_all
  clear none drop_all b = clear_all (drop_all b)
  clear (some e) drop_all b = (Outcome.returns (some (Error.status Code.canceled e)), b)

-- `Status`; the sizes, the path and the interval come from the storage.
unfoldable pub status_of : Option Error → Config → ℕ → ℕ → String → ℤ → Result ServerStatus
status_of (some e) c lsm vlog path interval = err (Error.status Code.canceled e)
status_of none c lsm vlog path interval = ok (record {
  db_size = lsm + vlog;
  db_path = path;
  grpc_max_receive_bytes = c.grpc_max_recv_size;
  gc_interval = interval;
  dev_mode = c.dev;
  grpc_m_tls = ltb 0 (length c.key) && ltb 0 (length c.cert);
})

module _ {S : Type 0} (srv : Outgoing S PastStream) (text_of : Error → String) where
  -- the one sender under both interfaces of `ReadBatch`
  abbrev pub stream_writer : StreamWriter (Writer S)
  stream_writer = record {
    header = λ w compressed has_checksum master_key_nonce key_nonce iv.
        let (e, s') = send_header srv w.s compressed has_checksum master_key_nonce key_nonce iv in
        (e, record w { s = s' });
    write = λ w v. write (sender srv) w v;
    flush = λ w checksum. flush (sender srv) w checksum;
  }

  sent_error : Option Error × S → Outcome × S
  sent_error (e, s) = (Outcome.returns e, s)

  pasted : Option (Result ℕ × Writer S) → Option (Outcome × S)
  unfolding sent_error
  pasted none = none
  pasted (some (ok n, w)) = some (Outcome.returns none, w.s)
  pasted (some (err e, w)) =
      if is_key_not_found e
      then some (
          sent_error
            (send_error srv w.s (text_of (wrapped "no data to paste: " e)) ErrorType.key_not_found))
      else some (Outcome.returns (some (Error.status Code.internal e)), w.s)

  module _ {Db Batch Txn : Type 0} (badger : Badger Db Batch Txn) (env : Env) where
    -- `Paste` with a rate that is not above the limit: the buffer of that size, and `ReadBatch`
    paste_at : ℤ → S → Db → Option (Outcome × S)
    unfolding pasted
    paste_at (pos rate) s db =
        pasted
          (read_batch stream_writer badger env.clipboard_codec db (new_writer s (replicate rate 0)))
    paste_at (negsuc rate) s db = some (Outcome.panics, s)

    -- `Paste`
    pub paste : Config → ℤ → S → Db → Option (Outcome × S)
    unfolding paste_at rate_of
    paste c rate s db =
        if exceeds (rate_of rate) c.grpc_max_recv_size
        then some (
            sent_error (
              send_error srv s
                (text_of (message "transfer rate is above the server configuration limit"))
                ErrorType.invalid_option))
        else paste_at (rate_of rate) s db
