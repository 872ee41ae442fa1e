-- ===== src/Server/Streams.antt =====
-- `grpcReceiver` and `grpcSender` of server/clipboard.go.
use webcb.Base.{Bool, [], ◌∷◌, Option, none, Result, ok, err, Error, eof, message, Bytes, String}
use webcb.Stream.{Receiver, Sender}
use webcb.Messages.{CopyStream, PastStream, ErrorType, Incoming, recv, Outgoing}

pub record GrpcReceiver : Type 0 where
  pub srv : Incoming CopyStream
  pub checksum : Bytes

-- what `Next` makes of a message
next_of : Result CopyStream → GrpcReceiver → Result Bytes × GrpcReceiver
next_of (err e) gc = (err e, gc)
next_of (ok (CopyStream.info i)) gc =
    (err (message "protocol error: chunk stream expected but get info header"), gc)
next_of (ok (CopyStream.checksum c)) gc = (err eof, record gc { checksum = c })
next_of (ok (CopyStream.chunk c)) gc = (ok c, gc)
next_of (ok CopyStream.nothing) gc = (ok [], gc)

unfoldable pub next : GrpcReceiver → Result Bytes × GrpcReceiver
unfolding next_of recv
next gc = let (m, srv') = recv gc.srv in next_of m (record gc { srv = srv' })

abbrev pub receiver : Receiver GrpcReceiver
receiver = record { next = next; checksum = λ gc. gc.checksum }

module _ {S : Type 0} (srv : Outgoing S PastStream) where
  unfoldable pub send_error : S → String → ErrorType → Option Error × S
  send_error s text kind = srv.send s (PastStream.error kind text)

  -- `Write` of the interface `HeaderWriter`
  unfoldable pub send_header : S → Bool → Bool → Bytes → Bytes → Bytes → Option Error × S
  send_header s compressed has_checksum master_key_nonce key_nonce iv = srv.send s (
      PastStream.info (record {
        checksum = has_checksum;
        compressed = compressed;
        master_key_nonce = master_key_nonce;
        key_nonce = key_nonce;
        iv = iv;
      }))

  unfoldable pub send_chunk : S → Bytes → Option Error × S
  send_chunk s p = srv.send s (PastStream.chunk p)

  unfoldable pub send_checksum : S → Bytes → Option Error × S
  send_checksum s [] = (none, s)
  send_checksum s (b ∷ p) = srv.send s (PastStream.checksum (b ∷ p))

  abbrev pub sender : Sender S
  sender = record { send_chunk = send_chunk; send_checksum = send_checksum }
