-- ===== src/Client/Streams.antt =====
-- `sendInfo`, `grpcSender` and `grpcReceiver` of client/client.go.
pub mod Laws
use webcb.Base.{
  ℕ, ◌+◌, Bool, List, [], ◌∷◌, Option, none, some, Result, ok, err, Error, eof, message, Bytes,
  length,
}
use webcb.Base.Int.{ℤ}
use webcb.Stream.{Receiver, Sender}
use webcb.Messages.{CopyStream, PastStream, Incoming, recv, Outgoing}

pub record PasteReceiver : Type 0 where
  pub c : Incoming PastStream
  pub checksum : Bytes

-- what `Next` makes of a message
past_of : Result PastStream → PasteReceiver → Result Bytes × PasteReceiver
past_of (err e) gc = (err e, gc)
past_of (ok (PastStream.info i)) gc =
    (err (message "protocol error: chunk message expected but get an info message"), gc)
past_of (ok (PastStream.error t s)) gc =
    (err (message "protocol error: chunk message expected but get an error message"), gc)
past_of (ok (PastStream.checksum c)) gc = (err eof, record gc { checksum = c })
past_of (ok (PastStream.chunk c)) gc = (ok c, gc)
past_of (ok PastStream.nothing) gc = (ok [], gc)

pub next_past : PasteReceiver → Result Bytes × PasteReceiver
unfolding past_of recv
next_past gc = let (m, c') = recv gc.c in past_of m (record gc { c = c' })

abbrev pub paste_receiver : Receiver PasteReceiver
paste_receiver = record { next = next_past; checksum = λ gc. gc.checksum }

-- `grpcSender`: the stream's state, and the count of the bytes sent
pub record CopySender (S : Type 0) : Type 0 where
  pub c : S
  pub bytes_sent : ℕ

module _ {S : Type 0} (client : Outgoing S CopyStream) where
  unfoldable pub send_info : S → ℤ → Bool → Bytes → Bytes → Bytes → Option Error × S
  send_info s ttl compressed master_key_nonce key_nonce iv = client.send s (
      CopyStream.info (record {
        ttl = ttl;
        compressed = compressed;
        master_key_nonce = master_key_nonce;
        key_nonce = key_nonce;
        iv = iv;
      }))

  -- the count grows before the stream answers
  unfoldable pub send_copy_chunk : CopySender S → Bytes → Option Error × CopySender S
  send_copy_chunk gc p =
      let (e, s) = client.send gc.c (CopyStream.chunk p) in
      (e, record { c = s; bytes_sent = gc.bytes_sent + length p })

  unfoldable pub send_copy_checksum : CopySender S → Bytes → Option Error × CopySender S
  send_copy_checksum gc [] = (none, gc)
  send_copy_checksum gc (b ∷ p) =
      let (e, s) = client.send gc.c (CopyStream.checksum (b ∷ p)) in (e, record gc { c = s })

  abbrev pub copy_sender : Sender (CopySender S)
  copy_sender = record { send_chunk = send_copy_chunk; send_checksum = send_copy_checksum }
