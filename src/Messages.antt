-- ===== src/Messages.antt =====
-- The messages of proto/cp.proto, as the handlers of server and client see them, and the gRPC
-- streams that carry them.
use webcb.Base.{
  ℕ, Bool, List, [], ◌∷◌, ◌++◌, ◌≡◌, ap, Option, none, some, Result, err, Error, eof, Bytes, String,
}
use webcb.Base.Int.{ℤ}

-- `CopyStream.Info`
pub record CopyInfo : Type 0 where
  pub ttl : ℤ
  pub compressed : Bool
  pub master_key_nonce : Bytes
  pub key_nonce : Bytes
  pub iv : Bytes

-- `CopyStream.data`; `nothing` is a message with no field of the oneof.
pub data CopyStream : Type 0 where
  info : CopyInfo → CopyStream
  chunk : Bytes → CopyStream
  checksum : Bytes → CopyStream
  nothing : CopyStream

-- `PastStream.Info`
pub record PastInfo : Type 0 where
  pub checksum : Bool
  pub compressed : Bool
  pub master_key_nonce : Bytes
  pub key_nonce : Bytes
  pub iv : Bytes

-- `PastStream.Error.Type`, with the numbers of `ErrorType` in server/clipboard.go
pub data ErrorType : Type 0 where
  invalid_option key_not_found : ErrorType

-- `PastStream.data`
pub data PastStream : Type 0 where
  info : PastInfo → PastStream
  chunk : Bytes → PastStream
  checksum : Bytes → PastStream
  error : ErrorType → String → PastStream
  nothing : PastStream

-- `ServerStatus`; the size is not negative.
pub record ServerStatus : Type 0 where
  pub db_size : ℕ
  pub db_path : String
  pub grpc_max_receive_bytes : ℤ
  pub gc_interval : ℤ
  pub dev_mode : Bool
  pub grpc_m_tls : Bool

-- What a receiving stream will give: messages and failures in order, then `io.EOF`.
abbrev pub Incoming : Type 0 → Type 0
Incoming M = List (Result M)

unfoldable pub recv : {M : Type 0} → Incoming M → Result M × Incoming M
recv [] = (err eof, [])
recv (m ∷ ms) = (m, ms)

-- A sending stream: `Send`, and `sent`, the messages that went out, in order.
pub record Outgoing (S M : Type 0) : Type 0 where
  pub send : S → M → Option Error × S
  pub sent : S → List M

-- What gRPC promises of a stream: a message that `Send` accepts goes out after the earlier ones,
-- one that it refuses does not.
pub record InOrder {S M : Type 0} (o : Outgoing S M) : Type 0 where
  pub accepted :
      (s : S) (m : M) → (o.send s m).0 ≡ none → o.sent (o.send s m).1 ≡ o.sent s ++ m ∷ []
  pub refused :
      (s : S) (m : M) (x : Error) → (o.send s m).0 ≡ some x → o.sent (o.send s m).1 ≡ o.sent s

-- A stream that takes every message.
abbrev pub Accepts : {S M : Type 0} → Outgoing S M → Type 0
Accepts {S} {M} o = (s : S) (m : M) → (o.send s m).0 ≡ none

pub sent_one :
    {S M : Type 0} (o : Outgoing S M)
    → Accepts o
    → (s : S) (m : M) → o.send s m ≡ (none, (o.send s m).1)
sent_one o accepts s m = ap (λ (e : Option Error). (e, (o.send s m).1)) (accepts s m)
