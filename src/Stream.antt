-- ===== src/Stream.antt =====
-- The interfaces of internal/grpc: where chunks come from and where they go.
pub mod Sending
pub mod Writer
pub mod Reader
pub mod Logged
use webcb.Base.{ℕ, List, Option, Result, Error}

-- `Receiver` of reader.go; `Next` returns a chunk or an error, `io.EOF` at the end.
pub record Receiver (S : Type 0) : Type 0 where
  pub next : S → Result (List ℕ) × S
  pub checksum : S → List ℕ

-- `Sender` of writer.go; a call returns its error and the sender that it leaves.
pub record Sender (S : Type 0) : Type 0 where
  pub send_chunk : S → List ℕ → Option Error × S
  pub send_checksum : S → List ℕ → Option Error × S

-- What a call of `Read` returns, the buffer that it was given, and the reader after it.
pub record ReadOut (R : Type 0) : Type 0 where
  pub n : ℕ
  pub error : Option Error
  pub buf : List ℕ
  pub reader : R
