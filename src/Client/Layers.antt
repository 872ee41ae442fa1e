-- ===== src/Client/Layers.antt =====
-- The writers and readers that the client stacks on its stream: encryption by sio and compression by
-- zstd, neither of which is part of this repository.
use webcb.Base.{ℕ, Option, Result, Error, Bytes}
use webcb.Stream.{ReadOut}

-- An `io.Writer` over the writer `W`. Making a layer writes nothing. `close` closes the outermost
-- layer, which writes what it still holds, and leaves what is under it.
pub record Writers (W K Dst : Type 0) : Type 0 where
  pub base : W → Dst
  pub bottom : Dst → W
  pub encrypter : K → Bytes → Dst → Dst
  -- `zstd.NewWriter`, which looks at its options only
  pub compressor : Result (Dst → Dst)
  pub write : Dst → Bytes → Option ((ℕ × Option Error) × Dst)
  pub close : Dst → Option (Option Error × Dst)

-- An `io.Reader` over the reader `R`.
pub record Readers (R K Src : Type 0) : Type 0 where
  pub base : R → Src
  pub bottom : Src → R
  pub decrypter : K → Bytes → Src → Src
  -- `zstd.NewReader`
  pub decompressor : Src → Result Src
  pub read : Src → Bytes → Option (ReadOut Src)
