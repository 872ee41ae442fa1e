-- ===== src/Client/Counter.antt =====
-- `Counter` of client/client.go: a writer or a reader that counts the bytes which went through it.
use webcb.Base.{ℕ, ◌+◌, Option, none, some, Error, Bytes}
use webcb.Stream.{ReadOut}

-- `sent` and the writer, of a counter made by `BytesWriteCounter`
pub record WriteCounter (W : Type 0) : Type 0 where
  pub w : W
  pub sent : ℕ

-- `received` and the reader, of a counter made by `BytesReadCounter`
pub record ReadCounter (R : Type 0) : Type 0 where
  pub r : R
  pub received : ℕ

unfoldable pub bytes_write_counter : {W : Type 0} → W → WriteCounter W
bytes_write_counter w = record { w = w; sent = 0 }

unfoldable pub bytes_read_counter : {R : Type 0} → R → ReadCounter R
bytes_read_counter r = record { r = r; received = 0 }

-- a call, and the bytes that it reports are counted, also with an error
counted_write :
    {W : Type 0}
    → ℕ
    → Option ((ℕ × Option Error) × W)
    → Option ((ℕ × Option Error) × WriteCounter W)
counted_write sent none = none
counted_write sent (some ((n, e), w)) = some ((n, e), record { w = w; sent = sent + n })

unfoldable pub write :
    {W : Type 0}
    → (W → Bytes → Option ((ℕ × Option Error) × W))
    → WriteCounter W
    → Bytes
    → Option ((ℕ × Option Error) × WriteCounter W)
unfolding counted_write
write under cnt p = counted_write cnt.sent (under cnt.w p)

counted_read : {R : Type 0} → ℕ → Option (ReadOut R) → Option (ReadOut (ReadCounter R))
counted_read received none = none
counted_read received (some o) = some (record {
  n = o.n;
  error = o.error;
  buf = o.buf;
  reader = record { r = o.reader; received = received + o.n };
})

unfoldable pub read :
    {R : Type 0}
    → (R → Bytes → Option (ReadOut R))
    → ReadCounter R
    → Bytes
    → Option (ReadOut (ReadCounter R))
unfolding counted_read
read under cnt p = counted_read cnt.received (under cnt.r p)
