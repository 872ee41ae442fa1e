-- ===== src/Client/Paste/Gives.antt =====
-- What a reader has to give, for the loop of `Paste` of client/client.go.
use webcb.Base.{ℕ, zero, suc, ◌≡◌, ◌++◌, Option, none, some, Error, eof, Bytes, length, take}
use webcb.Stream.{ReadOut}

-- Over calls with buffers of `n` bytes, `src` gives the bytes `all` in `k` reads and one more, which
-- ends with the error `x` and, if that is the end of the data, the last bytes. At the end the
-- checksum is `sum`.
abbrev pub Gives :
    {Src : Type 0}
    → (Src → Bytes → Option (ReadOut Src))
    → (Src → Bytes)
    → ℕ
    → ℕ
    → Src
    → Bytes
    → Error
    → Bytes
    → Type 0
Gives {Src} read checksum n zero src all x sum =
    (buf : Bytes)
    → length buf ≡ n
    → (o : ReadOut Src) × (read src buf ≡ some o)
      × (o.error ≡ some x)
      × (x ≡ eof → (o.n ≡ length all) × (take o.n o.buf ≡ all))
      × (checksum o.reader ≡ sum)
Gives {Src} read checksum n (suc k) src all x sum =
    (buf : Bytes)
    → length buf ≡ n
    → (o : ReadOut Src) × (later : Bytes) × (read src buf ≡ some o)
      × (o.error ≡ none)
      × (length o.buf ≡ n)
      × (all ≡ take o.n o.buf ++ later)
      × Gives read checksum n k o.reader later x sum
