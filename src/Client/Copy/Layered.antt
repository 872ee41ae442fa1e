-- ===== src/Client/Copy/Layered.antt =====
-- What the layers over the stream of `Copy` of client/client.go make of the data.
use webcb.Base.{
  ℕ, zero, suc, ◌+◌, ◌≡◌, refl, ap, List, [], ◌∷◌, arith, Option, none, some, ok, Error, Bytes,
  length, length-append, concat,
}
use webcb.Stream.{Sender}
use webcb.Stream.Writer.{Writer}
use webcb.Stream.Writer.Laws.{Ready}
use webcb.Stream.Logged.{Logs, After, After-nil, After-append, write-After}
use webcb.Client.Counter.{WriteCounter}
use webcb.Client.Counter
use webcb.Client.Layers.{Writers}

module _ {D : Type 0} (write : D → Bytes → Option ((ℕ × Option Error) × D)) where
  abbrev proceed :
      Option ((ℕ × Option Error) × D) → (D → Option (Option Error × D)) → Option (Option Error × D)
  proceed none k = none
  proceed (some ((n, some e), d)) k = some (some e, d)
  proceed (some ((n, none), d)) k = k d

  -- `Write` of each slice in turn, up to the first error
  abbrev pub write_all : D → List Bytes → Option (Option Error × D)
  write_all d [] = some (none, d)
  write_all d (p ∷ ps) = proceed (write d p) (λ d'. write_all d' ps)

  next_inverse :
      (r : Option ((ℕ × Option Error) × D)) (k : D → Option (Option Error × D)) (d' : D)
      → proceed r k ≡ some (none, d')
      → (m : ℕ) × (d1 : D) × (r ≡ some ((m, none), d1)) × (k d1 ≡ some (none, d'))
  next_inverse none k d' h = absurd (ground arith)
  next_inverse (some ((m, some e), d)) k d' h = absurd (ground arith)
  next_inverse (some ((m, none), d)) k d' h = (m, d, refl, h)

  -- the first `Write` of a sequence without errors
  pub write_all-first :
      (d d' : D) (p : Bytes) (ps : List Bytes)
      → write_all d (p ∷ ps) ≡ some (none, d')
      → (m : ℕ) × (d1 : D) × (write d p ≡ some ((m, none), d1))
        × (write_all d1 ps ≡ some (none, d'))
  write_all-first d d' p ps h = next_inverse (write d p) (λ x. write_all x ps) d' h

module _ {D : Type 0} (close : D → Option (Option Error × D)) where
  abbrev next_closed :
      Option (Option Error × D) → (D → Option (Option Error × D)) → Option (Option Error × D)
  next_closed none k = none
  next_closed (some (some e, d)) k = some (some e, d)
  next_closed (some (none, d)) k = k d

  -- so many layers are closed, from the outermost on
  abbrev pub close_all : ℕ → D → Option (Option Error × D)
  close_all zero d = some (none, d)
  close_all (suc l) d = next_closed (close d) (close_all l)

  next_closed_inverse :
      (r : Option (Option Error × D)) (k : D → Option (Option Error × D)) (d' : D)
      → next_closed r k ≡ some (none, d')
      → (d1 : D) × (r ≡ some (none, d1)) × (k d1 ≡ some (none, d'))
  next_closed_inverse none k d' h = absurd (ground arith)
  next_closed_inverse (some (some e, d)) k d' h = absurd (ground arith)
  next_closed_inverse (some (none, d)) k d' h = (d, refl, h)

  pub close_all-first :
      (l : ℕ) (d d' : D)
      → close_all (suc l) d ≡ some (none, d')
      → (d1 : D) × (close d ≡ some (none, d1)) × (close_all l d1 ≡ some (none, d'))
  close_all-first l d d' h = next_closed_inverse (close d) (close_all l) d' h

-- The result of a `Write` at the bottom.
abbrev pub raised :
    {W Dst : Type 0}
    → (W → Dst)
    → Option ((ℕ × Option Error) × W)
    → Option ((ℕ × Option Error) × Dst)
raised f none = none
raised f (some (r, w)) = some (r, f w)

module _ {S K Dst : Type 0} (sender : Sender S)
    (writers : Writers (WriteCounter (Writer S)) K Dst) where
  abbrev Cnt : Type 0
  Cnt = WriteCounter (Writer S)

  -- `Write` of the counter over the writer of internal/grpc/writer.go
  abbrev pub count_write : Cnt → Bytes → Option ((ℕ × Option Error) × Cnt)
  count_write = Counter.write (webcb.Stream.Writer.write sender)

  -- The layers of `t`, `l` in number, make of any slices written to them other slices: these have
  -- the bytes `enc` of the bytes that were written, once the layers are closed. Writing to the
  -- layers and closing them goes well if writing those slices below goes well.
  abbrev pub Encodes : (Cnt → Dst) → ℕ → (Bytes → Bytes) → Type 0
  Encodes t l enc =
      (ps : List Bytes)
      → (qs : List Bytes) × (concat qs ≡ enc (concat ps))
        × ((cnt cnt' : Cnt)
            → write_all count_write cnt qs ≡ some (none, cnt')
            → (d : Dst) × (write_all writers.write (t cnt) ps ≡ some (none, d))
              × (close_all writers.close l d ≡ some (none, writers.base cnt')))

  -- What sio and zstd promise, for the sealing `seal` and the compression `pack`.
  pub record Stacks (seal : K → Bytes → Bytes → Bytes) (pack : Bytes → Bytes) : Type 0 where
    pub write_base :
        (cnt : Cnt) (p : Bytes)
        → writers.write (writers.base cnt) p ≡ raised writers.base (count_write cnt p)
    pub bottom_base : (cnt : Cnt) → writers.bottom (writers.base cnt) ≡ cnt
    pub encrypts :
        (k : K) (iv : Bytes) (t : Cnt → Dst) (l : ℕ) (enc : Bytes → Bytes)
        → Encodes t l enc
        → Encodes (λ cnt. writers.encrypter k iv (t cnt)) (suc l) (λ xs. enc (seal k iv xs))
    pub compresses :
        (f : Dst → Dst)
        → writers.compressor ≡ ok f
        → (t : Cnt → Dst) (l : ℕ) (enc : Bytes → Bytes) → Encodes t l enc
        → Encodes (λ cnt. f (t cnt)) (suc l) (λ xs. enc (pack xs))

  module _ {seal : K → Bytes → Bytes → Bytes} {pack : Bytes → Bytes}
      (stacks : Stacks seal pack) where
    base-writes :
        (cnt cnt' : Cnt) (ps : List Bytes)
        → write_all count_write cnt ps ≡ some (none, cnt')
        → write_all writers.write (writers.base cnt) ps ≡ some (none, writers.base cnt')
    base-writes cnt cnt' [] h = ap (raised_end) h
      where
        raised_end : Option (Option Error × Cnt) → Option (Option Error × Dst)
        raised_end none = none
        raised_end (some (e, c)) = some (e, writers.base c)
    base-writes cnt cnt' (p ∷ ps) h =
        let (m, c1, e, f) = write_all-first count_write cnt cnt' p ps h in
        rw (stacks.write_base cnt p, e) (base-writes c1 cnt' ps f)

    -- no layers
    pub base-Encodes : Encodes writers.base 0 (λ xs. xs)
    base-Encodes ps = (ps, refl, λ cnt cnt' h. (writers.base cnt', base-writes cnt cnt' ps h, refl))

module _ {S M : Type 0} {sender : Sender S} {log : S → List M} {msg : List ℕ → M}
    {ending : List ℕ → List M} (logs : Logs sender log msg ending) where
  abbrev write_counted :
      WriteCounter (Writer S) → Bytes → Option ((ℕ × Option Error) × WriteCounter (Writer S))
  write_counted = Counter.write (webcb.Stream.Writer.write sender)

  -- At the bottom every slice goes through, and is counted.
  pub bottom-After :
      (n : ℕ) (cnt : WriteCounter (Writer S)) (qs : List Bytes)
      → Ready n cnt.w
      → (cnt' : WriteCounter (Writer S)) × (write_all write_counted cnt qs ≡ some (none, cnt'))
        × After logs n cnt.w (concat qs) cnt'.w
        × (cnt'.sent ≡ cnt.sent + length (concat qs))
  unfolding Counter.write
  bottom-After n cnt [] r = (cnt, refl, After-nil logs n cnt.w r, omega arith)
  bottom-After n cnt (q ∷ qs) r =
      let (w1, e, a) = write-After logs n cnt.w q r in
      let (cnt', f, b, c) =
        bottom-After n (record { w = w1; sent = cnt.sent + length q }) qs a.ready in
      (
        cnt',
        rw e f,
        After-append logs n cnt.w w1 cnt'.w q (concat qs) a b,
        omega (arith, c, length-append q (concat qs)),
      )
