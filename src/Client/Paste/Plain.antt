-- ===== src/Client/Paste/Plain.antt =====
-- `Paste` of client/client.go of data that is neither encrypted nor compressed.
use webcb.Base.{
  ℕ, zero, suc, ◌<◌, ◌≡◌, refl, sym, ◌∙◌, ap, subst, List, [], ◌++◌, arith, Option, none, some,
  Error, eof, Bytes, length, take, drop, concat, length-take, length-drop, take-append-drop,
  take_all,
}
use webcb.Stream.{Receiver, ReadOut}
use webcb.Stream.Reader.{Reader, new_reader, read}
use webcb.Stream.Reader.Copying.{unread, Tidy, Delivers}
use webcb.Server.Handlers.Chunks.{Fits, fit, Reads-at}
use webcb.Client.Layers.{Readers}
use webcb.Client.Paste.Gives.{Gives}
use webcb.Client.Paste.Opened.{Readable}
use webcb.Client.Streams.{PasteReceiver, paste_receiver}
use webcb.Client.Streams.Laws.{delivered, sent-Delivers}
use webcb.Server.Handlers.Pasting.{chunk_messages, checksum_messages}

-- a read of what is at the bottom
abbrev pub lifted : {R Src : Type 0} → (R → Src) → Option (ReadOut R) → Option (ReadOut Src)
lifted f none = none
lifted f (some o) = some (record { n = o.n; error = o.error; buf = o.buf; reader = f o.reader })

-- Without layers, a read is the one of internal/grpc/reader.go.
pub record Bare {S K Src : Type 0} (readers : Readers (Reader S) K Src) (recv : Receiver S)
    (rounds : ℕ) : Type 0 where
  pub read_base :
      (r : Reader S) (buf : Bytes)
      → readers.read (readers.base r) buf ≡ lifted readers.base (read recv rounds r buf)
  pub bottom_base : (r : Reader S) → readers.bottom (readers.base r) ≡ r

module _ {S K Src : Type 0} {readers : Readers (Reader S) K Src} {recv : Receiver S} (rounds : ℕ)
    (bare : Bare readers recv rounds) where
  abbrev checksum_of : Src → Bytes
  checksum_of src = recv.checksum (readers.bottom src).r

  -- What the receiver delivers is read buffer by buffer.
  pub bare-Gives :
      (n k j : ℕ) (r : Reader S) (bs : Bytes) (e : Error) (s' : S)
      → j < rounds
      → 0 < n
      → Tidy r
      → Delivers recv j r.r bs e s'
      → Fits n k (length (unread r ++ bs))
      → Gives readers.read checksum_of n k (readers.base r) (unread r ++ bs) e (recv.checksum s')
  bare-Gives n zero j r bs e s' l p d v f = λ buf h.
      let o = (Reads-at recv rounds n j r bs e s' l p d v buf h).short f in
      (
        record {
          n = o.result.n;
          error = o.result.error;
          buf = o.result.buf;
          reader = readers.base o.result.reader;
        },
        bare.read_base r buf ∙ ap (lifted readers.base) o.returned,
        o.error,
        o.at_end,
        ap (λ (x : Reader S). recv.checksum x.r) (bare.bottom_base o.result.reader)
            ∙ ap recv.checksum o.receiver,
      )
  bare-Gives n (suc k) j r bs e s' l p d v f = λ buf h.
      let all = unread r ++ bs in
      let o = (Reads-at recv rounds n j r bs e s' l p d v buf h).enough f.0 in
      let same : take o.result.n o.result.buf ≡ take n all =
        ap (λ m. take m o.result.buf) o.count
        ∙ ap (take n) o.bytes
        ∙ take_all n (take n all) (omega (arith, length-take n all)) in
      (
        record {
          n = o.result.n;
          error = o.result.error;
          buf = o.result.buf;
          reader = readers.base o.result.reader;
        },
        drop n all,
        bare.read_base r buf ∙ ap (lifted readers.base) o.returned,
        o.no_error,
        ap (λ (x : Bytes). length x) o.bytes ∙ omega (arith, length-take n all, f.0),
        sym (ap (λ x. x ++ drop n all) same ∙ take-append-drop n all),
        subst
            (λ x.
              Gives readers.read checksum_of n k (readers.base o.result.reader) x e
                (recv.checksum s'))
            o.rest
            (bare-Gives n k o.left o.result.reader o.to_come e s' o.in_rounds p o.tidy o.delivers (
              subst (Fits n k) (sym (ap (λ (x : Bytes). length x) o.rest ∙ length-drop n all))
                f.1)),
      )

-- What the server sent after the header of a paste can be read without layers.
pub base-Readable :
    {K Src : Type 0} {readers : Readers (Reader PasteReceiver) K Src} (rounds : ℕ)
    (bare : Bare readers paste_receiver rounds) (cs : List Bytes) (all sum : Bytes)
    → length cs < rounds
    → concat cs ≡ all
    → Readable readers
        (readers.base (
          new_reader
            (record { c = delivered (chunk_messages cs ++ checksum_messages sum); checksum = [] })))
        all
        sum
unfolding new_reader
base-Readable {K} {Src} {readers} rounds bare cs all sum l e n p =
    let r : Reader PasteReceiver =
      new_reader
        (record { c = delivered (chunk_messages cs ++ checksum_messages sum); checksum = [] }) in
    let (k, _, f) = fit n (length all) (length all) p (omega arith) in
    (
      k,
      subst
          (λ x.
            Gives {Src = Src} readers.read (λ s. (readers.bottom s).r.checksum) n k (readers.base r)
              x eof sum)
          e
          (bare-Gives rounds bare n k (length cs) r (concat cs) eof
            (record { c = []; checksum = sum }) l p refl (sent-Delivers cs sum) (rw e f)),
    )
