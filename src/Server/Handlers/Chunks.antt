-- ===== src/Server/Handlers/Chunks.antt =====
-- How the stream that `Copy` of server/clipboard.go reads cuts the bytes of the messages.
use webcb.Base.{
  ℕ, zero, suc, ◌-◌, ◌<◌, ◌≤◌, ◌≡◌, refl, sym, ◌∙◌, ap, subst, List, [], ◌∷◌, ◌++◌, arith, ok, err,
  Error, eof, Bytes, length, concat, length-drop, ltb, Bool-cases, inl, inr,
}
use webcb.Stream.{Receiver}
use webcb.Stream.Reader.{Reader, read}
use webcb.Stream.Reader.Copying.{unread, Tidy, Delivers}
use webcb.Stream.Reader.Laws.{Reads, read-Reads}
use webcb.Storage.Write.{StreamReader}
use webcb.Storage.Write.Laws.{Yields}
use webcb.Messages.{CopyStream, Incoming}
use webcb.Server.Streams.{receiver, next}

-- `l` bytes fill `k` buffers of `n` bytes, and leave fewer than `n`.
abbrev pub Fits : ℕ → ℕ → ℕ → Type 0
Fits n zero l = l < n
Fits n (suc k) l = (n ≤ l) × Fits n k (l - n)

-- Any number of bytes fits, in at most so many buffers.
pub fit : (n l fuel : ℕ) → 0 < n → l ≤ fuel → (k : ℕ) × (k ≤ l) × Fits n k l
fit n l zero p h = (0, omega arith, omega arith)
fit n l (suc fuel) p h = elim (Bool-cases (ltb l n)) [
  | inl short ↦ (0, omega arith, ground arith)
  | inr long ↦
      (let more = fit n (l - n) fuel p (ground arith) in
        (suc more.0, ground (arith, more.1), (ground arith, more.2)))
]

module _ {S : Type 0} (recv : Receiver S) (rounds : ℕ) where
  abbrev stream : StreamReader (Reader S)
  stream = record { read = read recv rounds; checksum = λ r. recv.checksum r.r }

  pub Reads-at :
      (n j : ℕ) (r : Reader S) (bs : Bytes) (e : Error) (s' : S)
      → j < rounds
      → 0 < n
      → Tidy r
      → Delivers recv j r.r bs e s'
      → (buf : Bytes) → length buf ≡ n
      → Reads recv rounds n (unread r ++ bs) e s' (read recv rounds r buf)
  Reads-at n j r bs e s' l p d v buf h =
      subst (λ m. Reads recv rounds m (unread r ++ bs) e s' (read recv rounds r buf)) h
        (read-Reads recv j rounds r buf bs e s' l (omega arith) d v)

  -- What a receiver delivers, `Read` yields buffer by buffer.
  pub Delivers-Yields :
      (n k j : ℕ) (r : Reader S) (bs : Bytes) (e : Error) (s' : S)
      → j < rounds
      → 0 < n
      → Tidy r
      → Delivers recv j r.r bs e s'
      → Fits n k (length (unread r ++ bs))
      → Yields stream n k r (unread r ++ bs) e (recv.checksum s')
  Delivers-Yields n zero j r bs e s' l p d v f = λ buf h.
      let o = (Reads-at n j r bs e s' l p d v buf h).short f in
      (o.result, o.returned, o.error, o.at_end, ap recv.checksum o.receiver, f)
  Delivers-Yields n (suc k) j r bs e s' l p d v f = λ buf h.
      let o = (Reads-at n j r bs e s' l p d v buf h).enough f.0 in
      (
        o.result,
        o.returned,
        o.no_error,
        o.count,
        o.bytes,
        f.0,
        subst (λ x. Yields stream n k o.result.reader x e (recv.checksum s')) o.rest
            (Delivers-Yields n k o.left o.result.reader o.to_come e s' o.in_rounds p o.tidy
              o.delivers
              (subst (Fits n k)
                (sym (ap (λ (x : Bytes). length x) o.rest ∙ length-drop n (unread r ++ bs))) f.1)),
      )

-- The messages of the chunks `cs`, and then the stream `t`.
abbrev pub arrivals : List Bytes → Incoming CopyStream → Incoming CopyStream
arrivals [] t = t
arrivals (c ∷ cs) t = ok (CopyStream.chunk c) ∷ arrivals cs t

-- The chunks, and then the end of the stream `t`: a checksum, or no message more.
pub arrivals-Delivers :
    (cs : List Bytes) (t t' : Incoming CopyStream) (old sum : Bytes)
    → next (record { srv = t; checksum = old }) ≡ (err eof, record { srv = t'; checksum = sum })
    → Delivers receiver
        (length cs)
        (record { srv = arrivals cs t; checksum = old })
        (concat cs)
        eof
        (record { srv = t'; checksum = sum })
unfolding next
arrivals-Delivers [] t t' old sum h = (h, refl)
arrivals-Delivers (c ∷ cs) t t' old sum h = (
  c,
  record { srv = arrivals cs t; checksum = old },
  concat cs,
  refl,
  refl,
  arrivals-Delivers cs t t' old sum h,
)
