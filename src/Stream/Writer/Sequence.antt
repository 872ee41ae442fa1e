-- ===== src/Stream/Writer/Sequence.antt =====
-- Several calls of `Write` of internal/grpc/writer.go, and the `Flush` that ends them.
use webcb.Base.{
  ℕ, ◌≡◌, refl, ◌∙◌, ap, List, [], ◌∷◌, ◌++◌, arith, Option, none, some, Error, length, concat,
  call-cases, inl, inr,
}
use webcb.Stream.{Sender}
use webcb.Stream.Writer.{Writer, pending, write}
use webcb.Stream.Writer.Frames.{feed, feed-append, feed-nil}
use webcb.Stream.Sending.{send_all, send_all-nil, send_all-append, send_all-append_stop}
use webcb.Stream.Writer.Laws.{Ready, Wrote, report, write-Wrote}

module _ {S : Type 0} (sender : Sender S) where
  -- after one `Write` of a sequence, the rest of it, unless there was an error
  abbrev continue :
      Option ((ℕ × Option Error) × Writer S)
      → (Writer S → Option (Option Error × Writer S))
      → Option (Option Error × Writer S)
  continue none k = none
  continue (some ((n, some x), w)) k = some (some x, w)
  continue (some ((n, none), w)) k = k w

  -- `Write` of each slice in turn, up to the first error
  pub write_each : Writer S → List (List ℕ) → Option (Option Error × Writer S)
  write_each w [] = some (none, w)
  write_each w (p ∷ ps) = continue (write sender w p) (λ w'. write_each w' ps)

  -- The result of a sequence, when sending ends in `sent` and the bytes `rest` remain.
  pub record Fed (n : ℕ) (sent : Option Error × S) (rest : List ℕ)
      (out : Option (Option Error × Writer S)) : Type 0 where
    pub writer : Writer S
    pub returned : out ≡ some (sent.0, writer)
    pub sender_after : writer.s ≡ sent.1
    pub ready : sent.0 ≡ none → Ready n writer × (pending writer ≡ rest)

  Fed-cons :
      (n : ℕ) (s : S) (acc p bs : List ℕ) (len : ℕ) (out : Option ((ℕ × Option Error) × Writer S))
      (k : Writer S → Option (Option Error × Writer S))
      → Wrote sender n (send_all sender s (feed n acc p).full) (feed n acc p).rest len out
      → ((w : Writer S)
          → Ready n w
          → let cut = feed n (pending w) bs in Fed n (send_all sender w.s cut.full) cut.rest (k w))
      → let cut = feed n acc (p ++ bs) in
        Fed n (send_all sender s cut.full) cut.rest (continue out k)
  Fed-cons n s acc p bs len out k w ih = elim (call-cases (send_all sender s (feed n acc p).full)) [
    | inl (t, e) ↦
        (let at : w.writer.s ≡ t = w.sender_after ∙ ap (λ (r : Option Error × S). r.1) e in
          let ready : Ready n w.writer × (pending w.writer ≡ (feed n acc p).rest) =
            w.ready (ap (λ (r : Option Error × S). r.0) e) in
          rw
            (
              feed-append,
              send_all-append sender s t (feed n acc p).full (feed n (feed n acc p).rest bs).full e,
              ← at,
              ← ready.1,
              go_on (send_all sender s (feed n acc p).full).0 w.writer w.returned
                  (ap (λ (r : Option Error × S). r.0) e),
            )
            (ih w.writer ready.0))
    | inr (x, t, e) ↦
        (rw
          (
            feed-append,
            send_all-append_stop sender s t (feed n acc p).full (feed n (feed n acc p).rest bs).full
                x e,
          )
          (record {
            writer = w.writer;
            returned =
                stop (send_all sender s (feed n acc p).full).0 w.writer x w.returned
                  (ap (λ (r : Option Error × S). r.0) e);
            sender_after = w.sender_after ∙ ap (λ (r : Option Error × S). r.1) e;
            ready = λ h. absurd (ground arith);
          }))
  ]
    where
      go_on :
          (r : Option Error) (v : Writer S)
          → out ≡ some (report r len, v)
          → r ≡ none
          → continue out k ≡ k v
      go_on r v h g = rw (h, g)

      stop :
          (r : Option Error) (v : Writer S) (x : Error)
          → out ≡ some (report r len, v)
          → r ≡ some x
          → continue out k ≡ some (some x, v)
      stop r v x h g = rw (h, g)

  -- From a writer that is ready, any sequence of calls of `Write` returns. It sends the chunks of the
  -- byte-at-a-time description of all their bytes together, however they were split between the
  -- calls, up to the first that the sender refuses; without a refusal the writer is ready again,
  -- and the unsent bytes wait in its buffer.
  pub write_each-Fed :
      (n : ℕ) (w : Writer S) (ps : List (List ℕ))
      → Ready n w
      → let cut = feed n (pending w) (concat ps) in
        Fed n (send_all sender w.s cut.full) cut.rest (write_each w ps)
  unfolding write_each
  write_each-Fed n w [] r =
      rw (feed-nil, send_all-nil)
        (record { writer = w; returned = refl; sender_after = refl; ready = λ _. (r, refl) })
  write_each-Fed n w (p ∷ ps) r =
      Fed-cons n w.s (pending w) p (concat ps) (length p) (write sender w p) (λ v. write_each v ps)
        (write-Wrote sender n w p r) (λ v q. write_each-Fed n v ps q)
