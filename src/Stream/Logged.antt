-- ===== src/Stream/Logged.antt =====
-- A `Sender` of internal/grpc/writer.go that takes every chunk, and the log of what it sent.
use webcb.Base.{
  ℕ, ◌<◌, ◌≡◌, refl, sym, ◌∙◌, ap, List, [], ◌∷◌, ◌++◌, append-nil, append_assoc, arith, Option,
  none, some, Error, length, concat,
}
use webcb.Stream.{Sender}
use webcb.Stream.Sending.{send_all, send_all-nil, send_all-accepted}
use webcb.Stream.Writer.{Writer, pending, write, flush}
use webcb.Stream.Writer.Frames.{feed, feed-append, feed-nil}
use webcb.Stream.Writer.Laws.{Ready, report, write-Wrote}

abbrev pub messages : {M : Type 0} → (List ℕ → M) → List (List ℕ) → List M
messages msg [] = []
messages msg (c ∷ cs) = msg c ∷ messages msg cs

pub messages-append :
    {M : Type 0} (msg : List ℕ → M) (cs ds : List (List ℕ))
    → messages msg (cs ++ ds) ≡ messages msg cs ++ messages msg ds
messages-append msg [] ds = refl
messages-append msg (c ∷ cs) ds = rw (messages-append msg cs ds)

-- A header, full chunks and a last one, and what follows them, in the order in which they are sent.
pub arrange :
    {M : Type 0} (msg : List ℕ → M) (start : List M) (header : M) (full : List (List ℕ))
    (last : List ℕ) (ending : List M)
    → ((start ++ header ∷ []) ++ messages msg full) ++ (msg last ∷ ending)
      ≡ start ++ (header ∷ (messages msg (full ++ last ∷ []) ++ ending))
arrange msg start header full last ending = rw (
  messages-append msg full (last ∷ []),
  append_assoc (messages msg full) (msg last ∷ []) ending,
  append_assoc (start ++ header ∷ []) (messages msg full) (msg last ∷ ending),
  append_assoc start (header ∷ []) (messages msg full ++ msg last ∷ ending),
)

pub concat-snoc : (cs : List (List ℕ)) (c : List ℕ) → concat (cs ++ c ∷ []) ≡ concat cs ++ c
concat-snoc [] c = append-nil c
concat-snoc (d ∷ cs) c = rw (concat-snoc cs c, append_assoc)

-- The sender takes chunks and checksums, and `log` lists them as messages.
pub record Logs {S M : Type 0} (sender : Sender S) (log : S → List M) (msg : List ℕ → M)
    (ending : List ℕ → List M) : Type 0 where
  pub chunk :
      (s : S) (c : List ℕ)
      → (s' : S) × (sender.send_chunk s c ≡ (none, s')) × (log s' ≡ log s ++ msg c ∷ [])
  pub checksum :
      (s : S) (c : List ℕ)
      → (s' : S) × (sender.send_checksum s c ≡ (none, s')) × (log s' ≡ log s ++ ending c)

module _ {S M : Type 0} {sender : Sender S} {log : S → List M} {msg : List ℕ → M}
    {ending : List ℕ → List M} (logs : Logs sender log msg ending) where
  send_all-logged :
      (s : S) (cs : List (List ℕ))
      → (s' : S) × (send_all sender s cs ≡ (none, s')) × (log s' ≡ log s ++ messages msg cs)
  send_all-logged s [] = (s, send_all-nil sender s, sym (append-nil (log s)))
  send_all-logged s (c ∷ cs) =
      let (s1, e, a) = logs.chunk s c in
      let (s2, f, b) = send_all-logged s1 cs in
      (
        s2,
        send_all-accepted sender s s1 c cs e ∙ f,
        b ∙ ap (λ l. l ++ messages msg cs) a ∙ append_assoc (log s) (msg c ∷ []) (messages msg cs),
      )

  -- The writer `w'` follows `w` when `bs` was written.
  pub record After (n : ℕ) (w : Writer S) (bs : List ℕ) (w' : Writer S) : Type 0 where
    pub ready : Ready n w'
    pub waits : pending w' ≡ (feed n (pending w) bs).rest
    pub sent : log w'.s ≡ log w.s ++ messages msg (feed n (pending w) bs).full

  pub After-nil : (n : ℕ) (w : Writer S) → Ready n w → After n w [] w
  After-nil n w r = record { ready = r; waits = rw feed-nil; sent = rw (feed-nil, append-nil) }

  pub write-After :
      (n : ℕ) (w : Writer S) (p : List ℕ)
      → Ready n w
      → (w' : Writer S) × (write sender w p ≡ some ((length p, none), w')) × After n w p w'
  write-After n w p r =
      let t = write-Wrote sender n w p r in
      let a = send_all-logged w.s (feed n (pending w) p).full in
      let e = ap (λ (x : Option Error × S). x.0) a.1 in
      (
        t.writer,
        t.returned ∙ ap (λ (x : Option Error). some (report x (length p), t.writer)) e,
        record {
          ready = (t.ready e).0;
          waits = (t.ready e).1;
          sent = ap log (t.sender_after ∙ ap (λ (x : Option Error × S). x.1) a.1) ∙ a.2;
        },
      )

  pub After-append :
      (n : ℕ) (w v u : Writer S) (p bs : List ℕ)
      → After n w p v
      → After n v bs u
      → After n w (p ++ bs) u
  After-append n w v u p bs a b = record {
    ready = b.ready;
    waits = rw (feed-append, ← a.waits) b.waits;
    sent = rw (feed-append, messages-append, ← a.waits, ← append_assoc (log w.s), ← a.sent) b.sent;
  }

  flush_ok :
      (w : Writer S) (sum : List ℕ) (s1 s2 : S)
      → 0 < w.t_len
      → sender.send_chunk w.s (pending w) ≡ (none, s1)
      → sender.send_checksum s1 sum ≡ (none, s2)
      → flush sender w sum ≡ (none, record w { s = s2 })
  unfolding flush
  flush_ok w sum s1 s2 h e f = ground arith

  -- What is pending goes out, also if it is empty, and then the checksum.
  pub flush-logged :
      (n : ℕ) (w : Writer S) (sum : List ℕ)
      → Ready n w
      → (w' : Writer S) × (flush sender w sum ≡ (none, w'))
        × (log w'.s ≡ log w.s ++ (msg (pending w) ∷ ending sum))
  flush-logged n w sum r =
      let (s1, e, a) = logs.chunk w.s (pending w) in
      let (s2, f, b) = logs.checksum s1 sum in
      (
        record w { s = s2 },
        flush_ok w sum s1 s2 r.open_chunk e f,
        b
            ∙ ap (λ l. l ++ ending sum) a
            ∙ append_assoc (log w.s) (msg (pending w) ∷ []) (ending sum),
      )
