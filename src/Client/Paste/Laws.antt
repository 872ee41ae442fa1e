-- ===== src/Client/Paste/Laws.antt =====
-- What `Paste` of client/client.go puts out, and when it accepts it.
use webcb.Base.{
  ℕ, zero, suc, ◌<◌, ◌≡◌, refl, ◌∙◌, ap, subst, Bool, true, false, List, [], ◌∷◌, ◌++◌, append-nil,
  append_assoc, arith, Option, none, some, Result, ok, Error, eof, Bytes, bytes_eq, bytes_eq_refl,
  eq_of_bytes_eq, ◌==◌, ◌↔◌, length, take, replicate, length-replicate, ltb, if◌then◌else◌,
  Bool-cases, inl, inr,
}
use webcb.Base.Int.{pos}
use webcb.Stream.{ReadOut}
use webcb.Stream.Reader.{Reader, new_reader}
use webcb.Storage.Write.{is_eof}
use webcb.Messages.{PastInfo, PastStream, Incoming, recv}
use webcb.Crypto.{Crypto}
use webcb.Client.Options.{PasteOption, paste_config, default_paste_config}
use webcb.Client.Streams.{PasteReceiver}
use webcb.Client.Layers.{Readers}
use webcb.Client.Paste.{
  Sink, Pasted, hash_on, put, after_read, paste_data, sha256_size, verify, checked, layered, run,
  PasteCall, call_of, first, called, paste,
}
use webcb.Client.Paste.Gives.{Gives}

-- The output takes what it is given, in order.
pub record Takes {O : Type 0} (sink : Sink O) (held : O → Bytes) : Type 0 where
  pub accepts : (o : O) (p : Bytes) → (sink.write o p).0 ≡ none
  pub keeps : (o : O) (p : Bytes) → held (sink.write o p).1 ≡ held o ++ p

module _ {K Src O : Type 0} (crypto : Crypto K) (readers : Readers (Reader PasteReceiver) K Src)
    (sink : Sink O) {held : O → Bytes} (takes : Takes sink held) where
  -- the checksum that the reader at the bottom holds
  abbrev pub checksum_of : Src → Bytes
  checksum_of src = (readers.bottom src).r.checksum

  -- The loop ended with the checksum `sum`, after it put out and hashed `all`.
  pub record Output (info : PastInfo) (sum : Bytes) (all : Bytes) (out : O) (hashed : Bytes)
      (r : Option (Result (Pasted crypto readers sink) × O)) : Type 0 where
    pub out' : O
    pub finished : Pasted crypto readers sink
    pub result : r ≡ some (ok finished, out')
    pub source : checksum_of finished.src ≡ sum
    pub hash : finished.hashed ≡ (if info.checksum then hashed ++ all else hashed)
    pub output : held out' ≡ held out ++ all

  put_ok :
      (out : O) (p : Bytes) (info : PastInfo)
      (k : O → Option (Result (Pasted crypto readers sink) × O))
      → put crypto readers sink info (sink.write out p) k ≡ k (sink.write out p).1
  unfolding put
  put_ok out p info k =
      ap (λ (e : Option Error). put crypto readers sink info (e, (sink.write out p).1) k)
        (takes.accepts out p)

  module _ (info : PastInfo) where
    abbrev Loop : Type 0
    Loop = Option (Result (Pasted crypto readers sink) × O)

    abbrev hash : Bytes → Bytes → Bytes
    hash hashed p = hash_on crypto readers sink info hashed p

    read_more :
        (o : ReadOut Src) (out : O) (hashed : Bytes) (go : Src → Bytes → O → Bytes → Loop)
        → o.error ≡ none
        → after_read crypto readers sink info (some o) out hashed go
          ≡ go o.reader o.buf (sink.write out (take o.n o.buf)).1 (hash hashed (take o.n o.buf))
    unfolding after_read
    read_more o out hashed go e = rw (after_read, e) (put_ok out (take o.n o.buf) info _)

    read_last :
        (o : ReadOut Src) (out : O) (hashed : Bytes) (go : Src → Bytes → O → Bytes → Loop)
        → o.error ≡ some eof
        → (ltb 0 o.n ≡ true)
        → after_read crypto readers sink info (some o) out hashed go
          ≡ some (
            ok (record {
              src = o.reader;
              out = (sink.write out (take o.n o.buf)).1;
              hashed = hash hashed (take o.n o.buf);
            }),
            (sink.write out (take o.n o.buf)).1,
          )
    unfolding after_read is_eof
    read_last o out hashed go e h = rw (after_read, e, h) (put_ok out (take o.n o.buf) info _)

    read_end :
        (o : ReadOut Src) (out : O) (hashed : Bytes) (go : Src → Bytes → O → Bytes → Loop)
        → o.error ≡ some eof
        → (ltb 0 o.n ≡ false)
        → after_read crypto readers sink info (some o) out hashed go
          ≡ some (ok (record { src = o.reader; out = out; hashed = hashed }), out)
    unfolding after_read is_eof
    read_end o out hashed go e h = rw (after_read, e, h)

    hash-append :
        (hashed p q : Bytes)
        → (if info.checksum then hash hashed p ++ q else hash hashed p)
          ≡ (if info.checksum then hashed ++ (p ++ q) else hashed)
    unfolding hash_on
    hash-append hashed p q = elim (Bool-cases info.checksum) [
      | inl e ↦ rw (e, append_assoc)
      | inr e ↦ rw e
    ]

    hash_lem : (hashed p : Bytes) → hash hashed p ≡ (if info.checksum then hashed ++ p else hashed)
    unfolding hash_on
    hash_lem hashed p = refl

    Output-last :
        (sum : Bytes) (all : Bytes) (out : O) (hashed : Bytes) (o : ReadOut Src)
        (go : Src → Bytes → O → Bytes → Loop)
        → o.error ≡ some eof
        → (o.n ≡ length all) × (take o.n o.buf ≡ all)
        → checksum_of o.reader ≡ sum
        → Output info sum all out hashed
            (after_read crypto readers sink info (some o) out hashed go)
    Output-last sum all out hashed o go e g s = elim (Bool-cases (ltb 0 o.n)) [
      | inl h ↦ record {
        out' = (sink.write out (take o.n o.buf)).1;
        finished = _;
        result = read_last o out hashed go e h;
        source = s;
        hash =
            hash_lem hashed (take o.n o.buf)
            ∙ ap (λ p. if info.checksum then hashed ++ p else hashed) g.1;
        output = takes.keeps out (take o.n o.buf) ∙ ap (λ p. held out ++ p) g.1;
      }
      | inr h ↦ record {
        out' = out;
        finished = _;
        result = read_end o out hashed go e h;
        source = s;
        hash = rw (nothing all (ground arith), append-nil) (same info.checksum);
        output = rw (nothing all (ground arith), append-nil);
      }
    ]
      where
        nothing : (xs : Bytes) → length xs ≡ 0 → xs ≡ []
        nothing [] h = refl
        nothing (x ∷ xs) h = absurd (omega arith)

        same : (b : Bool) → hashed ≡ (if b then hashed else hashed)
        same true = refl
        same false = refl

    Output-more :
        (sum : Bytes) (p later : Bytes) (out : O) (hashed : Bytes) (r : Loop)
        → Output info sum later (sink.write out p).1 (hash hashed p) r
        → Output info sum (p ++ later) out hashed r
    Output-more sum p later out hashed r o = record {
      out' = o.out';
      finished = o.finished;
      result = o.result;
      source = o.source;
      hash = o.hash ∙ hash-append hashed p later;
      output =
          o.output ∙ ap (λ l. l ++ later) (takes.keeps out p) ∙ append_assoc (held out) p later;
    }

    paste_data-Output :
        (n k rounds : ℕ) (src : Src) (buf all : Bytes) (sum : Bytes) (out : O) (hashed : Bytes)
        → k < rounds
        → length buf ≡ n
        → Gives readers.read checksum_of n k src all eof sum
        → Output info sum all out hashed
            (paste_data crypto readers sink info rounds src buf out hashed)
    unfolding paste_data
    paste_data-Output n k zero src buf all sum out hashed l b g = absurd (omega arith)
    paste_data-Output n zero (suc rounds) src buf all sum out hashed l b g =
        let (o, e, x, last, s) = g buf b in
        rw e (
          Output-last sum all out hashed o (paste_data crypto readers sink info rounds) x
            (last refl) s)
    paste_data-Output n (suc k) (suc rounds) src buf all sum out hashed l b g =
        let (o, later, e, x, b', a, g') = g buf b in
        rw (e, a, read_more o out hashed (paste_data crypto readers sink info rounds) x)
          (Output-more sum (take o.n o.buf) later out hashed _ (
            paste_data-Output n k rounds o.reader o.buf later sum
              (sink.write out (take o.n o.buf)).1 (hash hashed (take o.n o.buf)) (omega arith) b'
              g'))

  -- The output has got `all` and the call ended; without an error exactly if no checksum was
  -- announced, or the one that was received is the hash of `all`.
  pub record Received (info : PastInfo) (sum all : Bytes) (out : O) (r : Option (Option Error × O))
      : Type 0 where
    pub out' : O
    pub error : Option Error
    pub returned : r ≡ some (error, out')
    pub output : held out' ≡ held out ++ all
    pub accepted :
        (error ≡ none)
        ↔ (info.checksum ≡ true → (length sum ≡ sha256_size) × (sum ≡ crypto.sha256 all))

  verify_iff :
      (info : PastInfo) (sum hashed : Bytes)
      → (verify crypto readers sink info sum hashed ≡ none)
        ↔ (info.checksum ≡ true → (length sum ≡ sha256_size) × (sum ≡ crypto.sha256 hashed))
  unfolding verify
  verify_iff info sum hashed = elim (Bool-cases info.checksum) [
    | inr off ↦ rw off (λ h c. absurd (ground arith), λ h. refl)
    | inl on ↦ elim (Bool-cases (length sum == sha256_size)) [
      | inr short ↦
          rw (on, short) (λ h. absurd (ground arith), λ h. absurd (ground (arith, (h refl).0)))
      | inl long ↦ elim (Bool-cases (bytes_eq sum (crypto.sha256 hashed))) [
        | inl same ↦
            rw (on, long, same)
              (λ h c. (ground arith, eq_of_bytes_eq sum (crypto.sha256 hashed) same), λ h. refl)
        | inr other ↦
            rw (on, long, other) (λ h. absurd (ground arith), λ h. absurd (differ other (h refl).1))
      ]
    ]
  ]
    where
      differ : bytes_eq sum (crypto.sha256 hashed) ≡ false → sum ≡ crypto.sha256 hashed → ⊥
      differ f e =
          absurd (ground (arith, subst (λ x. bytes_eq sum x ≡ true) e (bytes_eq_refl sum), f))

  Received-checked :
      (info : PastInfo) (sum : Bytes) (all : Bytes) (out : O)
      (r : Option (Result (Pasted crypto readers sink) × O))
      → Output info sum all out [] r
      → Received info sum all out (checked crypto readers sink info r)
  unfolding checked
  Received-checked info sum all out r o = record {
    out' = o.out';
    error =
        verify crypto readers sink info (readers.bottom o.finished.src).r.checksum
          o.finished.hashed;
    returned = rw o.result;
    output = o.output;
    accepted = rw (o.source, o.hash) (hashed_all info.checksum refl);
  }
    where
      hashed_all :
          (b : Bool)
          → info.checksum ≡ b
          → (verify crypto readers sink info sum (if b then all else []) ≡ none)
            ↔ (info.checksum ≡ true → (length sum ≡ sha256_size) × (sum ≡ crypto.sha256 all))
      hashed_all true e = verify_iff info sum all
      hashed_all false e = (
        λ h c. absurd (ground arith),
        λ h. (verify_iff info sum []).1 (λ c. absurd (ground arith)),
      )

  -- If the server's first message is a header, the layers for it can be made, and they give the
  -- bytes `all`, then `Paste` returns, in more rounds than reads, with all of them put out in their
  -- order. It reports no error exactly if no checksum was announced, or the checksum that the
  -- stream ended with has the size of a hash and is the hash of `all`.
  pub paste-Received :
      (rounds n k : ℕ) (opts : List PasteOption) (server : PasteCall → Result (Incoming PastStream))
      (secret : Result Bytes) (out : O) (info : PastInfo) (c : Incoming PastStream) (src : Src)
      (sum : Bytes) (all : Bytes)
      → (paste_config opts default_paste_config).chunk_size ≡ pos n
      → server (call_of (pos n)) ≡ ok (ok (PastStream.info info) ∷ c)
      → layered crypto readers sink info secret
          (readers.base (new_reader (record { c = c; checksum = [] })))
        ≡ ok src
      → Gives readers.read checksum_of n k src all eof sum
      → k < rounds
      → Received info sum all out (paste crypto readers sink rounds opts server secret out)
  unfolding paste called first run recv
  paste-Received rounds n k opts server secret out info c src sum all e f g gives l =
      rw (e, f, g)
        (Received-checked info sum all out _ (
          paste_data-Output info n k rounds src (replicate n 0) all sum out [] l
            (length-replicate {A = ℕ} n 0) gives))
