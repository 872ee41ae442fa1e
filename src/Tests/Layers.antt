-- ===== src/Tests/Layers.antt =====
-- Layers that add a number to each byte, in place of encryption and compression.
use webcb.Base.{
  ℕ, zero, suc, ◌+◌, ◌-◌, ◌≡◌, refl, sym, ◌∙◌, ap, ap₂, subst, List, [], ◌∷◌, ◌++◌, arith, Option,
  none, some, Result, ok, err, Error, eof, Bytes, length, take, concat,
}
use webcb.Stream.{ReadOut}
use webcb.Stream.Reader.{Reader, read}
use webcb.Stream.Writer.{Writer}
use webcb.Messages.{CopyStream, Outgoing}
use webcb.Client.Streams.{CopySender, copy_sender, PasteReceiver, paste_receiver}
use webcb.Client.Counter.{WriteCounter}
use webcb.Client.Counter
use webcb.Client.Layers.{Writers, Readers}
use webcb.Client.Copy.Layered.{write_all, write_all-first, raised, Encodes, Stacks}
use webcb.Client.Paste.Plain.{lifted, Bare}
use webcb.Client.Paste.Gives.{Gives}
use webcb.Client.Paste.Opened.{Readable, Opens}

abbrev each : (ℕ → ℕ) → Bytes → Bytes
each f [] = []
each f (b ∷ p) = f b ∷ each f p

each-append : (f : ℕ → ℕ) (p q : Bytes) → each f (p ++ q) ≡ each f p ++ each f q
each-append f [] q = refl
each-append f (b ∷ p) q = ap (λ l. f b ∷ l) (each-append f p q)

length-each : (f : ℕ → ℕ) (p : Bytes) → length (each f p) ≡ length p
length-each f [] = refl
length-each f (b ∷ p) = omega (arith, length-each f p)

take-each : (f : ℕ → ℕ) (n : ℕ) (p : Bytes) → take n (each f p) ≡ each f (take n p)
take-each f zero p = refl
take-each f (suc n) [] = refl
take-each f (suc n) (b ∷ p) = ap (λ l. f b ∷ l) (take-each f n p)

abbrev pub shift : ℕ → Bytes → Bytes
shift k = each (λ b. b + k)

abbrev unshift : ℕ → Bytes → Bytes
unshift k = each (λ b. b - k)

unshift-shift : (k : ℕ) (p : Bytes) → unshift k (shift k p) ≡ p
unshift-shift k [] = refl
unshift-shift k (b ∷ p) = ap₂ (λ x l. x ∷ l) (omega arith) (unshift-shift k p)

abbrev shift_all : ℕ → List Bytes → List Bytes
shift_all k [] = []
shift_all k (p ∷ ps) = shift k p ∷ shift_all k ps

concat-shift : (k : ℕ) (ps : List Bytes) → concat (shift_all k ps) ≡ shift k (concat ps)
concat-shift k [] = refl
concat-shift k (p ∷ ps) =
    ap (λ l. shift k p ++ l) (concat-shift k ps) ∙ sym (each-append (λ b. b + k) p (concat ps))

abbrev Cnt : Type 0
Cnt = WriteCounter (Writer (CopySender (List CopyStream)))

pub data Dst : Type 0 where
  plain : Cnt → Dst
  mapped : ℕ → Dst → Dst

-- A stream that takes everything; the messages are its state.
abbrev pub client : Outgoing (List CopyStream) CopyStream
client = record { send = λ s m. (none, s ++ m ∷ []); sent = λ s. s }

abbrev bottom : Dst → Cnt
bottom (plain c) = c
bottom (mapped k d) = bottom d

abbrev through : (Dst → Dst) → Option ((ℕ × Option Error) × Dst) → Option ((ℕ × Option Error) × Dst)
through f none = none
through f (some (r, d)) = some (r, f d)

abbrev put_out : Dst → Bytes → Option ((ℕ × Option Error) × Dst)
put_out (plain c) p =
    raised plain (Counter.write (webcb.Stream.Writer.write (copy_sender client)) c p)
put_out (mapped k d) p = through (mapped k) (put_out d (shift k p))

abbrev shut : Dst → Option (Option Error × Dst)
shut (plain c) = some (none, plain c)
shut (mapped k d) = some (none, d)

abbrev pub writers : Writers Cnt ℕ Dst
writers = record {
  base = plain;
  bottom = bottom;
  encrypter = λ k iv d. mapped k d;
  compressor = ok (mapped 1);
  write = put_out;
  close = shut;
}

mapped_all :
    (k : ℕ) (ps : List Bytes) (d d' : Dst)
    → write_all put_out d (shift_all k ps) ≡ some (none, d')
    → write_all put_out (mapped k d) ps ≡ some (none, mapped k d')
mapped_all k [] d d' h = ap (end_of) h
  where
    end_of : Option (Option Error × Dst) → Option (Option Error × Dst)
    end_of none = none
    end_of (some (e, x)) = some (e, mapped k x)
mapped_all k (p ∷ ps) d d' h =
    let (m, d1, e, f) = write_all-first put_out d d' (shift k p) (shift_all k ps) h in
    rw e (mapped_all k ps d1 d' f)

mapped-Encodes :
    (k : ℕ) (t : Cnt → Dst) (l : ℕ) (enc : Bytes → Bytes)
    → Encodes (copy_sender client) writers t l enc
    → Encodes
        (copy_sender client)
        writers
        (λ cnt. mapped k (t cnt))
        (suc l)
        (λ xs. enc (shift k xs))
mapped-Encodes k t l enc h ps =
    let (qs, e, run) = h (shift_all k ps) in
    (
      qs,
      e ∙ ap enc (concat-shift k ps),
      λ cnt cnt' w. let (d, x, c) = run cnt cnt' w in (mapped k d, mapped_all k ps (t cnt) d x, c),
    )

abbrev pub seal : ℕ → Bytes → Bytes → Bytes
seal k iv p = shift k p

abbrev pub pack : Bytes → Bytes
pack = shift 1

pub stacks : Stacks (copy_sender client) writers seal pack
stacks = record {
  write_base = λ cnt p. refl;
  bottom_base = λ cnt. refl;
  encrypts = λ k iv t l enc h. mapped-Encodes k t l enc h;
  compresses = λ f e t l enc h.
      subst
        (λ (g : Dst → Dst).
          Encodes (copy_sender client) writers (λ cnt. g (t cnt)) (suc l) (λ xs. enc (pack xs)))
        (ap made e) (mapped-Encodes 1 t l enc h);
}
  where
    made : Result (Dst → Dst) → Dst → Dst
    made (ok f) = f
    made (err e) = mapped 1

pub data Src : Type 0 where
  plain : Reader PasteReceiver → Src
  mapped : ℕ → Src → Src

abbrev bottom_read : Src → Reader PasteReceiver
bottom_read (Src.plain r) = r
bottom_read (Src.mapped k s) = bottom_read s

abbrev undo : ℕ → ReadOut Src → ReadOut Src
undo k o = record {
  n = o.n;
  error = o.error;
  buf = unshift k o.buf;
  reader = Src.mapped k o.reader;
}

abbrev undone : ℕ → Option (ReadOut Src) → Option (ReadOut Src)
undone k none = none
undone k (some o) = some (undo k o)

abbrev take_in : ℕ → Src → Bytes → Option (ReadOut Src)
take_in rounds (Src.plain r) buf = lifted Src.plain (read paste_receiver rounds r buf)
take_in rounds (Src.mapped k s) buf = undone k (take_in rounds s buf)

abbrev pub readers : ℕ → Readers (Reader PasteReceiver) ℕ Src
readers rounds = record {
  base = Src.plain;
  bottom = bottom_read;
  decrypter = λ k iv s. Src.mapped k s;
  decompressor = λ s. ok (Src.mapped 1 s);
  read = take_in rounds;
}

pub bare : (rounds : ℕ) → Bare (readers rounds) paste_receiver rounds
bare rounds = record { read_base = λ r buf. refl; bottom_base = λ r. refl }

abbrev checksum_of : Src → Bytes
checksum_of s = (bottom_read s).r.checksum

mapped-Gives :
    (rounds n k : ℕ) (key : ℕ) (s : Src) (all : Bytes) (e : Error) (sum : Bytes)
    → Gives (take_in rounds) checksum_of n k s all e sum
    → Gives (take_in rounds) checksum_of n k (Src.mapped key s) (unshift key all) e sum
mapped-Gives rounds n zero key s all e sum g = λ buf h.
    let (o, r, x, last, c) = g buf h in
    (
      undo key o,
      ap (undone key) r,
      x,
      λ y. (
        (last y).0 ∙ sym (length-each (λ b. b - key) all),
        take-each (λ b. b - key) o.n o.buf ∙ ap (unshift key) (last y).1,
      ),
      c,
    )
mapped-Gives rounds n (suc k) key s all e sum g = λ buf h.
    let (o, later, r, x, b, a, more) = g buf h in
    (
      undo key o,
      unshift key later,
      ap (undone key) r,
      x,
      length-each (λ b. b - key) o.buf ∙ b,
      ap (unshift key) a
          ∙ each-append (λ b. b - key) (take o.n o.buf) later
          ∙ ap (λ l. l ++ unshift key later) (sym (take-each (λ b. b - key) o.n o.buf)),
      mapped-Gives rounds n k key o.reader later e sum more,
    )

mapped-Readable :
    (rounds key : ℕ) (all sum : Bytes) (s : Src)
    → Readable (readers rounds) s (shift key all) sum
    → Readable (readers rounds) (Src.mapped key s) all sum
mapped-Readable rounds key all sum s r n p =
    let (k, g) = r n p in
    (
      k,
      subst (λ x. Gives (take_in rounds) checksum_of n k (Src.mapped key s) x eof sum)
          (unshift-shift key all) (mapped-Gives rounds n k key s (shift key all) eof sum g),
    )

pub opens : (rounds : ℕ) → Opens (readers rounds) seal pack
opens rounds = record {
  decrypts = λ k iv all sum s r. mapped-Readable rounds k all sum s r;
  decompresses = λ all sum s r. (Src.mapped 1 s, refl, mapped-Readable rounds 1 all sum s r);
}
