-- ===== src/Stream/Reader/Laws.antt =====
-- `Read` of internal/grpc/reader.go against the bytes that its receiver delivers.
use webcb.Base.{
  ℕ, zero, suc, ◌<◌, ◌≤◌, ◌≡◌, ◌≢◌, refl, sym, ◌∙◌, ap, true, false, List, [], ◌++◌, append-nil,
  append_assoc, arith, Option, none, some, Result, ok, err, Error, eof, length, take, drop,
  length-take, length-append, take-append, drop-append, Bool-cases, inl, inr,
}
use webcb.Stream.{Receiver, ReadOut}
use webcb.Stream.Reader.{Reader, copy_out, loaded, ended, after_next, read_loop, read}
use webcb.Stream.Reader.Copying.{unread, Tidy, Delivers, Copied, copy_out-Copied}

module _ {S : Type 0} (r : Reader S) (s : S) (p : List ℕ) where
  ended-error : (x : Error) → (ended r s p x).error ≡ some x
  unfolding ended
  ended-error eof = refl
  ended-error _ = refl

  ended-r : (x : Error) → (ended r s p x).reader.r ≡ s
  unfolding ended
  ended-r eof = refl
  ended-r _ = refl

  ended_failed : (x : Error) → x ≢ eof → (ended r s p x).n ≡ 0
  unfolding ended
  ended_failed eof h = absurd (h refl)
  ended_failed _ h = refl

  ended-at_eof :
      ended r s p eof
      ≡ record { n = r.p_index; error = some eof; buf = p; reader = record r { r = s } }
  unfolding ended
  ended-at_eof = refl

-- What a call of `Read` with a buffer of `n` bytes returns, when the bytes `all` are to come before
-- the error `e`, which leaves the receiver at `s'`. With `n` bytes or more the buffer is full, there
-- is no error, and exactly the other bytes are still to come. With fewer, the error comes, and at
-- the end of the stream the bytes too.
pub record Filled {S : Type 0} (recv : Receiver S) (rounds n : ℕ) (all : List ℕ) (e : Error)
    (s' : S) (out : Option (ReadOut (Reader S))) : Type 0 where
  pub result : ReadOut (Reader S)
  pub returned : out ≡ some result
  pub count : result.n ≡ n
  pub no_error : result.error ≡ none
  pub bytes : result.buf ≡ take n all
  pub tidy : Tidy result.reader
  pub left : ℕ
  pub in_rounds : left < rounds
  pub to_come : List ℕ
  pub delivers : Delivers recv left result.reader.r to_come e s'
  pub rest : unread result.reader ++ to_come ≡ drop n all

pub record Ended {S : Type 0} (all : List ℕ) (e : Error) (s' : S)
    (out : Option (ReadOut (Reader S))) : Type 0 where
  pub result : ReadOut (Reader S)
  pub returned : out ≡ some result
  pub error : result.error ≡ some e
  pub at_end : e ≡ eof → (result.n ≡ length all) × (take result.n result.buf ≡ all)
  pub on_failure : e ≢ eof → result.n ≡ 0
  pub receiver : result.reader.r ≡ s'

pub record Reads {S : Type 0} (recv : Receiver S) (rounds n : ℕ) (all : List ℕ) (e : Error) (s' : S)
    (out : Option (ReadOut (Reader S))) : Type 0 where
  pub enough : n ≤ length all → Filled recv rounds n all e s' out
  pub short : length all < n → Ended all e s' out

module _ {S : Type 0} (recv : Receiver S) where
  loop_full :
      (rounds : ℕ) (r : Reader S) (p : List ℕ)
      → (copy_out r p).is_full ≡ true
      → read_loop recv (suc rounds) r p
        ≡ some (record {
          n = length p;
          error = none;
          buf = (copy_out r p).buf;
          reader = (copy_out r p).reader;
        })
  unfolding read_loop
  loop_full rounds r p h = rw h

  loop_ended :
      (rounds : ℕ) (r : Reader S) (p : List ℕ) (x : Error) (s : S)
      → (copy_out r p).is_full ≡ false
      → recv.next (copy_out r p).reader.r ≡ (err x, s)
      → read_loop recv (suc rounds) r p ≡ some (ended (copy_out r p).reader s (copy_out r p).buf x)
  unfolding read_loop after_next
  loop_ended rounds r p x s h e =
      simp h
        (ap (λ (z : Result (List ℕ) × S). after_next z (copy_out r p) (read_loop recv rounds)) e)

  loop_more :
      (rounds : ℕ) (r : Reader S) (p : List ℕ) (c : List ℕ) (s : S)
      → (copy_out r p).is_full ≡ false
      → recv.next (copy_out r p).reader.r ≡ (ok c, s)
      → read_loop recv (suc rounds) r p
        ≡ read_loop recv rounds (loaded (copy_out r p).reader s c) (copy_out r p).buf
  unfolding read_loop after_next
  loop_more rounds r p c s h e =
      simp h
        (ap (λ (z : Result (List ℕ) × S). after_next z (copy_out r p) (read_loop recv rounds)) e)

-- One round more changes nothing.
Reads-later :
    {S : Type 0} {recv : Receiver S} {rounds n : ℕ} {all : List ℕ} {e : Error} {s' : S}
    {out : Option (ReadOut (Reader S))}
    → Reads recv rounds n all e s' out
    → Reads recv (suc rounds) n all e s' out
Reads-later r = record {
  enough = λ h.
      let f = r.enough h in
      record {
        result = f.result;
        returned = f.returned;
        count = f.count;
        no_error = f.no_error;
        bytes = f.bytes;
        tidy = f.tidy;
        left = f.left;
        in_rounds = omega (arith, f.in_rounds);
        to_come = f.to_come;
        delivers = f.delivers;
        rest = f.rest;
      };
  short = r.short;
}

module _ {S : Type 0} (recv : Receiver S) (rounds : ℕ) (r : Reader S) (p bs : List ℕ) (e : Error)
    (s' : S) (g : r.p_index < length p) (d : Tidy r) where
  abbrev all : List ℕ
  all = take r.p_index p ++ (unread r ++ bs)

  abbrev c : Copied r p (copy_out r p)
  c = copy_out-Copied r p g d

  Reads-full :
      (k : ℕ)
      → k < suc rounds
      → (copy_out r p).is_full ≡ true
      → Delivers recv k r.r bs e s'
      → Reads recv (suc rounds) (length p) all e s' (read_loop recv (suc rounds) r p)
  Reads-full k l full v = record {
    enough = λ _. record {
      result = _;
      returned = loop_full recv rounds r p full;
      count = refl;
      no_error = refl;
      bytes =
          sym (take-append (length p) _ (unread (copy_out r p).reader ++ bs) c.size)
          ∙ ap (take (length p)) whole;
      tidy = c.tidy;
      left = k;
      in_rounds = l;
      to_come = bs;
      delivers = rw c.same v;
      rest =
          sym (drop-append (length p) _ (unread (copy_out r p).reader ++ bs) c.size)
          ∙ ap (drop (length p)) whole;
    };
    short = λ l. absurd (
        omega (
          arith,
          c.size,
          ap (λ (l : List ℕ). length l) whole,
          length-append (copy_out r p).buf (unread (copy_out r p).reader ++ bs),
        ));
  }
    where
      whole : (copy_out r p).buf ++ (unread (copy_out r p).reader ++ bs) ≡ all
      whole =
          sym (append_assoc (copy_out r p).buf (unread (copy_out r p).reader) bs)
          ∙ ap (λ l. l ++ bs) (c.at_full full)
          ∙ append_assoc (take r.p_index p) (unread r) bs

  -- what the buffer holds when the last chunk is used up
  so_far :
      (copy_out r p).is_full ≡ false
      → take (copy_out r p).reader.p_index (copy_out r p).buf ++ bs ≡ all
  so_far part = ap (λ l. l ++ bs) (c.at_part part).1 ∙ append_assoc (take r.p_index p) (unread r) bs

  Reads-ended :
      (copy_out r p).is_full ≡ false
      → recv.next r.r ≡ (err e, s')
      → bs ≡ []
      → Reads recv (suc rounds) (length p) all e s' (read_loop recv (suc rounds) r p)
  Reads-ended part v z = record {
    enough = λ l. absurd (omega (arith, counted, (c.at_part part).0));
    short = λ _. record {
      result = ended (copy_out r p).reader s' (copy_out r p).buf e;
      returned = loop_ended recv rounds r p e s' part (ap recv.next c.same ∙ v);
      error = ended-error (copy_out r p).reader s' (copy_out r p).buf e;
      at_end = λ q. ended-eof q;
      on_failure = ended_failed (copy_out r p).reader s' (copy_out r p).buf e;
      receiver = ended-r (copy_out r p).reader s' (copy_out r p).buf e;
    };
  }
    where
      held : take (copy_out r p).reader.p_index (copy_out r p).buf ≡ all
      held =
          sym (append-nil _)
          ∙ ap (λ l. take (copy_out r p).reader.p_index (copy_out r p).buf ++ l) (sym z)
          ∙ so_far part

      counted : length all ≡ (copy_out r p).reader.p_index
      counted = omega (
        arith,
        ap (λ (l : List ℕ). length l) held,
        length-take (copy_out r p).reader.p_index (copy_out r p).buf,
        (c.at_part part).0,
        c.size,
      )

      ended-eof :
          e ≡ eof
          → let o = ended (copy_out r p).reader s' (copy_out r p).buf e in
            (o.n ≡ length all) × (take o.n o.buf ≡ all)
      ended-eof q = rw (q, ended-at_eof) (sym counted, held)

  Reads-more :
      (l : List ℕ) (m : S) (later : List ℕ)
      → (copy_out r p).is_full ≡ false
      → recv.next r.r ≡ (ok l, m)
      → bs ≡ l ++ later
      → let r' = loaded (copy_out r p).reader m l in
        let p' = (copy_out r p).buf in
        Reads recv rounds
          (length p')
          (take r'.p_index p' ++ (unread r' ++ later))
          e
          s'
          (read_loop recv rounds r' p')
        → Reads recv (suc rounds) (length p) all e s' (read_loop recv (suc rounds) r p)
  unfolding loaded
  Reads-more l m later part v z ih =
      rw (loop_more recv rounds r p l m part (ap recv.next c.same ∙ v), ← so_far part, z, ← c.size)
        (Reads-later ih)

module _ {S : Type 0} (recv : Receiver S) where
  read_loop-Reads :
      (k rounds : ℕ) (r : Reader S) (p bs : List ℕ) (e : Error) (s' : S)
      → k < rounds
      → r.p_index < length p
      → Tidy r
      → Delivers recv k r.r bs e s'
      → Reads recv rounds
          (length p)
          (take r.p_index p ++ (unread r ++ bs))
          e
          s'
          (read_loop recv rounds r p)
  unfolding loaded
  read_loop-Reads k zero r p bs e s' h g d v = absurd (omega arith)
  read_loop-Reads zero (suc rounds) r p bs e s' h g d v = elim (Bool-cases (copy_out r p).is_full) [
    | inl full ↦ Reads-full recv rounds r p bs e s' g d zero h full v
    | inr part ↦ Reads-ended recv rounds r p bs e s' g d part v.0 v.1
  ]
  read_loop-Reads (suc k) (suc rounds) r p bs e s' h g d v =
      elim (Bool-cases (copy_out r p).is_full) [
        | inl full ↦ Reads-full recv rounds r p bs e s' g d (suc k) h full v
        | inr part ↦
            (Reads-more recv rounds r p bs e s' g d v.0 v.1 v.2 part v.3 v.4 (
              read_loop-Reads k rounds (loaded (copy_out r p).reader v.1 v.0) (copy_out r p).buf v.2
                e s' (omega arith) (index_after part (copy_out-Copied r p g d)) (omega arith)
                (deliver v.5)))
      ]
    where
      index_after :
          (copy_out r p).is_full ≡ false
          → Copied r p (copy_out r p)
          → (loaded (copy_out r p).reader v.1 v.0).p_index < length (copy_out r p).buf
      index_after part f = omega (arith, (f.at_part part).0, f.size)

      deliver :
          Delivers recv k v.1 v.2 e s'
          → Delivers recv k (loaded (copy_out r p).reader v.1 v.0).r v.2 e s'
      deliver u = u

  -- A call of `Read` with a buffer that is not empty returns, if it has more rounds than the receiver
  -- has chunks left. With as many bytes to come as the buffer has, it fills the buffer with the next
  -- of them, and exactly the others are still to come. With fewer, it returns the receiver's error,
  -- and at the end of the stream the remaining bytes with it.
  pub read-Reads :
      (k rounds : ℕ) (r : Reader S) (p bs : List ℕ) (e : Error) (s' : S)
      → k < rounds
      → 0 < length p
      → Tidy r
      → Delivers recv k r.r bs e s'
      → Reads recv rounds (length p) (unread r ++ bs) e s' (read recv rounds r p)
  unfolding read
  read-Reads k rounds r p bs e s' h g d v =
      read_loop-Reads k rounds (record r { p_index = 0 }) p bs e s' h g d v
