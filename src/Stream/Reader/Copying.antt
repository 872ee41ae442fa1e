-- ===== src/Stream/Reader/Copying.antt =====
-- The copying block of `Read` of internal/grpc/reader.go.
use webcb.Base.{
  ℕ, zero, suc, ◌+◌, ◌-◌, ◌<◌, ◌≡◌, ◌≢◌, refl, sym, ◌∙◌, ap, true, false, List, [], ◌++◌,
  append-nil, append_assoc, arith, ok, err, Error, length, take, drop, copied, copy_at, length-drop,
  length-copy_at, take-copy_at, take-append-drop, take_all, drop_all, drop-drop, Bool-cases, inl,
  inr, ltb, ◌==◌,
}
use webcb.Stream.{Receiver}
use webcb.Stream.Reader.{Reader, Filling, copy_out}

-- The bytes of the last chunk that no buffer has taken yet.
abbrev pub unread : {S : Type 0} → Reader S → List ℕ
unread r = drop r.t_index r.t

-- The counters agree with the last chunk.
abbrev pub Tidy : {S : Type 0} → Reader S → Type 0
Tidy r = r.t_index + r.t_len ≡ length r.t

-- From `s`, the receiver gives `k` chunks, the bytes `bs` in all, and then the error `e`, which
-- leaves it at `s'`.
abbrev pub Delivers : {S : Type 0} → Receiver S → ℕ → S → List ℕ → Error → S → Type 0
Delivers recv zero s bs e s' = (recv.next s ≡ (err e, s')) × (bs ≡ [])
Delivers {S} recv (suc k) s bs e s' =
    (c : List ℕ) × (m : S) × (later : List ℕ) × (recv.next s ≡ (ok c, m))
    × (bs ≡ c ++ later)
    × Delivers recv k m later e s'

module _ {S : Type 0} where
  -- What the copying block does to the reader `r` and the buffer `p`.
  pub record Copied (r : Reader S) (p : List ℕ) (f : Filling S) : Type 0 where
    pub same : f.reader.r ≡ r.r
    pub size : length f.buf ≡ length p
    pub tidy : Tidy f.reader
    pub at_full : f.is_full ≡ true → f.buf ++ unread f.reader ≡ take r.p_index p ++ unread r
    pub at_part :
        f.is_full ≡ false
        → (f.reader.p_index < length p)
          × (take f.reader.p_index f.buf ≡ take r.p_index p ++ unread r)

  module _ (r : Reader S) (p : List ℕ) (h : r.p_index < length p) (d : Tidy r) where
    abbrev moves : ℕ
    moves = copied r.p_index p r.t_index r.t

    abbrev filled : List ℕ
    filled = copy_at r.p_index (unread r) p

    Copied-idle : r.t_len ≡ 0 → Copied r p (record { reader = r; buf = p; is_full = false })
    Copied-idle e = record {
      same = refl;
      size = refl;
      tidy = d;
      at_full = λ q. absurd (ground arith);
      at_part = λ _. (h, rw (drop_all r.t_index r.t (omega arith), append-nil));
    }

    buf-filled :
        (k : ℕ) → r.p_index + moves ≡ k → take k filled ≡ take r.p_index p ++ take moves (unread r)
    buf-filled k e =
        take-copy_at r.p_index moves k (unread r) p e (omega (arith, length-drop r.t_index r.t))
          (omega arith)

    Copied-full :
        moves + r.p_index ≡ length p
        → Copied r p (record {
          reader = record r { t_index = r.t_index + moves; t_len = r.t_len - moves };
          buf = filled;
          is_full = true;
        })
    Copied-full e = record {
      same = refl;
      size = length-copy_at r.p_index (unread r) p;
      tidy = omega arith;
      at_full = λ _. rw (
        whole,
        append_assoc,
        ← drop-drop r.t_index moves (r.t_index + moves) r.t refl,
        take-append-drop,
      );
      at_part = λ q. absurd (ground arith);
    }
      where
        whole : filled ≡ take r.p_index p ++ take moves (unread r)
        whole =
            sym (take_all (length p) filled (omega (arith, length-copy_at r.p_index (unread r) p)))
            ∙ buf-filled (length p) (omega arith)

    Copied-part :
        moves + r.p_index ≢ length p
        → Copied r p (record {
          reader = record r {
            t_index = r.t_index + moves;
            t_len = r.t_len - moves;
            p_index = moves + r.p_index;
          };
          buf = filled;
          is_full = false;
        })
    Copied-part ne = record {
      same = refl;
      size = length-copy_at r.p_index (unread r) p;
      tidy = omega arith;
      at_full = λ q. absurd (ground arith);
      at_part = λ _. (
        omega arith,
        buf-filled (moves + r.p_index) (omega arith)
            ∙ ap (λ l. take r.p_index p ++ l)
                (take_all moves (unread r) (omega (arith, length-drop r.t_index r.t))),
      );
    }

    pub copy_out-Copied : Copied r p (copy_out r p)
    unfolding copy_out
    copy_out-Copied = elim (Bool-cases (ltb 0 r.t_len)) [
      | inl busy ↦ elim (Bool-cases (moves + r.p_index == length p)) [
        | inl full ↦ rw (busy, full) (Copied-full (ground arith))
        | inr part ↦ rw (busy, part) (Copied-part (ground arith))
      ]
      | inr idle ↦ rw idle (Copied-idle (ground arith))
    ]
