-- ===== src/Stream/Writer/Frames.antt =====
-- What internal/grpc/writer.go is to send, described one byte at a time.
use webcb.Base.{
  ℕ, suc, ◌+◌, ◌<◌, ◌≡◌, refl, ◌∙◌, ap, List, [], ◌∷◌, ◌++◌, append_assoc, append-nil, arith,
  length, length-append, concat, true, false, ◌==◌, All, ◌≢◌,
}
use native.Mathlib.Decide.{ℕ_discrete}

-- Full chunks, and the bytes that do not fill one.
pub record Cut : Type 0 where
  pub full : List (List ℕ)
  pub rest : List ℕ

-- Each byte joins the open chunk `acc`, which is closed when it has `n` bytes.
pub feed : ℕ → List ℕ → List ℕ → Cut
feed n acc [] = record { full = []; rest = acc }
feed n acc (x ∷ xs) = elim (suc (length acc) == n) [
  | true ↦ (let c = feed n [] xs in record { full = (acc ++ x ∷ []) ∷ c.full; rest = c.rest })
  | false ↦ feed n (acc ++ x ∷ []) xs
]

abbrev pub closed : ℕ → List ℕ → List ℕ → Cut
closed n chunk ys = record { full = chunk ∷ (feed n [] ys).full; rest = (feed n [] ys).rest }

length-snoc : (acc : List ℕ) (x : ℕ) → length (acc ++ x ∷ []) ≡ suc (length acc)
length-snoc acc x = omega (arith, length-append acc (x ∷ []))

feed-cons_more :
    (n : ℕ) (acc : List ℕ) (x : ℕ) (xs : List ℕ)
    → suc (length acc) ≢ n
    → feed n acc (x ∷ xs) ≡ feed n (acc ++ x ∷ []) xs
unfolding feed
feed-cons_more n acc x xs h = ground arith

feed-cons_full :
    (n : ℕ) (acc : List ℕ) (x : ℕ) (xs : List ℕ)
    → suc (length acc) ≡ n
    → feed n acc (x ∷ xs) ≡ closed n (acc ++ x ∷ []) xs
unfolding feed
feed-cons_full n acc x xs h = ground arith

pub feed-nil : (n : ℕ) (acc : List ℕ) → feed n acc [] ≡ record { full = []; rest = acc }
unfolding feed
feed-nil n acc = refl

-- Bytes that do not fill the open chunk only make it longer.
pub feed-append_short :
    (n : ℕ) (acc xs ys : List ℕ)
    → length acc + length xs < n
    → feed n acc (xs ++ ys) ≡ feed n (acc ++ xs) ys
feed-append_short n acc [] ys h = rw append-nil
feed-append_short n acc (x ∷ xs) ys h =
    feed-cons_more n acc x (xs ++ ys) (omega arith)
    ∙ feed-append_short n (acc ++ x ∷ []) xs ys (omega (arith, length-snoc acc x))
    ∙ ap (λ l. feed n l ys) (append_assoc acc (x ∷ []) xs)

-- Bytes that fill the open chunk exactly close it.
pub feed-append_full :
    (n : ℕ) (acc xs ys : List ℕ)
    → length acc + length xs ≡ n
    → 0 < length xs
    → feed n acc (xs ++ ys) ≡ closed n (acc ++ xs) ys
feed-append_full n acc [] ys h g = absurd (omega arith)
feed-append_full n acc (x ∷ []) ys h g = feed-cons_full n acc x ys (omega arith)
feed-append_full n acc (x ∷ y ∷ xs) ys h g =
    feed-cons_more n acc x (y ∷ xs ++ ys) (omega arith)
    ∙ feed-append_full n (acc ++ x ∷ []) (y ∷ xs) ys (omega (arith, length-snoc acc x))
        (omega arith)
    ∙ ap (λ l. closed n l ys) (append_assoc acc (x ∷ []) (y ∷ xs))

-- Feeding two pieces is feeding their concatenation.
pub feed-append :
    (n : ℕ) (acc xs ys : List ℕ)
    → feed n acc (xs ++ ys) ≡ record {
      full = (feed n acc xs).full ++ (feed n (feed n acc xs).rest ys).full;
      rest = (feed n (feed n acc xs).rest ys).rest;
    }
feed-append n acc [] ys = rw (feed-nil n acc)
feed-append n acc (x ∷ xs) ys = elim (ℕ_discrete (suc (length acc)) n) [
  | yes e ↦
      rw (feed-cons_full n acc x (xs ++ ys) e, feed-cons_full n acc x xs e, feed-append n [] xs ys)
  | no ne ↦
      (rw (feed-cons_more n acc x (xs ++ ys) ne, feed-cons_more n acc x xs ne)
        (feed-append n (acc ++ x ∷ []) xs ys))
]

-- Nothing is lost: chunks and rest hold the bytes in order.
pub concat-feed :
    (n : ℕ) (acc xs : List ℕ) → concat (feed n acc xs).full ++ (feed n acc xs).rest ≡ acc ++ xs
concat-feed n acc [] = rw (feed-nil n acc, append-nil)
concat-feed n acc (x ∷ xs) = elim (ℕ_discrete (suc (length acc)) n) [
  | yes e ↦ rw (
    feed-cons_full n acc x xs e,
    append_assoc (acc ++ x ∷ []) _ _,
    concat-feed n [] xs,
    append_assoc,
  )
  | no ne ↦ rw (feed-cons_more n acc x xs ne, concat-feed n (acc ++ x ∷ []) xs, append_assoc)
]

-- Every closed chunk has `n` bytes, and the open one fewer.
pub feed-sizes :
    (n : ℕ) (acc xs : List ℕ)
    → length acc < n
    → All (λ c. length c ≡ n) (feed n acc xs).full × (length (feed n acc xs).rest < n)
feed-sizes n acc [] h = rw (feed-nil n acc) (tt, h)
feed-sizes n acc (x ∷ xs) h = elim (ℕ_discrete (suc (length acc)) n) [
  | yes e ↦
      (let ih = feed-sizes n [] xs (omega arith) in
        rw (feed-cons_full n acc x xs e) ((length-snoc acc x ∙ e, ih.0), ih.1))
  | no ne ↦
      (rw (feed-cons_more n acc x xs ne)
        (feed-sizes n (acc ++ x ∷ []) xs (omega (arith, length-snoc acc x))))
]
