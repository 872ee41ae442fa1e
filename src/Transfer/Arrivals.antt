-- ===== src/Transfer/Arrivals.antt =====
-- What the messages of client/client.go and server/clipboard.go are when they arrive.
use webcb.Base.{
  ℕ, suc, ◌<◌, ◌≤◌, ◌≡◌, refl, ◌∙◌, ap, List, [], ◌∷◌, ◌++◌, arith, Option, none, some, ok, err,
  eof, Bytes, length, length-append, concat, All,
}
use webcb.Base.Int.{pos}
use webcb.Stream.Logged.{messages, concat-snoc}
use webcb.Messages.{CopyStream}
use webcb.Server.Streams.{next}
use webcb.Server.Handlers.{rate_of, meta_of}
use webcb.Server.Handlers.Chunks.{arrivals}
use webcb.Server.Handlers.RoundTrip.{info_of}
use webcb.Client.Options.{CopyConfig}
use webcb.Client.Streams.Laws.{delivered}
use webcb.Client.Copy.{Keys}
use webcb.Client.Copy.Stacked.{given}
use webcb.Client.Copy.Laws.{copy_checksum, header_of}
use webcb.Client.Paste.Opened.{Announces}

-- There are no more full chunks than bytes.
full_count :
    (n : ℕ) (cs : List Bytes) → 0 < n → All (λ c. length c ≡ n) cs → length cs ≤ length (concat cs)
full_count n [] p h = omega arith
full_count n (c ∷ cs) p (e, h) = omega (arith, e, length-append c (concat cs), full_count n cs p h)

chunk_count :
    (n : ℕ) (full : List Bytes) (last : Bytes)
    → 0 < n
    → All (λ c. length c ≡ n) full
    → length (full ++ last ∷ []) ≤ suc (length (concat (full ++ last ∷ [])))
chunk_count n full last p h = rw (concat-snoc full last) (
    omega (
      arith,
      length-append full (last ∷ []),
      length-append (concat full) last,
      full_count n full p h,
    ))

-- The messages of a copy after its header arrive as chunks, and then the end.
pub copied_arrivals :
    (cs : List Bytes) (sum : Bytes)
    → delivered (messages CopyStream.chunk cs ++ copy_checksum sum)
      ≡ arrivals cs (delivered (copy_checksum sum))
copied_arrivals [] sum = refl
copied_arrivals (c ∷ cs) sum = ap (λ t. ok (CopyStream.chunk c) ∷ t) (copied_arrivals cs sum)

pub checksum_ends :
    (sum : Bytes)
    → next (record { srv = delivered (copy_checksum sum); checksum = [] })
      ≡ (err eof, record { srv = []; checksum = sum })
unfolding next
checksum_ends [] = refl
checksum_ends (b ∷ p) = refl

pub rate_same : (m : ℕ) → 0 < m → rate_of (pos m) ≡ pos m
unfolding rate_of
rate_same m h = ground arith

pub only_later : {M : Type 0} (xs ys zs : List M) → xs ≡ ys ++ zs → ys ≡ [] → xs ≡ zs
only_later xs ys zs h e = h ∙ ap (λ l. l ++ zs) e

pub bounded :
    (n : ℕ) (cs full : List Bytes) (last enc : Bytes)
    → 0 < n
    → cs ≡ full ++ last ∷ []
    → All (λ c. length c ≡ n) full
    → concat cs ≡ enc
    → length cs ≤ suc (length enc)
bounded n cs full last enc p e sizes whole = rw (← whole, e) (chunk_count n full last p sizes)

pub header_Announces :
    {K F : Type 0} (config : CopyConfig) (x : Option (Keys K)) (y : Option F) (sum : Bytes)
    → config.compression ≡ given y
    → Announces (info_of (meta_of (header_of config x)) sum) x y
header_Announces config none y sum h = record {
  compressed = h;
  keys = λ k e. absurd (ground arith);
  no_keys = λ e. refl;
}
header_Announces {K} config (some k) y sum h = record {
  compressed = h;
  keys = λ l e.
      (same (λ j. j.master_key_nonce) l e, same (λ j. j.key_nonce) l e, same (λ j. j.iv) l e);
  no_keys = λ e. absurd (ground arith);
}
  where
    field_of : (Keys K → Bytes) → Option (Keys K) → Bytes
    field_of f none = []
    field_of f (some j) = f j

    same :
        (f : Keys K → Bytes) (l : Keys K) → ◌≡◌ {A = Option (Keys K)} (some k) (some l) → f k ≡ f l
    same f l e = ap (field_of f) e
