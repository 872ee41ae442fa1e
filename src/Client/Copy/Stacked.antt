-- ===== src/Client/Copy/Stacked.antt =====
-- The layers that `Copy` of client/client.go makes, for its options.
use webcb.Base.{
  ℕ, ◌+◌, ◌≡◌, refl, ap, subst, Bool, true, false, arith, Option, none, some, Result, ok, err,
  Error, Bytes, if◌then◌else◌,
}
use webcb.Base.Try.{◌>>=◌}
use webcb.Stream.Writer.{Writer}
use webcb.Messages.{CopyStream, Outgoing}
use webcb.Crypto.{Crypto}
use webcb.Client.Options.{CopyConfig}
use webcb.Client.Streams.{CopySender, copy_sender}
use webcb.Client.Counter.{WriteCounter}
use webcb.Client.Layers.{Writers}
use webcb.Client.Copy.{Source, Keys, new_keys, layered, prepared}
use webcb.Client.Copy.Layered.{Encodes, Stacks, base-Encodes}
use webcb.Client.Copy.Loop.{layer_count}

abbrev pub given : {A : Type 0} → Option A → Bool
given none = false
given (some x) = true

-- What the layers make of the data: compressed first, if at all, and then sealed.
abbrev pub encoded :
    {K F : Type 0}
    → (K → Bytes → Bytes → Bytes)
    → (Bytes → Bytes)
    → Option (Keys K)
    → Option F
    → Bytes
    → Bytes
encoded seal pack none none xs = xs
encoded seal pack none (some f) xs = pack xs
encoded seal pack (some k) none xs = seal k.cipher k.iv xs
encoded seal pack (some k) (some f) xs = seal k.cipher k.iv (pack xs)

abbrev result_of : {F : Type 0} → Option F → Result F → Result F
result_of (some f) q = ok f
result_of none q = q

abbrev counted : Bool → Bool → ℕ
counted b c = (if c then 1 else 0) + (if b then 1 else 0)

module _ {A F : Type 0} where
  abbrev both : Bool → Bool → Result A → Result F → Result (Option A × Option F)
  both b c r q = do
    x ← if b then (r >>= λ k. ok (some k)) else ok none
    y ← if c then (q >>= λ f. ok (some f)) else ok none
    ok (x, y)

  abbrev Made : Bool → Bool → Result A → Result F → Option A × Option F → Type 0
  Made b c r q (x, y) =
      (b ≡ given x)
      × (c ≡ given y)
      × ((k : A) → x ≡ some k → r ≡ ok k)
      × ((f : F) → y ≡ some f → q ≡ ok f)

  abbrev parts_of : Result (Option A × Option F) → Option A × Option F → Option A × Option F
  parts_of (err e) p = p
  parts_of (ok p') p = p'

  both-Made :
      (b c : Bool) (r : Result A) (q : Result F) (p : Option A × Option F)
      → both b c r q ≡ ok p
      → Made b c r q p
  both-Made false false r q p h =
      subst (Made false false r q) (ap (λ x. parts_of x p) h)
        (refl, refl, λ k g. absurd (ground arith), λ f g. absurd (ground arith))
  both-Made false true r (err e) p h = absurd (ground arith)
  both-Made false true r (ok f) p h =
      subst (Made false true r (ok f)) (ap (λ x. parts_of x p) h)
        (refl, refl, λ k g. absurd (ground arith), λ g e. ap (λ y. result_of y (ok f)) e)
  both-Made true c (err e) q p h = absurd (ground arith)
  both-Made true false (ok k) q p h =
      subst (Made true false (ok k) q) (ap (λ x. parts_of x p) h)
        (refl, refl, λ l e. ap (λ y. result_of y (ok k)) e, λ f g. absurd (ground arith))
  both-Made true true (ok k) (err e) p h = absurd (ground arith)
  both-Made true true (ok k) (ok f) p h =
      subst (Made true true (ok k) (ok f)) (ap (λ x. parts_of x p) h)
        (refl, refl, λ l e. ap (λ y. result_of y (ok k)) e, λ g e. ap (λ y. result_of y (ok f)) e)

module _ {S I K Dst : Type 0} (client : Outgoing S CopyStream)
    (close_and_recv : S → Option Error × S) (source : Source I) (crypto : Crypto K)
    (writers : Writers (WriteCounter (Writer (CopySender S))) K Dst)
    {seal : K → Bytes → Bytes → Bytes} {pack : Bytes → Bytes}
    (stacks : Stacks (copy_sender client) writers seal pack) (config : CopyConfig) where
  abbrev stack : Option (Keys K) → Option (Dst → Dst) → WriteCounter (Writer (CopySender S)) → Dst
  stack = layered client close_and_recv source crypto writers config

  layered-Encodes :
      (b c : Bool) (x : Option (Keys K)) (y : Option (Dst → Dst))
      → (r : Result (Keys K)) → Made b c r writers.compressor (x, y)
      → Encodes (copy_sender client) writers (stack x y) (counted b c) (encoded seal pack x y)
  unfolding layered
  layered-Encodes b c none none r (e, g, _, h) =
      rw (e, g) (base-Encodes (copy_sender client) writers stacks)
  layered-Encodes b c none (some f) r (e, g, _, h) =
      rw (e, g)
        (stacks.compresses f (h f refl) writers.base 0 (λ xs. xs)
          (base-Encodes (copy_sender client) writers stacks))
  layered-Encodes b c (some k) none r (e, g, _, h) =
      rw (e, g)
        (stacks.encrypts k.cipher k.iv writers.base 0 (λ xs. xs)
          (base-Encodes (copy_sender client) writers stacks))
  layered-Encodes b c (some k) (some f) r (e, g, _, h) =
      rw (e, g)
        (stacks.compresses f (h f refl) _ 1 (λ xs. seal k.cipher k.iv xs)
          (stacks.encrypts k.cipher k.iv writers.base 0 (λ xs. xs)
            (base-Encodes (copy_sender client) writers stacks)))

  prepared-Made :
      (secret : Result Bytes) (x : Option (Keys K)) (y : Option (Dst → Dst))
      → prepared client close_and_recv source crypto writers config secret ≡ ok (x, y)
      → Made config.encryption config.compression (new_keys crypto secret) writers.compressor (x, y)
  unfolding prepared
  prepared-Made secret x y h =
      both-Made config.encryption config.compression (new_keys crypto secret) writers.compressor
        (x, y) h

  pub prepared-Encodes :
      (secret : Result Bytes) (x : Option (Keys K)) (y : Option (Dst → Dst))
      → prepared client close_and_recv source crypto writers config secret ≡ ok (x, y)
      → Encodes
          (copy_sender client)
          writers
          (stack x y)
          (layer_count config)
          (encoded seal pack x y)
  prepared-Encodes secret x y h =
      layered-Encodes config.encryption config.compression x y (new_keys crypto secret)
        (prepared-Made secret x y h)

  -- The keys are those of the secret, and the option for compression tells whether there is an encoder.
  pub prepared-keys :
      (secret : Result Bytes) (x : Option (Keys K)) (y : Option (Dst → Dst))
      → prepared client close_and_recv source crypto writers config secret ≡ ok (x, y)
      → ((k : Keys K) → x ≡ some k → new_keys crypto secret ≡ ok k) × (config.compression ≡ given y)
  prepared-keys secret x y h = let (_, g, k, _) = prepared-Made secret x y h in (k, g)
