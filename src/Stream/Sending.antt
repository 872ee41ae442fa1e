-- ===== src/Stream/Sending.antt =====
-- Sending a list of chunks through the `Sender` of internal/grpc/writer.go.
use webcb.Base.{
  ℕ, ◌≡◌, refl, sym, ◌∙◌, ap, List, [], ◌∷◌, ◌++◌, arith, Option, none, some, Error, call-cases,
  inl, inr,
}
use webcb.Stream.{Sender}

module _ {S : Type 0} (sender : Sender S) where
  -- The chunks go out in order, up to the first that the sender refuses.
  pub send_all : S → List (List ℕ) → Option Error × S
  send_all s [] = (none, s)
  send_all s (c ∷ cs) =
      let (e, s') = sender.send_chunk s c in
      elim e [ some x ↦ (some x, s') | none ↦ send_all s' cs ]

  pub send_all-nil : (s : S) → send_all s [] ≡ (none, s)
  unfolding send_all
  send_all-nil s = refl

  pub send_all-accepted :
      (s s' : S) (c : List ℕ) (cs : List (List ℕ))
      → sender.send_chunk s c ≡ (none, s')
      → send_all s (c ∷ cs) ≡ send_all s' cs
  unfolding send_all
  send_all-accepted s s' c cs e = ground arith

  pub send_all-refused :
      (s s' : S) (c : List ℕ) (cs : List (List ℕ)) (x : Error)
      → sender.send_chunk s c ≡ (some x, s')
      → send_all s (c ∷ cs) ≡ (some x, s')
  unfolding send_all
  send_all-refused s s' c cs x e = ground arith

  pub send_all-append :
      (s s' : S) (cs ds : List (List ℕ))
      → send_all s cs ≡ (none, s')
      → send_all s (cs ++ ds) ≡ send_all s' ds
  unfolding send_all
  send_all-append s s' [] ds h = ap (λ (r : Option Error × S). send_all r.1 ds) h
  send_all-append s s' (c ∷ cs) ds h = elim (call-cases (sender.send_chunk s c)) [
    | inl (t, e) ↦
        (send_all-accepted s t c (cs ++ ds) e
          ∙ send_all-append t s' cs ds (sym (send_all-accepted s t c cs e) ∙ h))
    | inr (x, t, e) ↦ absurd (cc (send_all-refused s t c cs x e, h))
  ]

  pub send_all-append_stop :
      (s s' : S) (cs ds : List (List ℕ)) (x : Error)
      → send_all s cs ≡ (some x, s')
      → send_all s (cs ++ ds) ≡ (some x, s')
  unfolding send_all
  send_all-append_stop s s' [] ds x h = absurd (ground arith)
  send_all-append_stop s s' (c ∷ cs) ds x h = elim (call-cases (sender.send_chunk s c)) [
    | inl (t, e) ↦
        (send_all-accepted s t c (cs ++ ds) e
          ∙ send_all-append_stop t s' cs ds x (sym (send_all-accepted s t c cs e) ∙ h))
    | inr (y, t, e) ↦
        (send_all-refused s t c (cs ++ ds) y e ∙ sym (send_all-refused s t c cs y e) ∙ h)
  ]
