-- ===== src/PayloadText/Peeled.antt =====
-- How far unwrapPayloadLayers of cmd/plaintext_format.go peels a payload.
use network_observability_cl.Base.{
  ◌≡◌, refl, ap, ◌∙◌, arith, ℕ, zero, suc, ◌≤◌, ◌<◌, true, false, Bytes, [], ◌∷◌, ◌==◌, ==_iff,
  and-true, ◌⊎◌, inl, inr, if_cases,
}
use network_observability_cl.PayloadText.Layers.{
  Decoders, bytes_equal, unwrap_payload_layer, unwrap_up_to, unwrap_payload_layers,
}

pub bytes_equal-eq : (xs ys : Bytes) → bytes_equal xs ys ≡ true → xs ≡ ys
unfolding bytes_equal
bytes_equal-eq [] [] h = refl
bytes_equal-eq (x ∷ xs) (y ∷ ys) h =
    let both = and-true (x == y) (bytes_equal xs ys) h in
    ap (λ z. z ∷ xs) ((==_iff x y).0 both.0) ∙ ap (◌∷◌ y) (bytes_equal-eq xs ys both.1)
bytes_equal-eq [] (y ∷ ys) h = cc
bytes_equal-eq (x ∷ xs) [] h = cc

module _ (decoders : Decoders) where
  -- The layers one after the other.
  abbrev pub peeled : ℕ → Bytes → Bytes
  peeled zero bytes = bytes
  peeled (suc n) bytes = peeled n (unwrap_payload_layer decoders bytes)

  -- Peeled a number of times: as often as is allowed, or until a layer changes nothing; and each of the
  -- layers before changed something.
  pub record Peeled (depth : ℕ) (bytes result : Bytes) : Type 0 where
    pub times : ℕ
    pub at_most : times ≤ depth
    pub reached : result ≡ peeled times bytes
    pub ended : (times ≡ depth) ⊎ (unwrap_payload_layer decoders result ≡ result)
    pub changed : (n : ℕ) → n < times → bytes_equal (peeled (suc n) bytes) (peeled n bytes) ≡ false

  changed_before :
      (bytes : Bytes) (times n : ℕ)
      → bytes_equal (unwrap_payload_layer decoders bytes) bytes ≡ false
      → ((k : ℕ)
          → k < times
          → bytes_equal
              (peeled (suc k) (unwrap_payload_layer decoders bytes))
              (peeled k (unwrap_payload_layer decoders bytes))
            ≡ false)
      → n < suc times
      → bytes_equal (peeled (suc n) bytes) (peeled n bytes) ≡ false
  changed_before bytes times zero first later h = first
  changed_before bytes times (suc n) first later h = later n (omega (arith, h))

  one_more :
      (depth : ℕ) (bytes result : Bytes)
      → bytes_equal (unwrap_payload_layer decoders bytes) bytes ≡ false
      → Peeled depth (unwrap_payload_layer decoders bytes) result
      → Peeled (suc depth) bytes result
  one_more depth bytes result first p = record {
    times = suc p.times;
    at_most = omega (arith, p.at_most);
    reached = p.reached;
    ended = elim p.ended [ inl all ↦ inl (ap suc all) | inr stable ↦ inr stable ];
    changed = λ n h. changed_before bytes p.times n first p.changed h;
  }

  unwrap_up_to-Peeled :
      (depth : ℕ) (bytes : Bytes) → Peeled depth bytes (unwrap_up_to decoders depth bytes)
  unfolding unwrap_up_to
  unwrap_up_to-Peeled zero bytes = record {
    times = 0;
    at_most = omega arith;
    reached = refl;
    ended = inl refl;
    changed = λ n h. absurd (omega (arith, h));
  }
  unwrap_up_to-Peeled (suc depth) bytes =
      let next = unwrap_payload_layer decoders bytes in
      if_cases (Peeled (suc depth) bytes) (bytes_equal next bytes) bytes
        (unwrap_up_to decoders depth next)
        (λ same. record {
          times = 0;
          at_most = omega arith;
          reached = refl;
          ended = inr (bytes_equal-eq next bytes same);
          changed = λ n h. absurd (omega (arith, h));
        })
        (λ other.
          one_more depth bytes (unwrap_up_to decoders depth next) other
            (unwrap_up_to-Peeled depth next))

  -- The result is the payload peeled at most six times, where each of the layers changed it, and no
  -- further layer changes it unless six were peeled.
  pub unwrap_payload_layers-Peeled :
      (bytes : Bytes) → Peeled 6 bytes (unwrap_payload_layers decoders bytes)
  unfolding unwrap_payload_layers
  unwrap_payload_layers-Peeled bytes = unwrap_up_to-Peeled 6 bytes
