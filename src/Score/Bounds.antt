-- ===== src/Score/Bounds.antt =====
-- The three tiers of base scores, and what the time bonus can and cannot do.
use network_observability_cl.Base.{
  ℕ, ◌+◌, ◌<◌, ◌≤◌, Bool, true, false, Option, none, some, ◌≡◌, arith, str_eq_iff,
}
use network_observability_cl.Record.{GenericMap, Value, at, is_text}
use network_observability_cl.Platform.{Platform}
use network_observability_cl.Filters.{CaptureFilters}
use network_observability_cl.Endpoint.{
  flow_tuple_from_map, plaintext_pod_endpoint, plaintext_peer_ip, plaintext_has_tuple, ◌>>=◌,
}
use network_observability_cl.Endpoint.Laws.{plaintext_has_tuple_iff}
use network_observability_cl.Packet.{BufferedWirePacket, PendingPlaintext}
use network_observability_cl.Timing.{time_correlation_bonus}
use network_observability_cl.Timing.Bounds.{time_correlation_bonus-le}
use network_observability_cl.Score.{
  direction_bonus, score_strict_tuple_match, score_remote_endpoint_match,
  score_loose_endpoint_match, score_capture_filter_wire_match, guard_some,
}

write_ne_read : (v : Value) → is_text "write" v ≡ true → is_text "read" v ≡ true → ⊥
write_ne_read (Value.text u) h k =
    ground (arith, str_eq_iff u "write", str_eq_iff u "read", str_eq_iff "write" "read")
write_ne_read _ h k = cc

direction_bonus-le : (pt : GenericMap) (a b : Bool) → direction_bonus pt a b ≤ 5
direction_bonus-le pt a b = ground (arith, write_ne_read (at pt "Direction"))

abbrev pub InTier : ℕ → ℕ → Option ℕ → Type 0
InTier lo hi none = Unit
InTier lo hi (some n) = (lo ≤ n) × (n ≤ hi)

guard_some-InTier :
    (lo hi : ℕ) (b : Bool) (n : ℕ) → lo ≤ n → n ≤ hi → InTier lo hi (guard_some b (some n))
guard_some-InTier lo hi true n h k = (h, k)
guard_some-InTier lo hi false n h k = tt

bind-InTier {ℓ} :
    {A : Type ℓ} (lo hi : ℕ) (o : Option A) (f : A → Option ℕ)
    → ((a : A) → InTier lo hi (f a))
    → InTier lo hi (o >>= f)
bind-InTier lo hi none f h = tt
bind-InTier lo hi (some a) f h = h a

rewarded :
    (base : ℕ) (pt : GenericMap) (b sends delivers : Bool)
    → InTier base (base + 5) (guard_some b (some (base + direction_bonus pt sends delivers)))
rewarded base pt b sends delivers =
    guard_some-InTier base (base + 5) b _ (omega arith)
      (omega (arith, direction_bonus-le pt sends delivers))

module _ (env : Platform) (wire pt : GenericMap) where
  strict-InTier : InTier 100 105 (score_strict_tuple_match env wire pt)
  unfolding score_strict_tuple_match
  strict-InTier =
      bind-InTier 100 105 (flow_tuple_from_map env pt) _
        λ t. bind-InTier 100 105 (flow_tuple_from_map env wire) _ λ w. rewarded 100 pt _ _ _

  remote-InTier : InTier 75 80 (score_remote_endpoint_match env wire pt)
  unfolding score_remote_endpoint_match
  remote-InTier =
      bind-InTier 75 80 (plaintext_pod_endpoint env pt) _
        λ pod. bind-InTier 75 80 (plaintext_peer_ip env pt) _ λ peer. rewarded 75 pt _ _ _

  loose-InTier : InTier 50 55 (score_loose_endpoint_match env wire pt)
  unfolding score_loose_endpoint_match
  loose-InTier = bind-InTier 50 55 (plaintext_pod_endpoint env pt) _ λ pod. rewarded 50 pt _ _ _

  filter-InTier : (f : CaptureFilters) → InTier 50 52 (score_capture_filter_wire_match env wire f)
  unfolding score_capture_filter_wire_match
  filter-InTier f = guard_some-InTier 50 52 _ _ (omega arith) (ground arith)

  -- A record without a complete tuple has no strict score: the first fallback never applies.
  pub strict_needs_tuple :
      plaintext_has_tuple env pt ≡ false → score_strict_tuple_match env wire pt ≡ none
  unfolding score_strict_tuple_match
  strict_needs_tuple h = ground (arith, plaintext_has_tuple_iff env pt)

-- With the time bonus alone no tier reaches the next: whatever the packets and their times, a loose
-- match with its bonus stays below every remote match, and a remote match below every strict one.
-- (The bonus for a payload is not counted here.)
pub time_bonus-keeps-tiers :
    (env : Platform) (w₁ w₂ w₃ p₁ p₂ p₃ : GenericMap) (pkt : BufferedWirePacket)
    (pt : PendingPlaintext) {loose remote strict : ℕ}
    → score_loose_endpoint_match env w₁ p₁ ≡ some loose
    → score_remote_endpoint_match env w₂ p₂ ≡ some remote
    → score_strict_tuple_match env w₃ p₃ ≡ some strict
    → (loose + time_correlation_bonus pkt pt < remote)
      × (remote + time_correlation_bonus pkt pt < strict)
time_bonus-keeps-tiers env w₁ w₂ w₃ p₁ p₂ p₃ pkt pt e f g =
    let low = rw e at (loose-InTier env w₁ p₁) in
    let mid = rw f at (remote-InTier env w₂ p₂) in
    let high = rw g at (strict-InTier env w₃ p₃) in omega (arith, time_correlation_bonus-le pkt pt)
