-- ===== src/Signal/Widths.antt =====
-- The detection of rm32/src/signal.rs depends on the pulse widths only.
use rm.Prelude.{
  ℕ, zero, suc, sub16, sub32, get_or, ◌+◌, ◌≤◌, ◌<◌, ◌≡◌, arith, refl, ap, ◌∙◌, List, [], ◌∷◌, some,
  u16, length, take,
}
use rm.Signal.{
  Burst, no_burst, noted, measure, classify, detect_input, compute_multishot,
  compute_servo_unidirectional,
}
use rm.Arith.Map.Order.{map_total}
use rm.Prelude.Int.{as_u16}

-- Timestamps of a 16-bit timer, from a start and the widths between the edges.
pub edges_from : ℕ → List ℕ → List ℕ
edges_from t [] = []
edges_from t (w ∷ ws) = u16 (t + w) ∷ edges_from (u16 (t + w)) ws

pub widths : Burst → List ℕ → Burst
widths b [] = b
widths b (w ∷ ws) = widths (noted b w) ws

abbrev pub AllPulses : List ℕ → Type 0
AllPulses [] = Unit {0}
AllPulses (w ∷ ws) = (w < 65536) × AllPulses ws

recovered : (t w : ℕ) → t < 65536 → w < 65536 → sub16 (u16 (t + w)) t ≡ w
recovered t w h k = omega arith

same : (t w : ℕ) → u16 (u16 (t + w)) ≡ u16 (t + w)
same t w = omega arith

measure-edges_from :
    (b : Burst) (t : ℕ) (ws : List ℕ)
    → t < 65536
    → AllPulses ws
    → measure b t (edges_from t ws) ≡ widths b ws
unfolding measure edges_from widths
measure-edges_from b t [] h a = refl
measure-edges_from b t (w ∷ ws) h a =
    ap (λ x. measure (noted b (sub16 x t)) x (edges_from (u16 (t + w)) ws)) (same t w)
    ∙ (ap (λ x. measure (noted b x) (u16 (t + w)) (edges_from (u16 (t + w)) ws))
          (recovered t w h a.0)
        ∙ measure-edges_from (noted b w) (u16 (t + w)) ws (omega arith) a.1)

take-short : (n : ℕ) (xs : List ℕ) → length xs ≤ n → take n xs ≡ xs
take-short zero [] h = refl
take-short zero (x ∷ xs) h = absurd (omega arith)
take-short (suc n) [] h = refl
take-short (suc n) (x ∷ xs) h = ap (λ ys. x ∷ ys) (take-short n xs (omega arith))

length-edges_from : (t : ℕ) (ws : List ℕ) → length (edges_from t ws) ≡ length ws
unfolding edges_from
length-edges_from t [] = refl
length-edges_from t (w ∷ ws) = ap suc (length-edges_from (u16 (t + w)) ws)

-- For a burst of 1 to 30 widths below 2 ^ 16 after the second entry, the detected protocol is the
-- class of those widths: neither the first entry, which may be stale, nor the start of the 16-bit
-- timer, nor its wrap-around changes it.
pub detect_input-edges :
    (stale t : ℕ) (ws : List ℕ)
    → t < 65536
    → 0 < length ws
    → length ws ≤ 30
    → AllPulses ws
    → detect_input (stale ∷ (t ∷ edges_from t ws)) ≡ classify (widths no_burst ws)
unfolding detect_input
detect_input-edges stale t ws h p n a =
    rw
      (
        take-short 30 (edges_from t ws) (omega (arith, length-edges_from t ws)),
        length-edges_from t ws,
        mod-small t h,
        measure-edges_from no_burst t ws h a,
      )
      (ground arith)
  where
    mod-small : (x : ℕ) → x < 65536 → u16 x ≡ x
    mod-small x k = omega arith

-- The two unidirectional pulse inputs give at most 2047: a servo pulse with thresholds of u16 gives
-- zero or 49 to 2047, and zero up to the low threshold; a multishot pulse gives at most 2000, and
-- needs a pulse of 1 to 1499.
pub pulse_inputs_range :
    (pulse low high : ℕ) (edges : List ℕ)
    → low < 65536
    → high < 65536
    → let v = compute_servo_unidirectional pulse low high in
      (v ≤ 2047)
      × (v ≤ 48 → v ≡ 0)
      × (pulse ≤ low → pulse < high → v ≡ 0)
      × ((m : ℕ) → compute_multishot edges ≡ some m → m ≤ 2000)
unfolding compute_servo_unidirectional compute_multishot as_u16
pulse_inputs_range pulse low high edges h k =
    let t =
      map_total pulse low high 47 2047 (omega arith) (omega arith) (omega arith) (omega arith) in
    (
      ground (arith, t.2, t.3, t.4),
      ground (arith, t.2, t.3, t.4),
      ground (arith, t.2, t.6),
      λ m e. shot m e,
    )
  where
    shot : (m : ℕ) → compute_multishot edges ≡ some m → m ≤ 2000
    shot m e =
        let q =
          map_total (sub32 (get_or edges 1 0) (get_or edges 0 0)) 243 1200 0 2000 (omega arith)
            (omega arith) (omega arith) (omega arith) in
        ground (arith, q.2, q.4)
