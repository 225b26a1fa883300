-- ===== src/Metrics/Collect.antt =====
-- Collecting with a reset: nothing is lost, and nothing is reset that was not encoded whole.
use libmcu.Base.{
  ℕ, ◌+◌, ◌-◌, ◌^◌, ◌≤◌, ◌<◌, ◌≡◌, ◌∙◌, refl, ap, ap₂, ◌⊎◌, inl, inr, Bool, true, false, ◌&&◌, ◌==◌,
  ==_ne, List, [], ◌∷◌, length, ltb, leb, if◌then◌else◌, u32, arith, Bool-cases, le→leb,
}
use native.Mathlib.Decide.{dec_le}
use libmcu.Metrics.{
  Metric, Metrics, count_metrics_updated, reset_all, encode_items, encode_all,
  metrics_collect_reset,
}

-- An encoder says with no buffer what it needs at the time, and with a buffer that is as large it
-- does the same at that time. At another time it may need more or less.
pub record IsEncoder {W : Type 0} (encode : Bool → ℕ → ℕ → ℕ → W → ℕ × W) : Type 0 where
  pub enough :
      (room a b : ℕ) (w : W)
      → (encode false 0 a b w).0 ≤ room
      → encode true room a b w ≡ encode false 0 a b w

module _ {W : Type 0} (header each : Bool → ℕ → ℕ → ℕ → W → ℕ × W) where
  -- The bytes that the items need from a time on, and the time after.
  abbrev pub items_size : List Metric → W → ℕ × W
  items_size [] w = (0, w)
  items_size (p ∷ ps) w =
      let first = if p.is_set then each false 0 p.key p.value w else (0, w) in
      let rest = items_size ps first.1 in (first.0 + rest.0, rest.1)

  abbrev pub total_size : Metrics → W → ℕ × W
  total_size m w =
      let first = header false 0 (length m.items) (count_metrics_updated m.items) w in
      let rest = items_size m.items first.1 in (first.0 + rest.0, rest.1)

  wraps_not :
      (b : Bool) (n written rest : ℕ) (w : W) (x : ℕ × W)
      → written + ((if b then x else (0, w)).0 + rest) < 2 ^ 32
      → (if b then u32 (written + (if b then x else (0, w)).0) else written)
        ≡ written + (if b then x else (0, w)).0
  wraps_not true n written rest w x small = omega arith
  wraps_not false n written rest w x small = omega arith

  size_needed :
      (ps : List Metric) (written : ℕ) (w : W)
      → written + (items_size ps w).0 < 2 ^ 32
      → encode_items header each false 0 ps written w
        ≡ (written + (items_size ps w).0, (items_size ps w).1)
  unfolding encode_items
  size_needed [] written w small = ap₂ (λ a b. (a, b)) (omega arith) refl
  size_needed (p ∷ ps) written w small =
      let first : ℕ × W = if p.is_set then each false 0 p.key p.value w else (0, w) in
      let rest : ℕ = (items_size ps first.1).0 in
      ap (λ n. encode_items header each false 0 ps n first.1)
        (wraps_not p.is_set 0 written rest w (each false 0 p.key p.value w) small)
      ∙ size_needed ps (written + first.0) first.1 (omega arith)
      ∙ ap₂ (λ a b. (a, b)) (omega arith) refl

  size_written :
      IsEncoder each
      → (bufsize : ℕ) (ps : List Metric) (written : ℕ) (w : W) → bufsize < 2 ^ 32
      → written + (items_size ps w).0 ≤ bufsize
      → encode_items header each true bufsize ps written w
        ≡ (written + (items_size ps w).0, (items_size ps w).1)
  unfolding encode_items
  size_written honest bufsize [] written w small fits = ap₂ (λ a b. (a, b)) (omega arith) refl
  size_written honest bufsize (p ∷ ps) written w small fits =
      let room : ℕ = if ltb written bufsize then bufsize - written else 0 in
      let first : ℕ × W = if p.is_set then each false 0 p.key p.value w else (0, w) in
      let rest : ℕ = (items_size ps first.1).0 in
      ap
        (λ x.
          encode_items header each true bufsize ps
            (if p.is_set then u32 (written + x.0) else written) x.1)
        (same p.is_set room (omega arith) (room_enough (omega arith)))
      ∙ ap (λ n. encode_items header each true bufsize ps n first.1)
          (wraps_not p.is_set 0 written rest w (each false 0 p.key p.value w) (omega arith))
      ∙ size_written honest bufsize ps (written + first.0) first.1 small (omega arith)
      ∙ ap₂ (λ a b. (a, b)) (omega arith) refl
    where
      room_enough :
          {n : ℕ}
          → written + n ≤ bufsize
          → n ≤ (if ltb written bufsize then bufsize - written else 0)
      room_enough h = ground arith

      same :
          (b : Bool) (room : ℕ)
          → 0 ≤ room
          → (if b then each false 0 p.key p.value w else (0, w)).0 ≤ room
          → (if b then each true room p.key p.value w else (0, w))
            ≡ (if b then each false 0 p.key p.value w else (0, w))
      same true room z h = honest.enough room p.key p.value w h
      same false room z h = refl

  all_needed :
      (m : Metrics) (w : W)
      → (total_size m w).0 < 2 ^ 32
      → encode_all header each false 0 m w ≡ total_size m w
  unfolding encode_all
  all_needed m w small =
      let first : ℕ × W = header false 0 (length m.items) (count_metrics_updated m.items) w in
      size_needed m.items first.0 first.1 small

  all_written :
      IsEncoder header
      → IsEncoder each
      → (m : Metrics) (bufsize : ℕ) (w : W) → bufsize < 2 ^ 32
      → (total_size m w).0 ≤ bufsize
      → encode_all header each true bufsize m w ≡ total_size m w
  unfolding encode_all
  all_written head_ok each_ok m bufsize w small fits =
      let updated : ℕ = count_metrics_updated m.items in
      let first : ℕ × W = header false 0 (length m.items) updated w in
      ap (λ x. encode_items header each true bufsize m.items x.0 x.1)
        (head_ok.enough bufsize (length m.items) updated w (omega arith))
      ∙ size_written each_ok bufsize m.items first.0 first.1 small fits

  -- For encoders that do with a large enough buffer what they say without one, and a buffer of a
  -- 32-bit size: let the first size, below 2 ^ 32, be what the table needs when the call measures
  -- it, and the second what it needs when the call encodes it. If the first is 0 or above the
  -- buffer, 0 is returned and the table stays. Otherwise, if the second is within the buffer, it is
  -- returned and the table is reset exactly if it is not below the first; else 0 is returned and the
  -- table stays. If the second is above the buffer, the table stays and 0 is returned, or it is
  -- reset and the result is at least the first size and within the buffer.
  pub metrics_collect_reset_lem :
      IsEncoder header
      → IsEncoder each
      → (m : Metrics) (bufsize : ℕ) (w : W) → bufsize < 2 ^ 32
      → (total_size m w).0 < 2 ^ 32
      → let (first, w1) = total_size m w in
        let second = (total_size m w1).0 in
        let out = (metrics_collect_reset header each m true bufsize w).0 in
        ((ltb 0 first && leb first bufsize) ≡ false) × (out ≡ (0, m))
        ⊎ ((ltb 0 first && leb first bufsize) ≡ true)
          × (second ≤ bufsize)
          × (out ≡ (if leb first second then (second, reset_all m) else (0, m)))
        ⊎ ((ltb 0 first && leb first bufsize) ≡ true)
          × (bufsize < second)
          × ((out ≡ (0, m)) ⊎ (first ≤ out.0) × (out.0 ≤ bufsize) × (out.1 ≡ reset_all m))
  unfolding metrics_collect_reset
  metrics_collect_reset_lem head_ok each_ok m bufsize w small sum_small =
      let first : ℕ = (total_size m w).0 in
      let w1 : W = (total_size m w).1 in
      rw (all_needed m w sum_small) (elim (Bool-cases (ltb 0 first && leb first bufsize)) [
        | inr refused ↦ rw refused (inl (refl, both (bufsize == 0) w w1))
        | inl room ↦ elim (dec_le (total_size m w1).0 bufsize) [
          | yes fits ↦
              let nonzero : (bufsize == 0) ≡ false = ==_ne bufsize 0 (λ z. absurd (ground arith)) in
              let put = all_written head_ok each_ok m bufsize w1 small fits in
              let within = le→leb (total_size m w1).0 bufsize fits in
              rw (nonzero, room)
                (rw put
                  (rw within (inr (inl (refl, fits, chosen (leb first (total_size m w1).0))))))
          | no large ↦
              let nonzero : (bufsize == 0) ≡ false = ==_ne bufsize 0 (λ z. absurd (ground arith)) in
              rw (nonzero, room)
                (inr (inr (refl, omega arith, kept (encode_all header each true bufsize m w1))))
        ]
      ])
    where
      both :
          (b : Bool) (v v' : W)
          → let all : (ℕ × Metrics) × W = if b then ((0, m), v) else ((0, m), v') in all.0 ≡ (0, m)
      both true v v' = refl
      both false v v' = refl

      chosen :
          (b : Bool)
          → let all : (ℕ × Metrics) × W =
              if b && true
              then (
                ((total_size m (total_size m w).1).0, reset_all m),
                (total_size m (total_size m w).1).1,
              )
              else ((0, m), (total_size m (total_size m w).1).1) in
            all.0 ≡ (if b then ((total_size m (total_size m w).1).0, reset_all m) else (0, m))
      chosen true = refl
      chosen false = refl

      kept :
          (written : ℕ × W)
          → let all : (ℕ × Metrics) × W =
              if leb (total_size m w).0 written.0 && leb written.0 bufsize
              then ((written.0, reset_all m), written.1)
              else ((0, m), written.1) in
            let out : ℕ × Metrics = all.0 in
            (out ≡ (0, m))
            ⊎ ((total_size m w).0 ≤ out.0) × (out.0 ≤ bufsize) × (out.1 ≡ reset_all m)
      kept written = elim (Bool-cases (leb (total_size m w).0 written.0 && leb written.0 bufsize)) [
        | inl all ↦ rw all (inr (ground arith, ground arith, refl))
        | inr less ↦ rw less (inl refl)
      ]
