-- ===== src/Daemon/Fence/Ranges/Count.antt =====
-- What `add` counts: the sequences of the range added that the ranges do not hold yet.
use gasworks.Prelude.{
  ℕ, ◌+◌, ◌-◌, ◌≤◌, ◌<◌, ◌≡◌, ◌⊎◌, refl, true, false, List, [], ◌∷◌, if◌then◌else◌, arith, ltb, ◌∙◌,
  inl, inr, Bool-cases, ltb→lt,
}
use gasworks.Word.{max_int64, slt, sle, add64, sub64}
use gasworks.Daemon.Fence.Ranges.{SeqRange, smax, smin, add_loop, add, contains, Ascending}
use gasworks.Daemon.Fence.Ranges.Sets.{
  overlap, hull, add_loop_rule, below_next, contains-cons, IsRange, within,
}

-- The room in [first, last] above `low`.
room : ℕ → ℕ → ℕ → ℕ
room first last low = if ltb low first then last + 1 - first else last - low

-- The overlap without the wrap-around.
overlap-eq :
    (first last : ℕ) (r : SeqRange)
    → first < max_int64
    → last < max_int64
    → IsRange r.first r.last
    → overlap first last r
      ≡ (if ltb last r.last then last else r.last)
        + 1
        - (if ltb r.first first then first else r.first)
overlap-eq first last r hf hl ir = ground (arith, ir.0, ir.1)

-- What is left of a count.
abbrev left : ℕ → ℕ → ℕ → SeqRange → ℕ
left first last added r =
    let lo = smax r.first first in
    let hi = smin r.last last in if sle lo hi then sub64 added (add64 (sub64 hi lo) 1) else added

overlap_apart :
    (first last : ℕ) (r : SeqRange)
    → first < max_int64
    → last < max_int64
    → IsRange r.first r.last
    → (last < r.first) ⊎ (r.last < first)
    → overlap first last r ≡ 0
overlap_apart first last r hf hl ir apart =
    rw (overlap-eq first last r hf hl ir) (ground (arith, ir.0, ir.1))

left_overlap :
    (first last added : ℕ) (r : SeqRange)
    → first < max_int64
    → last < max_int64
    → added < max_int64
    → IsRange r.first r.last
    → overlap first last r ≤ added
    → left first last added r + overlap first last r ≡ added
left_overlap first last added r hf hl ha ir h = ground (arith, ir.0, ir.1)

left-eq :
    (first last added : ℕ) (r : SeqRange)
    → first < max_int64
    → last < max_int64
    → IsRange r.first r.last
    → (last < r.first) ⊎ (r.last < first)
    → left first last added r ≡ added
left-eq first last added r hf hl ir apart = ground (arith, ir.0, ir.1)

hull-bounds :
    (m r : SeqRange)
    → IsRange m.first m.last
    → IsRange r.first r.last
    → ((hull m r).first ≤ m.first) × (m.last ≤ (hull m r).last) × ((hull m r).last < max_int64)
hull-bounds m r im ir = (
  ground (arith, im.0, im.1, ir.0, ir.1),
  ground (arith, im.0, im.1, ir.0, ir.1),
  ground (arith, im.0, im.1, ir.0, ir.1),
)

module _ (first last : ℕ) (hf : first < max_int64) (hl : last < max_int64) where
  count : List SeqRange → ℕ
  count [] = 0
  count (r ∷ rs) = overlap first last r + count rs

  overlap-room :
      (low : ℕ) (r : SeqRange)
      → low < r.first
      → IsRange r.first r.last
      → overlap first last r + room first last r.last ≤ room first last low
  unfolding room
  overlap-room low r hr ir = rw (overlap-eq first last r hf hl ir) (ground (arith, ir.0, ir.1))

  count_room : (low : ℕ) (s : List SeqRange) → Ascending low s → count s ≤ room first last low
  unfolding count
  count_room low [] a = omega arith
  count_room low (r ∷ rs) a =
      omega (arith, overlap-room low r a.0 (a.1, a.2), count_room r.last rs a.3)

  -- Beyond the range there is nothing to count.
  count_above : (low : ℕ) (s : List SeqRange) → last ≤ low → Ascending low s → count s ≡ 0
  unfolding room
  count_above low s h a = ground (arith, count_room low s a)

  overlap_misses :
      (low q : ℕ) (r : SeqRange)
      → low < q
      → q < r.first
      → within first last q ≡ true
      → IsRange r.first r.last
      → overlap first last r + room first last r.last < room first last low
  unfolding room
  overlap_misses low q r hq hr w ir =
      rw (overlap-eq first last r hf hl ir) (ground (arith, ir.0, ir.1))

  -- A sequence of the range that is not held leaves room.
  count_misses :
      (low q : ℕ) (s : List SeqRange)
      → low < q
      → within first last q ≡ true
      → contains s q ≡ false
      → Ascending low s
      → count s < room first last low
  unfolding count room
  count_misses low q [] hq w c a = ground arith
  count_misses low q (r ∷ rs) hq w c a = elim (Bool-cases (ltb r.last q)) [
    | inl past ↦
        let ih =
          count_misses r.last q rs (ltb→lt r.last q past) w
            (ground (arith, contains-cons low q r rs (ground arith) a)) a.3 in
        omega (arith, ih, overlap-room low r a.0 (a.1, a.2))
    | inr here ↦
        let before : q < r.first = ground (arith, contains-cons low q r rs (ground arith) a) in
        omega (arith, count_room r.last rs a.3, overlap_misses low q r hq before w (a.1, a.2))
  ]

  -- Behind the range nothing more is counted.
  add_loop_past :
      (low added : ℕ) (m : SeqRange) (s : List SeqRange)
      → last ≤ low
      → Ascending low s
      → (add_loop first last m added s).1 ≡ added
  unfolding add_loop
  add_loop_past low added m [] h a = refl
  add_loop_past low added m (r ∷ rs) h a =
      let on : last ≤ r.last = omega (arith, a.0, a.1) in
      add_loop_rule (λ x. x.1 ≡ added) first last added m r rs
        (λ _. add_loop_past r.last added m rs on a.3) (λ _. add_loop_past r.last added r rs on a.3)
        (λ _ _.
          add_loop_past r.last _ (hull m r) rs on a.3
          ∙ left-eq first last added r hf hl (a.1, a.2) (inl (omega (arith, a.0))))

  add_loop-count :
      (low added : ℕ) (m : SeqRange) (s : List SeqRange)
      → IsRange m.first m.last
      → m.first ≤ first
      → last ≤ m.last
      → count s ≤ added
      → added < max_int64
      → Ascending low s
      → (add_loop first last m added s).1 + count s ≡ added
  unfolding add_loop count
  add_loop-count low added m [] im hm hx hc ha a = omega arith
  add_loop-count low added m (r ∷ rs) im hm hx hc ha a =
      add_loop_rule (λ x. x.1 + (overlap first last r + count rs) ≡ added) first last added m r rs
        (λ h.
          let gap = below_next r.last m.first a.2 (omega (arith, im.0, im.1)) h in
          omega (
            arith,
            overlap_apart first last r hf hl (a.1, a.2) (inr (omega (arith, gap))),
            add_loop-count r.last added m rs im hm hx (omega (arith, hc)) ha a.3,
          ))
        (λ h.
          let gap = below_next m.last r.first im.1 (omega (arith, a.1, a.2)) h in
          omega (
            arith,
            overlap_apart first last r hf hl (a.1, a.2) (inl (omega (arith, gap))),
            count_above r.last rs (omega (arith, gap, a.1)) a.3,
            add_loop_past r.last added r rs (omega (arith, gap, a.1)) a.3,
          ))
        (λ h k.
          let some_left = left_overlap first last added r hf hl ha (a.1, a.2) (omega (arith, hc)) in
          let wide = hull-bounds m r im (a.1, a.2) in
          omega (
            arith,
            some_left,
            add_loop-count r.last (left first last added r) (hull m r) rs
                (omega (arith, wide), omega (arith, wide)) (omega (arith, wide))
                (omega (arith, wide)) (omega (arith, some_left, hc)) (omega (arith, some_left)) a.3,
          ))

-- What `add` reports is zero only where every sequence of the range was held.
pub add_none_new :
    (s : List SeqRange) (first last q : ℕ)
    → 0 < first
    → first < max_int64
    → last < max_int64
    → Ascending 0 s
    → within first last q ≡ true
    → slt 0 (add s first last).1 ≡ false
    → contains s q ≡ true
unfolding add room
add_none_new s first last q hf hx hl a w none_new = elim (Bool-cases (contains s q)) [
  | inl held ↦ held
  | inr missed ↦
      let fits : slt last first ≡ false = ground arith in
      let n : add64 (sub64 last first) 1 ≡ last + 1 - first = ground arith in
      let bound = count_room first last hx hl 0 s a in
      let counted =
        add_loop-count first last hx hl 0 (add64 (sub64 last first) 1)
          (record { first = first; last = last }) s (ground arith, hl) (omega arith) (omega arith)
          (ground (arith, bound)) (ground arith) a in
      let zero_new : (add_loop first last (record { first = first; last = last })
            (add64 (sub64 last first) 1) s).1
          ≡ 0 =
        ground (arith, n, counted, rw fits at none_new) in
      absurd (
        ground (
          arith,
          n,
          zero_new,
          counted,
          count_misses first last hx hl 0 q s (ground arith) w missed a,
        ))
]
