-- ===== src/Block/Loops.antt =====
-- kernel/blockdev.c, the two loops of `BlockReadFrom`, over a driver that serves a medium.
use bloom_os.Prelude.{
  ℕ, zero, suc, ◌+◌, ◌-◌, ◌*◌, ◌/◌, ◌%◌, ◌^◌, ◌<◌, ◌≤◌, ◌≡◌, ◌∙◌, sym, ap, refl, false, ◌++◌, some,
  ltb, leb, ◌==◌, if◌then◌else◌, take, drop, arith, ◌⊎◌, inl, inr, Bool-cases, ◌&&◌,
}
use bloom_os.Prelude.Slices.{slice, slice-zero, slice_cong, slice-append, take-slice, drop-slice}
use bloom_os.Block.{Device, device_read, read_direct, read_wide, ratio}

-- A driver delivers the medium's bytes, for every request that its device may be given and that
-- lies within the `limit` native sectors of the medium.
pub record Serves (d : Device) (disk : ℕ → ℕ) (limit : ℕ) : Type 0 where
  pub positive : 0 < d.max_count
  pub small : limit * 8 < 2 ^ 64
  pub delivers :
      (lba count : ℕ)
      → 0 < count
      → count ≤ d.max_count
      → lba + count ≤ limit
      → device_read d lba count ≡ some (slice disk (lba * d.sector_size) (count * d.sector_size))

-- The native sectors that the code accepts, in units of 512 bytes.
abbrev pub IsRatio : ℕ → Type 0
IsRatio r = (r ≡ 1) ⊎ ((r ≡ 2) ⊎ ((r ≡ 4) ⊎ (r ≡ 8)))

-- The arithmetic of a round, at each of these.
module _ (lba count limit max : ℕ) where
  abbrev pub whole_of : ℕ → ℕ
  whole_of r = if ltb max (count / r) then max else count / r

  abbrev pub WholeFacts : ℕ → Type 0
  WholeFacts r =
      lba + count ≤ limit * r
      → 0 < max
      → lba % r ≡ 0
      → r ≤ count
      → (0 < whole_of r)
        × (whole_of r ≤ max)
        × (lba / r + whole_of r ≤ limit)
        × (whole_of r * r ≤ count)
        × (0 < whole_of r * r)
        × (lba / r * (r * 512) ≡ lba * 512)

  pub whole_facts : (r : ℕ) → IsRatio r → WholeFacts r
  whole_facts r (inl e) = rw e (λ a b c d. ground arith)
  whole_facts r (inr (inl e)) = rw e (λ a b c d. ground arith)
  whole_facts r (inr (inr (inl e))) = rw e (λ a b c d. ground arith)
  whole_facts r (inr (inr (inr e))) = rw e (λ a b c d. ground arith)

  pub wide_small :
      (r : ℕ) → IsRatio r → limit * 8 < 2 ^ 64 → lba + count ≤ limit * r → lba + count < 2 ^ 64
  wide_small r (inl e) s = rw e (λ b. omega arith)
  wide_small r (inr (inl e)) s = rw e (λ b. omega arith)
  wide_small r (inr (inr (inl e))) s = rw e (λ b. omega arith)
  wide_small r (inr (inr (inr e))) s = rw e (λ b. omega arith)

  abbrev pub part_of : ℕ → ℕ
  part_of r = if ltb count (r - lba % r) then count else r - lba % r

  abbrev pub PartFacts : ℕ → Type 0
  PartFacts r =
      lba + count ≤ limit * r
      → 0 < count
      → (lba / r + 1 ≤ limit)
        × (0 < part_of r)
        × (part_of r ≤ count)
        × (lba % r * 512 ≤ r * 512)
        × (part_of r * 512 ≤ r * 512 - lba % r * 512)
        × (lba / r * (r * 512) + lba % r * 512 ≡ lba * 512)

  pub part_facts : (r : ℕ) → IsRatio r → PartFacts r
  part_facts r (inl e) = rw e (λ a b. ground arith)
  part_facts r (inr (inl e)) = rw e (λ a b. ground arith)
  part_facts r (inr (inr (inl e))) = rw e (λ a b. ground arith)
  part_facts r (inr (inr (inr e))) = rw e (λ a b. ground arith)

pub record IsSized (d : Device) : Type 0 where
  pub whole : d.sector_size ≡ ratio d * 512
  pub known : IsRatio (ratio d)

-- The first part of the bytes and the loop's result on the rest make up the whole.
joined :
    (disk : ℕ → ℕ) (lba k count next : ℕ)
    → k ≤ count
    → next ≡ lba + k
    → slice disk (lba * 512) (k * 512) ++ slice disk (next * 512) ((count - k) * 512)
      ≡ slice disk (lba * 512) (count * 512)
joined disk lba k count next h e =
    let shift : slice disk (next * 512) ((count - k) * 512)
        ≡ slice disk (lba * 512 + k * 512) ((count - k) * 512) =
      slice_cong disk (omega arith) refl in
    let total : slice disk (lba * 512) (k * 512 + (count - k) * 512)
        ≡ slice disk (lba * 512) (count * 512) =
      slice_cong disk refl (omega arith) in
    rw (shift, slice-append) total

module _ {d : Device} {disk : ℕ → ℕ} {limit : ℕ} (served : Serves d disk limit)
    (sized : IsSized d) where
  -- What the driver delivers, in units of 512 bytes.
  delivered :
      (lba count : ℕ)
      → 0 < count
      → count ≤ d.max_count
      → lba + count ≤ limit
      → device_read d lba count
        ≡ some (slice disk (lba * (ratio d * 512)) (count * (ratio d * 512)))
  delivered lba count a b c =
      served.delivers lba count a b c
      ∙ ap some (slice_cong disk (ap (λ t. lba * t) sized.whole) (ap (λ t. count * t) sized.whole))

  pub read_direct_lem :
      (fuel lba count : ℕ)
      → ratio d ≡ 1
      → count < fuel
      → lba + count ≤ limit
      → read_direct fuel d lba count ≡ some (slice disk (lba * 512) (count * 512))
  unfolding read_direct
  read_direct_lem zero lba count one f h = absurd (omega arith)
  read_direct_lem (suc fuel) lba zero one f h = ap some (sym (slice-zero disk (lba * 512)))
  read_direct_lem (suc fuel) lba (suc c) one f h =
      let chunk = if ltb d.max_count (suc c) then d.max_count else suc c in
      let fits : (0 < chunk) × (chunk ≤ d.max_count) × (chunk ≤ suc c) =
        ground (arith, served.positive) in
      ground (
        arith,
        delivered lba chunk fits.0 fits.1 (omega (arith, fits))
            ∙ ap some
                (slice_cong disk (ap (λ t. lba * (t * 512)) one) (ap (λ t. chunk * (t * 512)) one)),
        read_direct_lem fuel ((lba + chunk) % 2 ^ 64) (suc c - chunk) one (omega (arith, fits))
            (omega (arith, fits, served.small)),
        joined disk lba chunk (suc c) ((lba + chunk) % 2 ^ 64) fits.2
            (omega (arith, fits, served.small)),
      )

  -- A round that reads whole native sectors, and one that goes through the bounce buffer.
  wide_whole :
      (fuel lba count : ℕ)
      → 0 < count
      → lba + count ≤ limit * ratio d
      → lba % ratio d ≡ 0
      → ratio d ≤ count
      → read_wide fuel d
          ((lba + whole_of lba count limit d.max_count (ratio d) * ratio d) % 2 ^ 64)
          (count - whole_of lba count limit d.max_count (ratio d) * ratio d)
        ≡ some (
            slice disk
              ((lba + whole_of lba count limit d.max_count (ratio d) * ratio d) % 2 ^ 64 * 512)
              ((count - whole_of lba count limit d.max_count (ratio d) * ratio d) * 512))
      → read_wide (suc fuel) d lba count ≡ some (slice disk (lba * 512) (count * 512))
  unfolding read_wide
  wide_whole fuel lba count p h a b ih =
      let w = whole_of lba count limit d.max_count (ratio d) in
      let facts =
        whole_facts lba count limit d.max_count (ratio d) sized.known h served.positive a b in
      let small = wide_small lba count limit d.max_count (ratio d) sized.known served.small h in
      ground (
        arith,
        ih,
        delivered (lba / ratio d) w facts.0 facts.1 facts.2
            ∙ ap some
                (slice_cong disk {b = lba * 512} {j = w * ratio d * 512} facts.5 (omega arith)),
        joined disk lba (w * ratio d) count ((lba + w * ratio d) % 2 ^ 64) facts.3
            (omega (arith, facts, small)),
      )

  wide_part :
      (fuel lba count : ℕ)
      → 0 < count
      → lba + count ≤ limit * ratio d
      → ((lba % ratio d == 0) && leb (ratio d) count) ≡ false
      → read_wide fuel d
          ((lba + part_of lba count limit d.max_count (ratio d)) % 2 ^ 64)
          (count - part_of lba count limit d.max_count (ratio d))
        ≡ some (
            slice disk
              ((lba + part_of lba count limit d.max_count (ratio d)) % 2 ^ 64 * 512)
              ((count - part_of lba count limit d.max_count (ratio d)) * 512))
      → read_wide (suc fuel) d lba count ≡ some (slice disk (lba * 512) (count * 512))
  unfolding read_wide
  wide_part fuel lba count p h partial ih =
      let k = part_of lba count limit d.max_count (ratio d) in
      let facts = part_facts lba count limit d.max_count (ratio d) sized.known h p in
      let small = wide_small lba count limit d.max_count (ratio d) sized.known served.small h in
      let cut : take (k * 512) (
            drop (lba % ratio d * 512)
              (slice disk (lba / ratio d * (ratio d * 512)) (1 * (ratio d * 512))))
          ≡ slice disk (lba * 512) (k * 512) =
        rw
          (
            drop-slice disk (lba / ratio d * (ratio d * 512)) (lba % ratio d * 512)
                (1 * (ratio d * 512)) (omega (arith, facts)),
            take-slice disk (lba / ratio d * (ratio d * 512) + lba % ratio d * 512) (k * 512)
                (1 * (ratio d * 512) - lba % ratio d * 512) (omega (arith, facts)),
            facts.5,
          )
          refl in
      ground (
        arith,
        ih,
        delivered (lba / ratio d) 1 (omega arith) served.positive facts.0,
        cut,
        joined disk lba k count ((lba + k) % 2 ^ 64) facts.2 (omega (arith, facts, small)),
      )

  pub read_wide_lem :
      (fuel lba count : ℕ)
      → count < fuel
      → lba + count ≤ limit * ratio d
      → read_wide fuel d lba count ≡ some (slice disk (lba * 512) (count * 512))
  unfolding read_wide
  read_wide_lem zero lba count f h = absurd (omega arith)
  read_wide_lem (suc fuel) lba zero f h = ap some (sym (slice-zero disk (lba * 512)))
  read_wide_lem (suc fuel) lba (suc c) f h =
      elim (Bool-cases (lba % ratio d == 0 && leb (ratio d) (suc c))) [
        | inl aligned ↦
            let zero_offset : lba % ratio d ≡ 0 = ground arith in
            let enough : ratio d ≤ suc c = ground arith in
            let w = whole_of lba (suc c) limit d.max_count (ratio d) in
            let facts =
              whole_facts lba (suc c) limit d.max_count (ratio d) sized.known h served.positive
                zero_offset enough in
            let small =
              wide_small lba (suc c) limit d.max_count (ratio d) sized.known served.small h in
            wide_whole fuel lba (suc c) (omega arith) h zero_offset enough (
              read_wide_lem fuel ((lba + w * ratio d) % 2 ^ 64) (suc c - w * ratio d)
                (omega (arith, facts)) (omega (arith, facts, small)))
        | inr partial ↦
            let k = part_of lba (suc c) limit d.max_count (ratio d) in
            let facts =
              part_facts lba (suc c) limit d.max_count (ratio d) sized.known h (omega arith) in
            let small =
              wide_small lba (suc c) limit d.max_count (ratio d) sized.known served.small h in
            wide_part fuel lba (suc c) (omega arith) h partial (
              read_wide_lem fuel ((lba + k) % 2 ^ 64) (suc c - k) (omega (arith, facts))
                (omega (arith, facts, small)))
      ]
