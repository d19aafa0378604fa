-- ===== src/Block/Requests.antt =====
-- kernel/blockdev.c, `BlockReadFrom`: which requests a driver is given.
use bloom_os.Prelude.{
  ℕ, zero, suc, ◌+◌, ◌-◌, ◌*◌, ◌/◌, ◌%◌, ◌^◌, ◌<◌, ◌≤◌, ◌≡◌, ◌≢◌, ap, refl, true, Option, ltb, leb,
  ◌==◌, if◌then◌else◌, arith, inl, inr, Bool-cases, ◌&&◌, ◌||◌,
}
use bloom_os.Block.{
  Device, ReadFn, ReadExFn, device_read, read_direct, read_wide, read_device, in_range, ratio,
}
use bloom_os.Block.Loops.{IsSized, IsRatio, whole_of, whole_facts, part_of, part_facts, wide_small}

abbrev pub with_drivers : Option ReadFn → Option ReadExFn → Device → Device
with_drivers legacy read d = record d { legacy = legacy; read = read }

-- The two drivers give the same answer to every request of at least one sector, at most as many as
-- the device may be given at once, and inside the device.
abbrev pub Agree : Device → Device → Type 0
Agree d e =
    (lba count : ℕ)
    → 0 < count
    → count ≤ d.max_count
    → lba + count ≤ d.sector_count
    → device_read d lba count ≡ device_read e lba count

-- What the range test tells.
le_of_in_range :
    (n lba count r : ℕ)
    → IsRatio r
    → n * 8 < 2 ^ 64
    → n ≢ 0
    → ((n == 0) || (ltb lba (n * r % 2 ^ 64) && leb count (n * r % 2 ^ 64 - lba))) ≡ true
    → lba + count ≤ n * r
le_of_in_range n lba count r (inl e) s z = rw e (λ h. ground arith)
le_of_in_range n lba count r (inr (inl e)) s z = rw e (λ h. ground arith)
le_of_in_range n lba count r (inr (inr (inl e))) s z = rw e (λ h. ground arith)
le_of_in_range n lba count r (inr (inr (inr e))) s z = rw e (λ h. ground arith)

module _ (d : Device) (legacy : Option ReadFn) (read : Option ReadExFn) (sized : IsSized d)
    (positive : 0 < d.max_count) (small : d.sector_count * 8 < 2 ^ 64)
    (agree : Agree d (with_drivers legacy read d)) where
  e : Device
  e = with_drivers legacy read d

  direct_agrees :
      (fuel lba count : ℕ)
      → ratio d ≡ 1
      → lba + count ≤ d.sector_count
      → read_direct fuel d lba count ≡ read_direct fuel e lba count
  unfolding read_direct e
  direct_agrees zero lba count one h = refl
  direct_agrees (suc fuel) lba count one h = elim (Bool-cases (count == 0)) [
    | inl stop ↦ ground arith
    | inr more ↦
        let chunk = if ltb d.max_count count then d.max_count else count in
        let fits : (0 < chunk) × (chunk ≤ d.max_count) × (chunk ≤ count) = ground arith in
        ground (
          arith,
          agree lba chunk fits.0 fits.1 (omega (arith, fits)),
          direct_agrees fuel ((lba + chunk) % 2 ^ 64) (count - chunk) one (omega (arith, fits)),
        )
  ]

  wide_agrees :
      (fuel lba count : ℕ)
      → lba + count ≤ d.sector_count * ratio d
      → read_wide fuel d lba count ≡ read_wide fuel e lba count
  unfolding read_wide e
  wide_agrees zero lba count h = refl
  wide_agrees (suc fuel) lba count h = elim (Bool-cases (count == 0)) [
    | inl stop ↦ ground arith
    | inr more ↦ elim (Bool-cases (lba % ratio d == 0 && leb (ratio d) count)) [
      | inl aligned ↦
          let w = whole_of lba count d.sector_count d.max_count (ratio d) in
          let facts =
            whole_facts lba count d.sector_count d.max_count (ratio d) sized.known h positive
              (ground arith) (ground arith) in
          let below =
            wide_small lba count d.sector_count d.max_count (ratio d) sized.known small h in
          ground (
            arith,
            agree (lba / ratio d) w facts.0 facts.1 facts.2,
            wide_agrees fuel ((lba + w * ratio d) % 2 ^ 64) (count - w * ratio d)
                (omega (arith, facts, below)),
          )
      | inr partial ↦
          let k = part_of lba count d.sector_count d.max_count (ratio d) in
          let facts =
            part_facts lba count d.sector_count d.max_count (ratio d) sized.known h
              (ground arith) in
          let below =
            wide_small lba count d.sector_count d.max_count (ratio d) sized.known small h in
          ground (
            arith,
            agree (lba / ratio d) 1 (omega arith) positive facts.0,
            wide_agrees fuel ((lba + k) % 2 ^ 64) (count - k) (omega (arith, facts, below)),
          )
    ]
  ]

  -- For a device of known size, the answer to a read rests only on requests of the driver that are
  -- well formed: of at least one native sector, of no more than `MaxCount`, and inside the device.
  -- A driver that differs on any other request gives the same answer.
  pub read_device_requests :
      (lba count : ℕ)
      → d.sector_count ≢ 0
      → read_device d lba count ≡ read_device (with_drivers legacy read d) lba count
  unfolding read_device e
  read_device_requests lba count known = elim (Bool-cases (in_range d lba count)) [
    | inr out ↦ ground arith
    | inl inside ↦
        let h = le_of_in_range d.sector_count lba count (ratio d) sized.known small known inside in
        ground (arith, direct h, wide_agrees (suc count) lba count h)
  ]
    where
      direct :
          lba + count ≤ d.sector_count * ratio d
          → ratio d ≡ 1
          → read_direct (suc count) d lba count
            ≡ read_direct (suc count) (with_drivers legacy read d) lba count
      direct h one =
          direct_agrees (suc count) lba count one
            (omega (arith, h, ap (λ r. d.sector_count * r) one))
