-- ===== src/Pmm/Init.antt =====
-- kernel/pmm.c, `InitPmm`: the state that it builds from the firmware's memory map.
use bloom_os.Prelude.{
  ℕ, zero, suc, ◌+◌, ◌*◌, ◌/◌, ◌^◌, ◌<◌, ◌≤◌, ◌≡◌, ◌∙◌, sym, ap, refl, Bool, true, false, List, [],
  ◌∷◌, ◌==◌, if◌then◌else◌, arith, length, All, ltb, leb, not, ◌&&◌, ◌||◌,
}
use bloom_os.Prelude.Bytes.{IsByte}
use bloom_os.Pmm.{
  Pmm, MemDesc, page_size, efi_conventional_memory, is_backed_ram, desc_end, highest_address,
  bitmap_address, fill, ram_bytes, total_of, bitmap_pages_of, reserved_of, init_pmm, test_bit,
}
use bloom_os.Pmm.Count.{count_free-zero}
use bloom_os.Pmm.Alloc.{IsValid}
use bloom_os.Pmm.Regions.{
  within, in_conventional, Bounded, Disjoint, fill_lem, release_regions_lem, take_range_lem,
  reserve_lem,
}

-- No region goes beyond the 64-bit address space.
abbrev pub IsPlaced : MemDesc → Type 0
IsPlaced d = d.physical_start + d.number_of_pages * page_size < 2 ^ 64

-- Some conventional region can hold the bitmap.
abbrev pub fits : ℕ → List MemDesc → Bool
fits pages [] = false
fits pages (d ∷ ds) =
    (d.kind == efi_conventional_memory && leb pages d.number_of_pages) || fits pages ds

highest_address-ge : (ds : List MemDesc) (h : ℕ) → h ≤ highest_address h ds
unfolding highest_address
highest_address-ge [] h = omega arith
highest_address-ge (d ∷ ds) h = ground (
  arith,
  highest_address-ge ds (if is_backed_ram d.kind && ltb h (desc_end d) then desc_end d else h),
)

highest_address-lt : (ds : List MemDesc) (h : ℕ) → h < 2 ^ 64 → highest_address h ds < 2 ^ 64
unfolding highest_address
highest_address-lt [] h l = l
highest_address-lt (d ∷ ds) h l =
    highest_address-lt ds (if is_backed_ram d.kind && ltb h (desc_end d) then desc_end d else h)
      (ground arith)

-- Conventional memory is backed, so the total covers it.
highest_address-Bounded :
    (ds : List MemDesc) (h total : ℕ)
    → All IsPlaced ds
    → highest_address h ds / page_size ≤ total
    → Bounded total ds
unfolding highest_address is_backed_ram
highest_address-Bounded [] h total p l = tt
highest_address-Bounded (d ∷ ds) h total p l = (
  (λ conv. ground (arith, highest_address-ge ds (next h), p.0)),
  highest_address-Bounded ds (next h) total p.1 l,
)
  where
    next : ℕ → ℕ
    next h = if is_backed_ram d.kind && ltb h (desc_end d) then desc_end d else h

-- The place chosen for the bitmap lies in a conventional region.
bitmap_address_in :
    (pages : ℕ) (ds : List MemDesc) (q : ℕ)
    → fits pages ds ≡ true
    → within (bitmap_address pages ds / page_size) pages q ≡ true
    → in_conventional ds q ≡ true
unfolding bitmap_address
bitmap_address_in pages [] q f w = cc
bitmap_address_in pages (d ∷ ds) q f w = ground (arith, bitmap_address_in pages ds q)

bitmap_address-le :
    (pages total : ℕ) (ds : List MemDesc)
    → fits pages ds ≡ true
    → Bounded total ds
    → bitmap_address pages ds / page_size + pages ≤ total
unfolding bitmap_address
bitmap_address-le pages total [] f b = cc
bitmap_address-le pages total (d ∷ ds) f b = ground (arith, bitmap_address-le pages total ds)

in_conventional-lt :
    (total : ℕ) (ds : List MemDesc) (q : ℕ)
    → Bounded total ds
    → in_conventional ds q ≡ true
    → q < total
in_conventional-lt total [] q b e = cc
in_conventional-lt total (d ∷ ds) q b e = ground (arith, in_conventional-lt total ds q)

ram_bytes-IsByte :
    (ram : ℕ → ℕ) (addr n : ℕ) → ((a : ℕ) → ram a < 256) → All IsByte (ram_bytes ram addr n)
unfolding ram_bytes
ram_bytes-IsByte ram addr zero h = tt
ram_bytes-IsByte ram addr (suc n) h = (h addr, ram_bytes-IsByte ram (addr + 1) n h)

length-ram_bytes : (ram : ℕ → ℕ) (addr n : ℕ) → length (ram_bytes ram addr n) ≡ n
unfolding ram_bytes
length-ram_bytes ram addr zero = refl
length-ram_bytes ram addr (suc n) = ap suc (length-ram_bytes ram (addr + 1) n)

module _ (ram : ℕ → ℕ) (ds : List MemDesc) (is_ram : (a : ℕ) → ram a < 256)
    (placed : All IsPlaced ds) (disjoint : Disjoint ds)
    (room : fits (bitmap_pages_of ds) ds ≡ true) where
  bounded : Bounded (total_of ds) ds
  bounded = highest_address-Bounded ds 0 (total_of ds) placed (omega arith)

  -- The state after the loop that sets every bit.
  blank : Pmm
  blank = record {
    bitmap =
        fill (total_of ds) 0
          (ram_bytes ram (bitmap_address (bitmap_pages_of ds) ds) (bitmap_pages_of ds * page_size));
    bitmap_pages = bitmap_pages_of ds;
    total_pages = total_of ds;
    free_pages = 0;
  }

  filled :
      All IsByte blank.bitmap
      × (total_of ds ≤ 8 * length blank.bitmap)
      × ((q : ℕ) → q < total_of ds → test_bit blank.bitmap q ≡ true)
  unfolding blank
  filled =
      let bm =
        ram_bytes ram (bitmap_address (bitmap_pages_of ds) ds) (bitmap_pages_of ds * page_size) in
      let len =
        length-ram_bytes ram (bitmap_address (bitmap_pages_of ds) ds)
          (bitmap_pages_of ds * page_size) in
      let f = fill_lem (total_of ds) 0 bm (ram_bytes-IsByte ram _ _ is_ram) (omega (arith, len)) in
      (f.0, omega (arith, f.1, len), λ q l. ground (arith, f.2 q))

  blank-IsValid : IsValid blank
  unfolding blank
  blank-IsValid = record {
    bytes = filled.0;
    room = filled.1;
    small = omega (arith, highest_address-lt ds 0 (omega arith));
    counted = sym (count_free-zero _ _ filled.2);
  }

  -- With a memory map of placed regions, no two conventional ones sharing a page and one of them
  -- large enough for the bitmap, `InitPmm` builds a valid state over the pages up to the highest
  -- backed address. A page of it is free exactly if it lies in a conventional region, outside the
  -- bitmap, and not among the reserved low pages.
  pub init_pmm_lem :
      IsValid (init_pmm ram ds)
      × ((init_pmm ram ds).total_pages ≡ total_of ds)
      × ((q : ℕ)
          → q < total_of ds
          → test_bit (init_pmm ram ds).bitmap q ≡ (
              ltb q (reserved_of (total_of ds))
              || (within (bitmap_address (bitmap_pages_of ds) ds / page_size) (bitmap_pages_of ds) q
                  || not (in_conventional ds q))))
  unfolding init_pmm blank
  init_pmm_lem =
      let released =
        release_regions_lem ds blank-IsValid bounded disjoint
          (λ q c. filled.2 q (in_conventional-lt (total_of ds) ds q bounded c)) in
      let taken =
        take_range_lem (bitmap_pages_of ds) (bitmap_address (bitmap_pages_of ds) ds / page_size)
          released.valid
          (rw released.total (bitmap_address-le (bitmap_pages_of ds) (total_of ds) ds room bounded))
          (λ q a l.
            ground
              (arith, released.bits_are q, bitmap_address_in (bitmap_pages_of ds) ds q room)) in
      let done =
        reserve_lem (reserved_of (total_of ds)) 0 taken.valid
          (rw (taken.total, released.total) (ground arith)) in
      (
        done.valid,
        done.total ∙ taken.total ∙ released.total,
        λ q l. ground (arith, done.bits_are q, taken.bits_are q, released.bits_are q, filled.2 q l),
      )
