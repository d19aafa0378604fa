-- ===== src/Pmm/Regions.antt =====
-- kernel/pmm.c, the loops of `InitPmm` over ranges of pages: which bits they change, and that they
-- keep the invariant of the allocator.
use bloom_os.Prelude.{
  ℕ, zero, suc, ◌+◌, ◌*◌, ◌/◌, ◌<◌, ◌≤◌, ◌≡◌, ◌∙◌, refl, Bool, true, false, List, [], ◌∷◌, ◌==◌,
  if◌then◌else◌, arith, length, All, ltb, leb, inl, inr, Bool-cases, ◌&&◌, ◌||◌,
}
use bloom_os.Prelude.Bytes.{IsByte}
use bloom_os.Pmm.{
  Pmm, MemDesc, page_size, efi_conventional_memory, set_bit, test_bit, take_page, release_page,
  fill, release_range, release_regions, take_range, reserve,
}
use bloom_os.Pmm.Bits.{test-set_bit, set_bit-IsByte, length-set_bit}
use bloom_os.Pmm.Alloc.{
  IsValid, take_page-IsValid, release_page-IsValid, test-take_page, test-release_page,
  total-take_page, total-release_page,
}

-- `q` is one of the `n` pages from `p` on.
abbrev pub within : ℕ → ℕ → ℕ → Bool
within p n q = leb p q && ltb q (p + n)

-- The page lies in a conventional region.
abbrev pub in_conventional : List MemDesc → ℕ → Bool
in_conventional [] q = false
in_conventional (d ∷ ds) q =
    (d.kind == efi_conventional_memory && within (d.physical_start / page_size) d.number_of_pages q)
    || in_conventional ds q

pub fill_lem :
    (n p : ℕ) (bm : List ℕ)
    → All IsByte bm
    → p + n ≤ 8 * length bm
    → All IsByte (fill n p bm)
      × (length (fill n p bm) ≡ length bm)
      × ((q : ℕ) → test_bit (fill n p bm) q ≡ (if within p n q then true else test_bit bm q))
unfolding fill
fill_lem zero p bm h r = (h, refl, λ q. ground arith)
fill_lem (suc n) p bm h r =
    let ih =
      fill_lem n (p + 1) (set_bit bm p) (set_bit-IsByte bm h p)
        (omega (arith, length-set_bit bm p)) in
    (
      ih.0,
      ih.1 ∙ length-set_bit bm p,
      λ q. ground (arith, ih.2 q, test-set_bit bm h p q (omega arith)),
    )

-- What a loop over pages leaves: a valid state, the same total, and these bits.
pub record After (s t : Pmm) (bits : ℕ → Bool) : Type 0 where
  pub valid : IsValid t
  pub total : t.total_pages ≡ s.total_pages
  pub bits_are : (q : ℕ) → test_bit t.bitmap q ≡ bits q

-- One loop, or one round, after another.
After-trans :
    {s t u : Pmm} {f g : ℕ → Bool} (k : ℕ → Bool)
    → After s t f
    → After t u g
    → ((q : ℕ) → g q ≡ k q)
    → After s u k
After-trans k a b e = record {
  valid = b.valid;
  total = b.total ∙ a.total;
  bits_are = λ q. b.bits_are q ∙ e q;
}

take_page-After :
    {s : Pmm} (p : ℕ)
    → IsValid s
    → p < s.total_pages
    → test_bit s.bitmap p ≡ false
    → After s (take_page p s) (λ q. if p == q then true else test_bit s.bitmap q)
take_page-After {s} p v l e = record {
  valid = take_page-IsValid v p l e;
  total = total-take_page p s;
  bits_are = test-take_page v p l;
}

release_page-After :
    {s : Pmm} (p : ℕ)
    → IsValid s
    → p < s.total_pages
    → test_bit s.bitmap p ≡ true
    → After s (release_page p s) (λ q. if p == q then false else test_bit s.bitmap q)
release_page-After {s} p v l e = record {
  valid = release_page-IsValid v p l e;
  total = total-release_page p s;
  bits_are = test-release_page v p l;
}

pub release_range_lem :
    (n p : ℕ) {s : Pmm}
    → IsValid s
    → p + n ≤ s.total_pages
    → ((q : ℕ) → p ≤ q → q < p + n → test_bit s.bitmap q ≡ true)
    → After s (release_range n p s) (λ q. if within p n q then false else test_bit s.bitmap q)
unfolding release_range
release_range_lem zero p v r h = record { valid = v; total = refl; bits_are = λ q. ground arith }
release_range_lem (suc n) p {s} v r h =
    let step = release_page-After p v (omega arith) (h p (omega arith) (omega arith)) in
    After-trans _ step
      (release_range_lem n (p + 1) step.valid (omega (arith, step.total))
        (λ q a b. ground (arith, step.bits_are q, h q (omega arith) (omega arith))))
      (λ q. ground (arith, step.bits_are q))

pub take_range_lem :
    (n p : ℕ) {s : Pmm}
    → IsValid s
    → p + n ≤ s.total_pages
    → ((q : ℕ) → p ≤ q → q < p + n → test_bit s.bitmap q ≡ false)
    → After s (take_range n p s) (λ q. if within p n q then true else test_bit s.bitmap q)
unfolding take_range
take_range_lem zero p v r h = record { valid = v; total = refl; bits_are = λ q. ground arith }
take_range_lem (suc n) p {s} v r h =
    let step = take_page-After p v (omega arith) (h p (omega arith) (omega arith)) in
    After-trans _ step
      (take_range_lem n (p + 1) step.valid (omega (arith, step.total))
        (λ q a b. ground (arith, step.bits_are q, h q (omega arith) (omega arith))))
      (λ q. ground (arith, step.bits_are q))

pub reserve_lem :
    (n p : ℕ) {s : Pmm}
    → IsValid s
    → p + n ≤ s.total_pages
    → After s (reserve n p s) (λ q. if within p n q then true else test_bit s.bitmap q)
unfolding reserve
reserve_lem zero p v r = record { valid = v; total = refl; bits_are = λ q. ground arith }
reserve_lem (suc n) p {s} v r = elim (Bool-cases (test_bit s.bitmap p)) [
  | inl used ↦ rw used (
      After-trans _ (record { valid = v; total = refl; bits_are = λ q. refl })
        (reserve_lem n (p + 1) v (omega arith)) (λ q. ground arith))
  | inr clear ↦
      let step = take_page-After p v (omega arith) clear in
      rw clear (
        After-trans _ step (reserve_lem n (p + 1) step.valid (omega (arith, step.total)))
          (λ q. ground (arith, step.bits_are q)))
]

-- The conventional regions lie below the total, and no two of them share a page.
abbrev pub Bounded : ℕ → List MemDesc → Type 0
Bounded total [] = Unit
Bounded total (d ∷ ds) =
    (d.kind ≡ efi_conventional_memory → d.physical_start / page_size + d.number_of_pages ≤ total)
    × Bounded total ds

abbrev pub Disjoint : List MemDesc → Type 0
Disjoint [] = Unit
Disjoint (d ∷ ds) =
    (d.kind ≡ efi_conventional_memory
      → (q : ℕ) → within (d.physical_start / page_size) d.number_of_pages q ≡ true
      → in_conventional ds q ≡ false)
    × Disjoint ds

pub release_regions_lem :
    (ds : List MemDesc) {s : Pmm}
    → IsValid s
    → Bounded s.total_pages ds
    → Disjoint ds
    → ((q : ℕ) → in_conventional ds q ≡ true → test_bit s.bitmap q ≡ true)
    → After s
        (release_regions ds s)
        (λ q. if in_conventional ds q then false else test_bit s.bitmap q)
unfolding release_regions
release_regions_lem [] v b d h = record { valid = v; total = refl; bits_are = λ q. refl }
release_regions_lem (e ∷ ds) {s} v b d h = elim (Bool-cases (e.kind == efi_conventional_memory)) [
  | inl conv ↦
      let is_conv : e.kind ≡ efi_conventional_memory = ground arith in
      let step =
        release_range_lem e.number_of_pages (e.physical_start / page_size) v (b.0 is_conv)
          (λ q a l. h q (ground arith)) in
      rw conv (
        After-trans _ step
          (release_regions_lem ds step.valid (rw step.total b.1) d.1
            (λ q c. ground (arith, step.bits_are q, d.0 is_conv q, h q)))
          (λ q. ground (arith, step.bits_are q)))
  | inr other ↦ rw other (release_regions_lem ds v b.1 d.1 (λ q c. h q (ground arith)))
]
