-- ===== src/Pmm/Alloc.antt =====
-- kernel/pmm.c, `AllocPage`, `AllocPageBelow4G` and `FreePage`: the invariant of the allocator, and
-- what each call does to the set of free pages.
use bloom_os.Prelude.{
  ℕ, zero, suc, ◌+◌, ◌*◌, ◌/◌, ◌%◌, ◌^◌, ◌<◌, ◌≤◌, ◌≡◌, ◌∙◌, ap, refl, true, false, ◌==◌,
  if◌then◌else◌, arith, length, All, ◌⊎◌, inl, inr, Bool-cases,
}
use bloom_os.Prelude.Bytes.{IsByte}
use bloom_os.Pmm.{
  Pmm, page_size, test_bit, take_page, release_page, alloc_from, alloc_page, alloc_page_below_4g,
  free_page, limit_4g,
}
use bloom_os.Pmm.Bits.{
  test-set_bit, test-clear_bit, set_bit-IsByte, clear_bit-IsByte, length-set_bit, length-clear_bit,
}
use bloom_os.Pmm.Count.{
  count_free, count_free-le, count_free-zero, count_free-pos, count_free-set_bit,
  count_free-clear_bit,
}

-- The bitmap has a bit for each page, and the counter is the number of clear bits.
pub record IsValid (s : Pmm) : Type 0 where
  pub bytes : All IsByte s.bitmap
  pub room : s.total_pages ≤ 8 * length s.bitmap
  pub small : s.total_pages ≤ 2 ^ 52
  pub counted : s.free_pages ≡ count_free s.bitmap s.total_pages

abbrev pub Free : Pmm → ℕ → Type 0
Free s p = (p < s.total_pages) × (test_bit s.bitmap p ≡ false)

module _ {s : Pmm} (v : IsValid s) (p : ℕ) (inside : p < s.total_pages) where
  pub take_page-IsValid : test_bit s.bitmap p ≡ false → IsValid (take_page p s)
  unfolding take_page
  take_page-IsValid e = record {
    bytes = set_bit-IsByte s.bitmap v.bytes p;
    room = omega (arith, v.room, length-set_bit s.bitmap p);
    small = v.small;
    counted = ground (
      arith,
      v.counted,
      v.small,
      count_free-le s.bitmap s.total_pages,
      count_free-set_bit s.bitmap v.bytes p (omega (arith, v.room)) s.total_pages e,
    );
  }

  pub release_page-IsValid : test_bit s.bitmap p ≡ true → IsValid (release_page p s)
  unfolding release_page
  release_page-IsValid e = record {
    bytes = clear_bit-IsByte s.bitmap v.bytes p;
    room = omega (arith, v.room, length-clear_bit s.bitmap p);
    small = v.small;
    counted = ground (
      arith,
      v.counted,
      v.small,
      count_free-le s.bitmap s.total_pages,
      count_free-clear_bit s.bitmap v.bytes p (omega (arith, v.room)) s.total_pages e,
    );
  }

  pub test-take_page :
      (q : ℕ) → test_bit (take_page p s).bitmap q ≡ (if p == q then true else test_bit s.bitmap q)
  unfolding take_page
  test-take_page q = test-set_bit s.bitmap v.bytes p q (omega (arith, v.room))

  pub test-release_page :
      (q : ℕ)
      → test_bit (release_page p s).bitmap q ≡ (if p == q then false else test_bit s.bitmap q)
  unfolding release_page
  test-release_page q = test-clear_bit s.bitmap v.bytes p q (omega (arith, v.room))

pub total-take_page : (p : ℕ) (s : Pmm) → (take_page p s).total_pages ≡ s.total_pages
unfolding take_page
total-take_page p s = refl

pub total-release_page : (p : ℕ) (s : Pmm) → (release_page p s).total_pages ≡ s.total_pages
unfolding release_page
total-release_page p s = refl

-- What the search over `[i, i + n)` comes to: the lowest clear page is taken, or there is none.
abbrev pub Lowest : ℕ → ℕ → Pmm → ℕ × Pmm → Type 0
Lowest lo hi s r =
    ((p : ℕ) × (lo ≤ p)
      × (p < hi)
      × (test_bit s.bitmap p ≡ false)
      × ((q : ℕ) → lo ≤ q → q < p → test_bit s.bitmap q ≡ true)
      × (r ≡ (p * page_size % 2 ^ 64, take_page p s)))
    ⊎ (((q : ℕ) → lo ≤ q → q < hi → test_bit s.bitmap q ≡ true) × (r ≡ (0, s)))

pub alloc_from-Lowest : (n i j : ℕ) (s : Pmm) → i + n ≡ j → Lowest i j s (alloc_from n i s)
unfolding alloc_from
alloc_from-Lowest zero i j s e = inr ((λ q a b. absurd (omega arith)), refl)
alloc_from-Lowest (suc n) i j s e = elim (Bool-cases (test_bit s.bitmap i)) [
  | inr clear ↦ inl (i, omega arith, omega arith, clear, (λ q a b. absurd (omega arith)), rw clear)
  | inl used ↦ rw used (later used (alloc_from-Lowest n (i + 1) j s (omega arith)))
]
  where
    below :
        (used : test_bit s.bitmap i ≡ true) (k : ℕ)
        → ((q : ℕ) → i + 1 ≤ q → q < k → test_bit s.bitmap q ≡ true)
        → (q : ℕ) → i ≤ q
        → q < k
        → test_bit s.bitmap q ≡ true
    below used k h q a b = elim (Bool-cases (i == q)) [
      | inl same ↦ ground arith
      | inr other ↦ h q (ground arith) b
    ]

    later :
        (used : test_bit s.bitmap i ≡ true) {r : ℕ × Pmm} → Lowest (i + 1) j s r → Lowest i j s r
    later used (inl (p, a, b, c, d, f)) = inl (p, omega arith, b, c, below used p d, f)
    later used (inr (d, f)) = inr (below used j d, f)

-- A free page is counted, and where the counter is not 0 the search cannot come back empty.
free_pos :
    {s : Pmm}
    → IsValid s
    → (p : ℕ) → p < s.total_pages
    → test_bit s.bitmap p ≡ false
    → 0 < s.free_pages
free_pos {s} v p h e = omega (arith, v.counted, count_free-pos s.bitmap s.total_pages p h e)

none_free :
    {s : Pmm}
    → IsValid s
    → ((q : ℕ) → 0 ≤ q → q < s.total_pages → test_bit s.bitmap q ≡ true)
    → s.free_pages ≡ 0
none_free {s} v h =
    omega (arith, v.counted, count_free-zero s.bitmap s.total_pages (λ q l. h q (omega arith) l))

free_pages-take_page :
    {s : Pmm}
    → IsValid s
    → (p : ℕ) → 0 < s.free_pages
    → (take_page p s).free_pages + 1 ≡ s.free_pages
unfolding take_page
free_pages-take_page {s} v p h =
    omega (arith, v.counted, v.small, count_free-le s.bitmap s.total_pages)

-- What a successful allocation below page `hi` does: it returns the lowest free page, marks that
-- page and no other, lowers the counter by one, and keeps the invariant.
pub record Allocates (hi : ℕ) (s : Pmm) (r : ℕ × Pmm) : Type 0 where
  pub page : ℕ
  pub in_range : page < hi
  pub was_free : test_bit s.bitmap page ≡ false
  pub lowest : (q : ℕ) → q < page → test_bit s.bitmap q ≡ true
  pub address : r.0 ≡ page * page_size
  pub marks : (q : ℕ) → test_bit r.1.bitmap q ≡ (if page == q then true else test_bit s.bitmap q)
  pub count : r.1.free_pages + 1 ≡ s.free_pages
  pub total : r.1.total_pages ≡ s.total_pages
  pub valid : IsValid r.1

Lowest-Allocates :
    {s : Pmm} (hi : ℕ) {r : ℕ × Pmm}
    → IsValid s
    → hi ≤ s.total_pages
    → Lowest 0 hi s r
    → Allocates hi s r ⊎ (((q : ℕ) → q < hi → test_bit s.bitmap q ≡ true) × (r ≡ (0, s)))
Lowest-Allocates {s} hi {r} v le (inr (d, e)) = inr ((λ q l. d q (omega arith) l), e)
Lowest-Allocates {s} hi {r} v le (inl (p, a, b, c, d, e)) = inl (record {
  page = p;
  in_range = b;
  was_free = c;
  lowest = λ q l. d q (omega arith) l;
  address = ap (λ x. x.0) e ∙ omega (arith, v.small);
  marks = λ q. ap (λ x. test_bit x.1.bitmap q) e ∙ test-take_page v p (omega arith) q;
  count = ap (λ x. x.1.free_pages + 1) e ∙ free_pages-take_page v p (free_pos v p (omega arith) c);
  total = ap (λ x. x.1.total_pages) e ∙ total-take_page p s;
  valid = rw e (take_page-IsValid v p (omega arith) c);
})

-- `AllocPage` in a valid state either takes the lowest free page, as `Allocates` says, or every
-- page is in use; then it returns the null pointer, the state is unchanged and the counter is 0.
pub alloc_page_lem :
    {s : Pmm}
    → IsValid s
    → Allocates s.total_pages s (alloc_page s)
      ⊎ ((alloc_page s ≡ (0, s))
          × (s.free_pages ≡ 0)
          × ((q : ℕ) → q < s.total_pages → test_bit s.bitmap q ≡ true))
unfolding alloc_page
alloc_page_lem {s} v = split (
    Lowest-Allocates s.total_pages v (omega arith)
      (alloc_from-Lowest s.total_pages 0 s.total_pages s (omega arith)))
  where
    split :
        {r : ℕ × Pmm}
        → Allocates s.total_pages s r
          ⊎ (((q : ℕ) → q < s.total_pages → test_bit s.bitmap q ≡ true) × (r ≡ (0, s)))
        → Allocates s.total_pages s r
          ⊎ ((r ≡ (0, s))
              × (s.free_pages ≡ 0)
              × ((q : ℕ) → q < s.total_pages → test_bit s.bitmap q ≡ true))
    split (inl a) = inl a
    split (inr (d, e)) = inr (e, none_free v (λ q _ l. d q l), d)

limit_4g-le : (s : Pmm) → (limit_4g s ≤ s.total_pages) × (limit_4g s ≤ 0x10_0000)
limit_4g-le s = ground arith

-- `AllocPageBelow4G` in a valid state either takes the lowest free page, and the whole page lies
-- below 4 GiB; or no page below 4 GiB is free, it returns the null pointer and changes nothing.
pub alloc_page_below_4g_lem :
    {s : Pmm}
    → IsValid s
    → (Allocates s.total_pages s (alloc_page_below_4g s)
        × ((alloc_page_below_4g s).0 + page_size ≤ 2 ^ 32))
      ⊎ ((alloc_page_below_4g s ≡ (0, s))
          × ((q : ℕ)
              → q < s.total_pages
              → (q + 1) * page_size ≤ 2 ^ 32
              → test_bit s.bitmap q ≡ true))
unfolding alloc_page_below_4g
alloc_page_below_4g_lem {s} v = split (
    Lowest-Allocates (limit_4g s) v (limit_4g-le s).0
      (alloc_from-Lowest (limit_4g s) 0 (limit_4g s) s (omega arith)))
  where
    split :
        {r : ℕ × Pmm}
        → Allocates (limit_4g s) s r
          ⊎ (((q : ℕ) → q < limit_4g s → test_bit s.bitmap q ≡ true) × (r ≡ (0, s)))
        → (Allocates s.total_pages s r × (r.0 + page_size ≤ 2 ^ 32))
          ⊎ ((r ≡ (0, s))
              × ((q : ℕ)
                  → q < s.total_pages
                  → (q + 1) * page_size ≤ 2 ^ 32
                  → test_bit s.bitmap q ≡ true))
    split (inl a) = inl (
      record {
        page = a.page;
        in_range = omega (arith, limit_4g-le s, a.in_range);
        was_free = a.was_free;
        lowest = a.lowest;
        address = a.address;
        marks = a.marks;
        count = a.count;
        total = a.total;
        valid = a.valid;
      },
      omega (arith, limit_4g-le s, a.in_range, a.address),
    )
    split (inr (d, e)) = inr (e, λ q l b. d q (ground arith))

-- Freeing a page of the range (given by any address in it) keeps the invariant, makes the page
-- free, leaves every other page as it was, and adds one to the counter if the page was in use.
pub free_page_lem :
    {s : Pmm} (addr : ℕ)
    → IsValid s
    → addr / page_size < s.total_pages
    → IsValid (free_page addr s)
      × ((q : ℕ)
          → test_bit (free_page addr s).bitmap q
            ≡ (if addr / page_size == q then false else test_bit s.bitmap q))
      × ((free_page addr s).free_pages
          ≡ s.free_pages + (if test_bit s.bitmap (addr / page_size) then 1 else 0))
unfolding free_page release_page
free_page_lem {s} addr v h = elim (Bool-cases (test_bit s.bitmap (addr / page_size))) [
  | inl used ↦ rw used (
    release_page-IsValid v (addr / page_size) h used,
    test-release_page v (addr / page_size) h,
    free_pages-release_page,
  )
  | inr clear ↦ rw clear (v, (λ q. ground arith), omega arith)
]
  where
    free_pages-release_page : (release_page (addr / page_size) s).free_pages ≡ s.free_pages + 1
    free_pages-release_page =
        omega (arith, v.counted, v.small, count_free-le s.bitmap s.total_pages)

-- A page that `AllocPage` has just returned can be freed: the set of free pages and the counter are
-- then those from before the allocation.
pub free_page-alloc_page :
    {s : Pmm}
    → IsValid s
    → 0 < s.free_pages
    → ((q : ℕ)
        → test_bit (free_page (alloc_page s).0 (alloc_page s).1).bitmap q ≡ test_bit s.bitmap q)
      × ((free_page (alloc_page s).0 (alloc_page s).1).free_pages ≡ s.free_pages)
free_page-alloc_page {s} v h = go (alloc_page_lem v)
  where
    go :
        Allocates s.total_pages s (alloc_page s)
          ⊎ ((alloc_page s ≡ (0, s))
              × (s.free_pages ≡ 0)
              × ((q : ℕ) → q < s.total_pages → test_bit s.bitmap q ≡ true))
        → ((q : ℕ)
            → test_bit (free_page (alloc_page s).0 (alloc_page s).1).bitmap q ≡ test_bit s.bitmap q)
          × ((free_page (alloc_page s).0 (alloc_page s).1).free_pages ≡ s.free_pages)
    go (inr (_, z, _)) = absurd (omega arith)
    go (inl a) =
        let page_of : (alloc_page s).0 / page_size ≡ a.page = omega (arith, a.address) in
        let freed =
          free_page_lem (alloc_page s).0 a.valid (omega (arith, page_of, a.in_range, a.total)) in
        (
          (λ q. ground (arith, freed.1 q, a.marks q, a.was_free, page_of)),
          ground (arith, freed.2, a.marks a.page, a.count, page_of),
        )

pub total-free_page : (addr : ℕ) (s : Pmm) → (free_page addr s).total_pages ≡ s.total_pages
unfolding free_page release_page
total-free_page addr s = ground arith

-- Freeing a page in use by its own address.
pub free_page_at :
    (p addr : ℕ) {s : Pmm}
    → IsValid s
    → addr ≡ p * page_size
    → p < s.total_pages
    → test_bit s.bitmap p ≡ true
    → IsValid (free_page addr s)
      × ((q : ℕ)
          → test_bit (free_page addr s).bitmap q ≡ (if p == q then false else test_bit s.bitmap q))
      × ((free_page addr s).free_pages ≡ s.free_pages + 1)
free_page_at p addr {s} v e l used =
    let page_of : addr / page_size ≡ p = omega arith in
    let (a, b, c) = free_page_lem addr v (omega (arith, page_of)) in
    (
      a,
      λ q. b q ∙ ap (λ k. if k == q then false else test_bit s.bitmap q) page_of,
      ground (arith, c, page_of, used),
    )
