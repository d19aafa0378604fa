-- ===== src/Pmm/Tests.antt =====
-- kernel/pmm.c: runs at concrete states, and the theorems at inputs that meet their hypotheses.
use bloom_os.Prelude.{
  ℕ, ◌+◌, ◌*◌, ◌/◌, ◌%◌, ◌^◌, ◌<◌, ◌≤◌, ◌≡◌, refl, true, false, not, ◌||◌, List, [], ◌∷◌, ◌==◌,
  if◌then◌else◌, arith, ltb, ◌⊎◌,
}
use bloom_os.Prelude.Bytes.{set_in_byte, clear_in_byte, test_in_byte}
use bloom_os.Pmm.{
  Pmm, MemDesc, page_size, set_bit, clear_bit, test_bit, is_backed_ram, take_page, release_page,
  alloc_from, alloc_page, alloc_page_below_4g, free_page, highest_address, bitmap_address,
  bitmap_pages_of, total_of, reserved_of, init_pmm,
}
use bloom_os.Pmm.Count.{count_free}
use bloom_os.Pmm.Alloc.{
  IsValid, Allocates, alloc_page_lem, alloc_page_below_4g_lem, free_page_lem, free_page-alloc_page,
}
use bloom_os.Pmm.Regions.{within, in_conventional}
use bloom_os.Pmm.Init.{init_pmm_lem}

-- Sixteen pages, of which 9 and 11 are free.
abbrev small : Pmm
small = record {
  bitmap = 255 ∷ 0b11110101 ∷ [];
  bitmap_pages = 1;
  total_pages = 16;
  free_pages = 2;
}

abbrev full : Pmm
full = record small { bitmap = 255 ∷ 255 ∷ []; free_pages = 0 }

alloc_page_takes_nine :
    alloc_page small ≡ (9 * 4096, record small { bitmap = 255 ∷ 0b11110111 ∷ []; free_pages = 1 })
unfolding alloc_page alloc_from take_page test_bit set_bit set_in_byte test_in_byte
alloc_page_takes_nine = refl

alloc_page_of_full : alloc_page full ≡ (0, full)
unfolding alloc_page alloc_from take_page test_bit set_bit set_in_byte test_in_byte
alloc_page_of_full = refl

free_page_of_nine : free_page (9 * 4096 + 5) (alloc_page small).1 ≡ small
unfolding alloc_page alloc_from take_page test_bit set_bit set_in_byte test_in_byte free_page
    release_page clear_bit clear_in_byte
free_page_of_nine = refl

small-IsValid : IsValid small
unfolding count_free test_bit test_in_byte
small-IsValid = record {
  bytes = omega arith;
  room = omega arith;
  small = omega arith;
  counted = refl;
}

alloc_page_lem_example :
    Allocates 16 small (alloc_page small)
    ⊎ ((alloc_page small ≡ (0, small))
        × (◌≡◌ {A = ℕ} 2 0)
        × ((q : ℕ) → q < 16 → test_bit small.bitmap q ≡ true))
alloc_page_lem_example = alloc_page_lem small-IsValid

alloc_page_below_4g_lem_example :
    (Allocates 16 small (alloc_page_below_4g small)
      × ((alloc_page_below_4g small).0 + page_size ≤ 2 ^ 32))
    ⊎ ((alloc_page_below_4g small ≡ (0, small))
        × ((q : ℕ) → q < 16 → (q + 1) * page_size ≤ 2 ^ 32 → test_bit small.bitmap q ≡ true))
alloc_page_below_4g_lem_example = alloc_page_below_4g_lem small-IsValid

free_page_lem_example :
    IsValid (free_page 40960 small)
    × ((q : ℕ)
        → test_bit (free_page 40960 small).bitmap q
          ≡ (if 40960 / page_size == q then false else test_bit small.bitmap q))
    × ((free_page 40960 small).free_pages
        ≡ 2 + (if test_bit small.bitmap (40960 / page_size) then 1 else 0))
free_page_lem_example = free_page_lem 40960 small-IsValid (omega arith)

free_page-alloc_page_example :
    ((q : ℕ)
      → test_bit (free_page (alloc_page small).0 (alloc_page small).1).bitmap q
        ≡ test_bit small.bitmap q)
    × ((free_page (alloc_page small).0 (alloc_page small).1).free_pages ≡ 2)
free_page-alloc_page_example = free_page-alloc_page small-IsValid (omega arith)

-- Boot services data below 1 MiB, and 300 conventional pages from there on.
abbrev memory_map : List MemDesc
memory_map =
    record { kind = 4; physical_start = 0; number_of_pages = 256 }
    ∷ record { kind = 7; physical_start = 0x10_0000; number_of_pages = 300 }
    ∷ []

init_pmm_lem_example :
    IsValid (init_pmm (λ a. a % 256) memory_map)
    × ((init_pmm (λ a. a % 256) memory_map).total_pages ≡ total_of memory_map)
    × ((q : ℕ)
        → q < total_of memory_map
        → test_bit (init_pmm (λ a. a % 256) memory_map).bitmap q ≡ (
            ltb q (reserved_of (total_of memory_map))
            || (within
                  (bitmap_address (bitmap_pages_of memory_map) memory_map / page_size)
                  (bitmap_pages_of memory_map)
                  q
                || not (in_conventional memory_map q))))
unfolding highest_address is_backed_ram
init_pmm_lem_example =
    init_pmm_lem (λ a. a % 256) memory_map (λ a. omega arith) (omega arith)
      ((λ e. absurd (omega arith)), ((λ e q w. refl), tt)) refl
