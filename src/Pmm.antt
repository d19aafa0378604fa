-- ===== src/Pmm.antt =====
-- kernel/pmm.c: the physical page allocator, a bitmap with one bit for each page (set: in use).
-- The static variables are the record `Pmm`; a function that changes them returns the new record.
-- The bitmap is the list of its bytes. Addresses and counters are 64-bit words.
pub mod Bits
pub mod Count
pub mod Alloc
pub mod Regions
pub mod Init
mod Tests
use bloom_os.Prelude.{
  ℕ, zero, suc, ◌+◌, ◌-◌, ◌*◌, ◌/◌, ◌%◌, ◌^◌, Bool, true, false, not, ◌&&◌, ◌||◌, List, [], ◌∷◌,
  ltb, leb, ◌==◌, if◌then◌else◌, get_or, set,
}
use bloom_os.Prelude.Bytes.{byte_at, set_in_byte, clear_in_byte, test_in_byte}

abbrev pub page_size : ℕ
page_size = 4096

abbrev pub efi_conventional_memory : ℕ
efi_conventional_memory = 7

-- `EFI_MEM_DESC`, the fields that the code reads.
pub record MemDesc : Type 0 where
  pub kind : ℕ
  pub physical_start : ℕ
  pub number_of_pages : ℕ

pub record Pmm : Type 0 where
  pub bitmap : List ℕ
  pub bitmap_pages : ℕ
  pub total_pages : ℕ
  pub free_pages : ℕ

unfoldable pub set_bit : List ℕ → ℕ → List ℕ
set_bit bm page = set bm (page / 8) (set_in_byte (byte_at bm (page / 8)) (page % 8))

pub clear_bit : List ℕ → ℕ → List ℕ
clear_bit bm page = set bm (page / 8) (clear_in_byte (byte_at bm (page / 8)) (page % 8))

unfoldable pub test_bit : List ℕ → ℕ → Bool
test_bit bm page = test_in_byte (byte_at bm (page / 8)) (page % 8)

pub is_backed_ram : ℕ → Bool
is_backed_ram kind =
    kind == 1
    || (kind == 2
        || (kind == 3
            || (kind == 4
                || (kind == 5
                    || (kind == 6 || (kind == 7 || (kind == 9 || (kind == 10 || kind == 14))))))))

-- `SetBit(p); FreePages--` and `ClearBit(p); FreePages++`.
unfoldable pub take_page : ℕ → Pmm → Pmm
take_page p s = record s {
  bitmap = set_bit s.bitmap p;
  free_pages = (s.free_pages + 2 ^ 64 - 1) % 2 ^ 64;
}

pub release_page : ℕ → Pmm → Pmm
release_page p s = record s {
  bitmap = clear_bit s.bitmap p;
  free_pages = (s.free_pages + 1) % 2 ^ 64;
}

abbrev pub desc_end : MemDesc → ℕ
desc_end d = (d.physical_start + d.number_of_pages * page_size % 2 ^ 64) % 2 ^ 64

-- The loop that finds the end of the highest backed region.
pub highest_address : ℕ → List MemDesc → ℕ
highest_address highest [] = highest
highest_address highest (d ∷ ds) =
    highest_address
      (if is_backed_ram d.kind && ltb highest (desc_end d) then desc_end d else highest) ds

-- The loop that chooses the place of the bitmap; 0 where no region is large enough.
pub bitmap_address : ℕ → List MemDesc → ℕ
bitmap_address pages [] = 0
bitmap_address pages (d ∷ ds) =
    if d.kind == efi_conventional_memory && leb pages d.number_of_pages
    then d.physical_start
    else bitmap_address pages ds

-- `for (i = 0; i < TotalPages; i++) SetBit(i)`, with the rounds left and the page.
pub fill : ℕ → ℕ → List ℕ → List ℕ
fill zero page bm = bm
fill (suc n) page bm = fill n (page + 1) (set_bit bm page)

-- The inner loop over the pages of a conventional region, and the loop over the regions.
pub release_range : ℕ → ℕ → Pmm → Pmm
release_range zero page s = s
release_range (suc n) page s = release_range n (page + 1) (release_page page s)

pub release_regions : List MemDesc → Pmm → Pmm
release_regions [] s = s
release_regions (d ∷ ds) s = release_regions ds (
    if d.kind == efi_conventional_memory
    then release_range d.number_of_pages (d.physical_start / page_size) s
    else s)

-- The loop over the pages of the bitmap itself.
pub take_range : ℕ → ℕ → Pmm → Pmm
take_range zero page s = s
take_range (suc n) page s = take_range n (page + 1) (take_page page s)

-- The loop over the reserved low pages.
pub reserve : ℕ → ℕ → Pmm → Pmm
reserve zero page s = s
reserve (suc n) page s =
    reserve n (page + 1) (if not (test_bit s.bitmap page) then take_page page s else s)

-- The bytes that the memory holds from an address on.
pub ram_bytes : (ℕ → ℕ) → ℕ → ℕ → List ℕ
ram_bytes ram addr zero = []
ram_bytes ram addr (suc n) = ram addr ∷ ram_bytes ram (addr + 1) n

abbrev pub total_of : List MemDesc → ℕ
total_of ds = highest_address 0 ds / page_size

abbrev pub bitmap_pages_of : List MemDesc → ℕ
bitmap_pages_of ds = ((total_of ds + 7) / 8 + page_size - 1) / page_size

abbrev pub reserved_of : ℕ → ℕ
reserved_of total = if ltb total 256 then total else 256

-- `InitPmm`. `ram` is what the memory holds before; the bitmap lies in `BitmapPages` pages of it.
pub init_pmm : (ℕ → ℕ) → List MemDesc → Pmm
init_pmm ram ds =
    let total = total_of ds in
    let pages = bitmap_pages_of ds in
    let addr = bitmap_address pages ds in
    let blank : Pmm = record {
      bitmap = fill total 0 (ram_bytes ram addr (pages * page_size));
      bitmap_pages = pages;
      total_pages = total;
      free_pages = 0;
    } in
    reserve (reserved_of total) 0 (take_range pages (addr / page_size) (release_regions ds blank))

-- The search of `AllocPage`, with the rounds left and the page; 0 is the null pointer.
unfoldable pub alloc_from : ℕ → ℕ → Pmm → ℕ × Pmm
alloc_from zero i s = (0, s)
alloc_from (suc n) i s =
    let rest = alloc_from n (i + 1) s in
    if not (test_bit s.bitmap i) then (i * page_size % 2 ^ 64, take_page i s) else rest

unfoldable pub alloc_page : Pmm → ℕ × Pmm
alloc_page s = alloc_from s.total_pages 0 s

abbrev pub limit_4g : Pmm → ℕ
limit_4g s =
    if ltb s.total_pages (0x1_0000_0000 / page_size)
    then s.total_pages
    else 0x1_0000_0000 / page_size

pub alloc_page_below_4g : Pmm → ℕ × Pmm
alloc_page_below_4g s = alloc_from (limit_4g s) 0 s

pub free_page : ℕ → Pmm → Pmm
free_page addr s =
    if test_bit s.bitmap (addr / page_size) then release_page (addr / page_size) s else s

pub get_free_page_count : Pmm → ℕ
get_free_page_count s = s.free_pages

pub get_total_page_count : Pmm → ℕ
get_total_page_count s = s.total_pages
