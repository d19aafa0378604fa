-- ===== src/Fat/Tests.antt =====
-- kernel/fat32.c: runs at a small volume, and the theorems at inputs that meet their hypotheses.
use bloom_os.Prelude.{
  ℕ, zero, suc, ◌+◌, ◌-◌, ◌*◌, ◌/◌, ◌%◌, ◌<◌, ◌≤◌, ◌≡◌, refl, true, false, [], ◌∷◌, none, some,
  ◌==◌, if◌then◌else◌, arith, min, List, ◌++◌, replicate,
}
use bloom_os.Prelude.Bytes.{test_in_byte, set_in_byte}
use bloom_os.Prelude.Slices.{slice}
use bloom_os.Pmm.{Pmm, test_bit, set_bit, alloc_page, alloc_from, take_page}
use bloom_os.Pmm.Count.{count_free}
use bloom_os.Pmm.Alloc.{IsValid}
use bloom_os.Fat.Disk.{ReadFn, Holds}
use bloom_os.Fat.Boot.{Geometry, Volume, fat_mount, fat_boot_sector_valid}
use bloom_os.Fat.Boot.Mount.{Outcome, fat_mount_lem}
use bloom_os.Fat.Table.{cluster_lba, cluster_valid, entry_lba, entry_in, next_cluster}
use bloom_os.Fat.Table.Chain.{chain, fat_entry, table_entry, IsCoherent, next_cluster_lem}
use bloom_os.Fat.File.{Entry, is_directory, fat_read_at}
use bloom_os.Fat.File.Content.{IsStored}
use bloom_os.Fat.Dir.{fat_lookup, fat_list_dir}
use bloom_os.Fat.Dir.Beside.{IsFirst, collect}
use bloom_os.Fat.Dir.First.{fat_lookup-IsFirst}
use bloom_os.Fat.File.Exact.{Returns, fat_read_at_lem}

-- A table in sector 1 where cluster 5 follows cluster 3, and bytes that tell their places.
abbrev disk : ℕ → ℕ
disk a = if a == 524 then 5 else if a / 512 == 1 then 0 else a / 512 * 16 + a % 7

abbrev read_disk : ReadFn
read_disk lba count = some (slice disk (lba * 512) (count * 512))

abbrev geometry : Geometry
geometry = record {
  start_lba = 0;
  sectors_per_cluster = 1;
  fat_start = 1;
  first_data = 2;
  root_cluster = 2;
}

abbrev volume : Volume
volume = record {
  geometry = geometry;
  sector_buffer = 4096;
  fat_buffer_page = 8192;
  fat_buffer = [];
  fat_buffer_lba = 0;
  fat_buffer_valid = false;
  cursor_first = 0;
  cursor_index = 0;
  cursor_cluster = 0;
}

abbrev file : Entry
file = record { name = b'A' ∷ []; attr = 0x20; size = 600; cluster = 3 }

read_disk-Holds : Holds read_disk disk 100
read_disk-Holds = record { reads = λ lba count h. refl }

volume-IsCoherent : IsCoherent read_disk volume
unfolding cluster_valid
volume-IsCoherent = record { cached = λ e. cc; cursor = λ e. cc }

-- The last bytes of the first cluster and the first of the second.
reads_across : (fat_read_at read_disk volume file 510 4).0 ≡ 50 ∷ 51 ∷ 85 ∷ 86 ∷ []
unfolding fat_read_at is_directory cluster_valid next_cluster entry_lba entry_in cluster_lba slice
reads_across = refl

file-IsStored : IsStored read_disk 100 geometry file
unfolding chain fat_entry cluster_valid cluster_lba entry_lba entry_in slice
file-IsStored = record {
  sized = omega arith;
  positive = omega arith;
  bounded = omega arith;
  valid = links;
  inside = places;
}
  where
    links : (k : ℕ) → k * 512 < 600 → cluster_valid (chain read_disk geometry 3 k) ≡ true
    links zero h = refl
    links (suc zero) h = refl
    links (suc (suc k)) h = absurd (omega arith)

    places : (k : ℕ) → k * 512 < 600 → cluster_lba geometry (chain read_disk geometry 3 k) + 1 ≤ 100
    places zero h = omega arith
    places (suc zero) h = omega arith
    places (suc (suc k)) h = absurd (omega arith)

fat_read_at_lem_example :
    Returns read_disk disk geometry file 510
      (min 200 (600 - 510))
      (fat_read_at read_disk volume file 510 200)
unfolding is_directory
fat_read_at_lem_example =
    fat_read_at_lem read_disk-Holds volume file-IsStored volume-IsCoherent 510 200 refl

next_cluster_lem_example :
    ((next_cluster read_disk volume 3).0 ≡ table_entry read_disk geometry 3)
    × ((next_cluster read_disk volume 3).1.geometry ≡ geometry)
    × IsCoherent read_disk (next_cluster read_disk volume 3).1
next_cluster_lem_example = next_cluster_lem read_disk volume 3 volume-IsCoherent

-- Sixteen pages, of which 9 and 11 are free.
abbrev pages : Pmm
pages = record {
  bitmap = 255 ∷ 0b11110101 ∷ [];
  bitmap_pages = 1;
  total_pages = 16;
  free_pages = 2;
}

pages-IsValid : IsValid pages
unfolding count_free test_bit test_in_byte
pages-IsValid = record {
  bytes = omega arith;
  room = omega arith;
  small = omega arith;
  counted = refl;
}

-- The sectors of `disk` are no boot sectors.
mount_fails : (fat_mount read_disk 3 pages).0 ≡ none
unfolding fat_mount alloc_page alloc_from take_page test_bit set_bit set_in_byte test_in_byte
    fat_boot_sector_valid slice
mount_fails = refl

fat_mount_lem_example : Outcome read_disk 3 pages (fat_mount read_disk 3 pages)
unfolding test_bit test_in_byte
fat_mount_lem_example = fat_mount_lem read_disk 3 pages-IsValid refl

-- A directory with the one entry FILE at the cluster 3.
abbrev directory : List ℕ
directory =
    b'F' ∷ b'I' ∷ b'L' ∷ b'E' ∷ []
    ++ replicate 7 b' '
    ++ (0x20 ∷ [])
    ++ replicate 14 0
    ++ (3 ∷ 0 ∷ 88 ∷ 2 ∷ [])
    ++ replicate 482 0

abbrev read_directory : ReadFn
read_directory lba count = some directory

-- The look-up of "file" in it.
abbrev wanted : List ℕ
wanted = b'f' ∷ b'i' ∷ b'l' ∷ b'e' ∷ []

fat_lookup-IsFirst_example :
    IsFirst wanted
      (fat_lookup read_directory [] volume 2 wanted).0
      (fat_list_dir collect read_directory [] 2 volume []).1
fat_lookup-IsFirst_example = fat_lookup-IsFirst read_directory [] volume 2 wanted
