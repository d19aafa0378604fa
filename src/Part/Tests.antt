-- ===== src/Part/Tests.antt =====
-- kernel/part.c: scans of a small medium, and the theorems at inputs that meet their hypotheses.
use bloom_os.Prelude.{
  ℕ, zero, suc, ◌+◌, ◌-◌, ◌*◌, ◌%◌, ◌^◌, ◌≡◌, refl, true, false, List, [], ◌∷◌, ◌++◌, none, some,
  ◌==◌, if◌then◌else◌, arith, ltb, get_or, replicate, ◌<◌,
}
use bloom_os.Prelude.Int.{pos}
use bloom_os.Prelude.Text.{chars}
use bloom_os.Prelude.Slices.{slice}
use bloom_os.Block.{Device, Table, ReadExFn, device_read, read_direct, read_device, block_read_from}
use bloom_os.Part.{Scan, read_native}
use bloom_os.Part.Names.{text_eq}
use bloom_os.Part.Gpt.{gpt_valid, scan_gpt}
use bloom_os.Part.Gpt.Flat.{flat_entries}
use bloom_os.Part.Gpt.Flat.Header.{scan_gpt_flat}
use bloom_os.Part.Device.{part_scan_device}
use bloom_os.Part.Device.Frame.{Outcome, part_scan_device_lem}

-- The header of a table of 4 entries of 128 bytes that start in sector 2.
abbrev header_bytes : List ℕ
header_bytes =
    chars "EFI PART"
    ++ (replicate 64 0 ++ ((2 ∷ replicate 7 0) ++ ((4 ∷ 0 ∷ 0 ∷ 0 ∷ []) ++ (128 ∷ 0 ∷ 0 ∷ 0 ∷ []))))

-- The first entry is unused, the second covers the sectors 8 and 9.
abbrev entry_bytes : List ℕ
entry_bytes =
    replicate 128 0
    ++ (replicate 16 7 ++ (replicate 16 0 ++ ((8 ∷ replicate 7 0) ++ (9 ∷ replicate 7 0))))

abbrev medium : ℕ → ℕ
medium a =
    if ltb a 512
    then (if a == 450 then 0xEE else 0)
    else if ltb a 1024
    then get_or header_bytes (a - 512) 0
    else get_or entry_bytes (a - 1024) 0

abbrev serve : ReadExFn
serve context lba count = some (slice medium (lba * 512) (count * 512))

abbrev hd0 : Device
hd0 = record {
  legacy = none;
  read = some serve;
  context = 0;
  sector_size = 512;
  max_count = 8;
  sector_count = 16;
  online = true;
  name = chars "hd0";
}

abbrev one : Table
one = hd0 ∷ []

abbrev fresh : Scan
fresh = record {
  parts = [];
  pages = 0;
  sector = 0;
  scanned = replicate 256 false;
  pmm = record { bitmap = 0 ∷ 0 ∷ []; bitmap_pages = 1; total_pages = 16; free_pages = 10 };
  log = [];
}

abbrev header : List ℕ
header = slice medium 512 512

header_read : read_native one 0 1 1 ≡ some header
unfolding read_native block_read_from read_device read_direct device_read slice
header_read = refl

header_valid : gpt_valid one 0 1 header ≡ true
unfolding gpt_valid slice text_eq
header_valid = refl

entry_sector_read :
    (k : ℕ)
    → k < 1
    → read_native one 0 ((2 + k) % 2 ^ 64) 1 ≡ some (slice medium (1024 + k * 512) 512)
unfolding read_native block_read_from read_device read_direct device_read slice
entry_sector_read zero h = refl
entry_sector_read (suc k) h = absurd (omega arith)

scan_gpt_flat_example :
    let pass = flat_entries one 0 1 medium 1024 128 4 0 0 fresh in
    scan_gpt one 0 1 fresh ≡ (pass.found, pass.scan)
unfolding slice
scan_gpt_flat_example =
    scan_gpt_flat one 0 1 medium 1024 header fresh header_read header_valid entry_sector_read

part_scan_device_example : Outcome one 0 fresh (part_scan_device one (pos 0) fresh)
part_scan_device_example = part_scan_device_lem one 0 fresh refl
