-- ===== src/Part/Device.antt =====
-- kernel/part.c, `PartScanDevice`, `PartCount` and `PartGet`.
pub mod Frame
use bloom_os.Prelude.{
  ℕ, ◌+◌, ◌/◌, Bool, true, false, not, ◌&&◌, ◌||◌, List, [], ◌∷◌, Option, none, some, leb, ◌==◌,
  if◌then◌else◌, get_or, set, get_elem?, length,
}
use bloom_os.Prelude.Bytes.{byte_at}
use bloom_os.Prelude.Int.{ℤ, pos, negsuc}
use bloom_os.Prelude.Text.{chars}
use bloom_os.Pmm.{alloc_page}
use bloom_os.Klog.{klog}
use bloom_os.Block.{
  Table, block_read_from, block_device_name, block_device_count, block_sector_size, block_size_512,
}
use bloom_os.Fat.Boot.{fat_boot_sector_valid}
use bloom_os.Part.{Scan, add_part, max_scanned}
use bloom_os.Part.Names.{Part, scheme_raw}
use bloom_os.Part.Gpt.{scan_gpt}
use bloom_os.Part.Mbr.{scan_mbr}

abbrev pub note : Table → ℕ → List ℕ → Scan → Scan
note t device text s = record s {
  log = klog text (klog (block_device_name t (pos device)) (klog (chars "PART: ") s.log));
}

module _ (t : Table) (device : ℕ) where
  -- A device without a partition table that is one volume.
  unfoldable pub add_whole : Scan → ℕ × Scan
  add_whole s =
      let (ok, s') =
        add_part t device 1 0 (block_size_512 t (pos device)) scheme_raw (λ (p : Part). p) s in
      if ok then (1, s') else (0, s')

  abbrev pub is_protective : List ℕ → Bool
  is_protective mbr =
      byte_at mbr 450 == 0xEE
      || (byte_at mbr 466 == 0xEE || (byte_at mbr 482 == 0xEE || byte_at mbr 498 == 0xEE))

  abbrev pub ratio_of : ℕ
  ratio_of = let ratio = block_sector_size t (pos device) / 512 in if ratio == 0 then 1 else ratio

  unfoldable pub note_empty : ℕ × Scan → ℕ × Scan
  note_empty (found, s) =
      if found == 0 then (found, note t device (chars " gpt header invalid\n") s) else (found, s)

  -- `PartScanDevice` on what the first sector holds.
  unfoldable pub scan_first : Option (List ℕ) → Scan → ℕ × Scan
  unfolding add_whole note_empty
  scan_first none s = (0, note t device (chars " sector 0 read failed\n") s)
  scan_first (some mbr) s =
      if fat_boot_sector_valid mbr
      then add_whole s
      else if not (byte_at mbr 510 == 0x55) || not (byte_at mbr 511 == 0xAA)
      then (0, note t device (chars " no partition table\n") s)
      else if is_protective mbr
      then note_empty (scan_gpt t device ratio_of s)
      else scan_mbr t device ratio_of mbr s

  -- The buffer for the sector, allocated once: whether there is one.
  unfoldable pub sector_for : Scan → Bool × Scan
  sector_for s =
      let (addr, pmm') = alloc_page s.pmm in
      if not (s.sector == 0)
      then (true, s)
      else if addr == 0
      then (false, record s { pmm = pmm' })
      else (true, record s { pmm = pmm'; sector = addr })

  abbrev pub mark_scanned : Scan → Scan
  mark_scanned s = record s { scanned = set s.scanned device true }

  unfoldable pub scan_new : Scan → ℕ × Scan
  unfolding sector_for scan_first
  scan_new s =
      let (ok, s') = sector_for s in
      if not ok then (0, s') else scan_first (block_read_from t (pos device) 0 1) (mark_scanned s')

unfoldable pub part_scan_device : Table → ℤ → Scan → ℕ × Scan
unfolding scan_new
part_scan_device t (negsuc _) s = (0, s)
part_scan_device t (pos device) s =
    if leb max_scanned device
      || (leb (block_device_count t) device || get_or s.scanned device false)
    then (0, s)
    else scan_new t device s

pub part_count : Scan → ℕ
part_count s = length s.parts

pub part_get : Scan → ℤ → Option Part
part_get s (negsuc _) = none
part_get s (pos i) = get_elem? s.parts i
