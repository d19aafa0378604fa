-- ===== src/Part.antt =====
-- kernel/part.c: the table of partitions. The static variables are the record `Scan`, with the page
-- allocator and the log that the code calls; the table is a list, in pages of 51 entries that are
-- allocated one after the other. Blocks are read by `BlockReadFrom` on the table of devices.
pub mod Names
pub mod Adds
pub mod Gpt
pub mod Mbr
pub mod Device
mod Tests
use bloom_os.Prelude.{
  ℕ, zero, suc, ◌+◌, ◌-◌, ◌*◌, ◌/◌, ◌%◌, ◌^◌, Bool, true, false, not, ◌&&◌, ◌||◌, List, [], ◌∷◌,
  ◌++◌, Option, none, some, ltb, leb, ◌==◌, if◌then◌else◌, take, length, replicate,
}
use bloom_os.Prelude.Bytes.{byte_at, le64}
use bloom_os.Prelude.Int.{ℤ, pos, negsuc}
use bloom_os.Prelude.Text.{chars}
use bloom_os.Pmm.{Pmm, alloc_page}
use bloom_os.Klog.{klog, klog_uint}
use bloom_os.Block.{Table, block_read_from, block_device_name}
use bloom_os.Fat.Boot.{fat_boot_sector_valid}
use bloom_os.Part.Names.{
  Part, part_type_name, part_fs_name, text_eq, fs_unknown, fs_fat32, fs_fat16, fs_ntfs, fs_exfat,
  fs_bitlocker, fs_ext,
}

-- `PAGE_BYTES / sizeof(PART_INFO)`: an entry takes 80 bytes.
abbrev pub parts_per_page : ℕ
parts_per_page = 51

abbrev pub max_part_pages : ℕ
max_part_pages = 64

abbrev pub max_scanned : ℕ
max_scanned = 256

-- `PartPages` and `PartTotal` are the list of entries and the number of pages; `sector` is the
-- address of the buffer, 0 before it is allocated.
pub record Scan : Type 0 where
  pub parts : List Part
  pub pages : ℕ
  pub sector : ℕ
  pub scanned : List Bool
  pub pmm : Pmm
  pub log : List ℕ

module _ (t : Table) (device : ℕ) where
  -- `ReadNative`: a native sector, `ratio` sectors of 512 bytes.
  unfoldable pub read_native : ℕ → ℕ → Option (List ℕ)
  read_native native_lba ratio = block_read_from t (pos device) (native_lba * ratio % 2 ^ 64) ratio

  -- The last tests of `ProbeFs`, on the first sector and on the third.
  unfoldable pub probe_ext : Option (List ℕ) → ℕ
  probe_ext none = fs_unknown
  probe_ext (some s) = if byte_at s 56 == 0x53 && byte_at s 57 == 0xEF then fs_ext else fs_unknown

  unfoldable pub probe_sector : ℕ → Option (List ℕ) → ℕ
  unfolding text_eq probe_ext
  probe_sector start none = fs_unknown
  probe_sector start (some s) =
      if text_eq s 3 (chars "NTFS    ")
      then fs_ntfs
      else if text_eq s 3 (chars "EXFAT   ")
      then fs_exfat
      else if text_eq s 3 (chars "-FVE-FS-")
      then fs_bitlocker
      else if fat_boot_sector_valid s
      then fs_fat32
      else if byte_at s 510 == 0x55
          && (byte_at s 511 == 0xAA
              && (text_eq s 54 (chars "FAT16   ")
                  || (text_eq s 54 (chars "FAT12   ") || text_eq s 54 (chars "FAT     "))))
      then fs_fat16
      else probe_ext (block_read_from t (pos device) ((start + 2) % 2 ^ 64) 1)

  unfoldable pub probe_fs : ℕ → ℕ
  unfolding probe_sector
  probe_fs start = probe_sector start (block_read_from t (pos device) start 1)

-- The digits of a number, at most 7 of them, the last ones first in `Digits`.
unfoldable pub number_from : ℕ → ℕ → List ℕ → List ℕ
number_from zero value text = text
number_from (suc rounds) value text =
    let rest = number_from rounds (value / 10) ((b'0' + value % 10) ∷ text) in
    if ltb 0 (value / 10) then rest else (b'0' + value % 10) ∷ text

unfoldable pub make_name : Table → ℕ → ℕ → List ℕ
unfolding number_from
make_name t device number =
    take 16 (block_device_name t (pos device)) ++ (b'p' ∷ number_from 7 number [])

-- The entry that `AddPart` fills in.
unfoldable pub new_part : Table → ℕ → ℕ → ℕ → ℕ → ℕ → Part
unfolding make_name probe_fs
new_part t device number start count scheme = record {
  device = device;
  number = number;
  start_lba = start;
  sector_count = count;
  scheme = scheme;
  mbr_type = 0;
  type_guid = replicate 16 0;
  name = make_name t device number;
  fs = probe_fs t device start;
}

-- The page for the next entry: whether there is one.
unfoldable pub page_for : Scan → Bool × Scan
page_for s =
    let page = length s.parts / parts_per_page in
    let (addr, pmm') = alloc_page s.pmm in
    if leb max_part_pages page
    then (false, s)
    else if ltb page s.pages
    then (true, s)
    else if addr == 0
    then (false, record s { pmm = pmm' })
    else (true, record s { pmm = pmm'; pages = s.pages + 1 })

unfoldable pub log_part : Part → List ℕ → List ℕ
log_part p log =
    let l1 = klog (chars " start ") (klog p.name (klog (chars "PART: ") log)) in
    let l2 = klog (chars " sectors ") (klog_uint p.start_lba l1) in
    let l3 = klog (chars " type ") (klog_uint p.sector_count l2) in
    let l4 = klog (chars " fs ") (klog (part_type_name p) l3) in
    klog (10 ∷ []) (klog (part_fs_name p.fs) l4)

-- `AddPart`, and what each caller then does with the new entry: `edit` sets its type, and it is
-- logged.
unfoldable pub add_part : Table → ℕ → ℕ → ℕ → ℕ → ℕ → (Part → Part) → Scan → Bool × Scan
unfolding page_for new_part log_part
add_part t device number start count scheme edit s =
    let (room, s') = page_for s in
    let p = edit (new_part t device number start count scheme) in
    if room
    then (true, record s' { parts = s'.parts ++ (p ∷ []); log = log_part p s'.log })
    else (false, s')
