-- ===== src/Fat/Boot.antt =====
-- kernel/fat32.c, `FatBootSectorValid` and `FatMount`, with the structure `FAT_VOLUME`.
pub mod Mount
use Prim.Native.Nat.{bit_and}
use bloom_os.Prelude.{
  ℕ, ◌+◌, ◌-◌, ◌*◌, ◌/◌, ◌%◌, ◌^◌, Bool, true, false, not, ◌&&◌, ◌||◌, List, [], Option, none, some,
  ltb, ◌==◌, if◌then◌else◌,
}
use bloom_os.Prelude.Bytes.{byte_at, le16, le32}
use bloom_os.Pmm.{Pmm, alloc_page, free_page}
use bloom_os.Fat.Disk.{ReadFn}

-- The fields of `FAT_VOLUME` that `FatMount` sets once.
pub record Geometry : Type 0 where
  pub start_lba : ℕ
  pub sectors_per_cluster : ℕ
  pub fat_start : ℕ
  pub first_data : ℕ
  pub root_cluster : ℕ

-- `FAT_VOLUME`: the geometry, the addresses of the two buffers, the cached sector of the table and
-- the cursor. The device is the read function that the operations take.
pub record Volume : Type 0 where
  pub geometry : Geometry
  pub sector_buffer : ℕ
  pub fat_buffer_page : ℕ
  pub fat_buffer : List ℕ
  pub fat_buffer_lba : ℕ
  pub fat_buffer_valid : Bool
  pub cursor_first : ℕ
  pub cursor_index : ℕ
  pub cursor_cluster : ℕ

unfoldable pub fat_boot_sector_valid : List ℕ → Bool
fat_boot_sector_valid s =
    if not (byte_at s 510 == 0x55) || not (byte_at s 511 == 0xAA)
    then false
    else if not (le16 s 0x0B == 512)
        && (not (le16 s 0x0B == 1024) && (not (le16 s 0x0B == 2048) && not (le16 s 0x0B == 4096)))
    then false
    else if byte_at s 0x0D == 0
        || (not (bit_and (byte_at s 0x0D) (byte_at s 0x0D - 1) == 0) || ltb 128 (byte_at s 0x0D))
    then false
    else if le16 s 0x0E == 0 || (byte_at s 0x10 == 0 || ltb 2 (byte_at s 0x10))
    then false
    else if not (le16 s 0x11 == 0) || (le32 s 0x24 == 0 || ltb (le32 s 0x2C) 2)
    then false
    else true

abbrev scale : List ℕ → ℕ
scale s = le16 s 0x0B / 512

abbrev pub geometry_of : List ℕ → ℕ → Geometry
geometry_of s start = record {
  start_lba = start;
  sectors_per_cluster = byte_at s 0x0D * scale s % 2 ^ 16;
  fat_start = le16 s 0x0E * scale s % 2 ^ 32;
  first_data =
      (le16 s 0x0E * scale s % 2 ^ 32 + byte_at s 0x10 * le32 s 0x24 % 2 ^ 32 * scale s % 2 ^ 32)
      % 2 ^ 32;
  root_cluster = le32 s 0x2C;
}

-- `FatMount` after the buffers: the volume, or nothing if the sector cannot be read or is no valid
-- boot sector.
pub mount_sector : ℕ → ℕ → ℕ → Option (List ℕ) → Option Volume
mount_sector sector_buffer fat_buffer start none = none
mount_sector sector_buffer fat_buffer start (some s) =
    if not (fat_boot_sector_valid s)
    then none
    else some (record {
      geometry = geometry_of s start;
      sector_buffer = sector_buffer;
      fat_buffer_page = fat_buffer;
      fat_buffer = [];
      fat_buffer_lba = 0;
      fat_buffer_valid = false;
      cursor_first = 0;
      cursor_index = 0;
      cursor_cluster = 0;
    })

-- `if (Buffer) FreePage(Buffer)`.
pub free_if : ℕ → Pmm → Pmm
free_if addr s = if addr == 0 then s else free_page addr s

-- The end of `FatMount`: on a failure both buffers go back.
pub finish_mount : ℕ → ℕ → Pmm → Option Volume → Option Volume × Pmm
finish_mount a b s none = (none, free_page b (free_page a s))
finish_mount a b s (some v) = (some v, s)

unfoldable pub fat_mount : ReadFn → ℕ → Pmm → Option Volume × Pmm
unfolding mount_sector free_if finish_mount
fat_mount read start s =
    let (sector_buffer, s1) = alloc_page s in
    let (fat_buffer, s2) = alloc_page s1 in
    if sector_buffer == 0 || fat_buffer == 0
    then (none, free_if fat_buffer (free_if sector_buffer s2))
    else finish_mount sector_buffer fat_buffer s2
        (mount_sector sector_buffer fat_buffer start (read start 1))
