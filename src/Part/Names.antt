-- ===== src/Part/Names.antt =====
-- kernel/part.h and the texts of kernel/part.c: `PART_INFO`, `TextEq`, `MemEq`, `PartTypeName` and
-- `PartFsName`.
use bloom_os.Prelude.{ℕ, ◌+◌, Bool, true, ◌&&◌, ◌||◌, List, [], ◌∷◌, ◌==◌, if◌then◌else◌}
use bloom_os.Prelude.Bytes.{byte_at}
use bloom_os.Prelude.Text.{chars}

abbrev pub scheme_raw : ℕ
scheme_raw = 0

abbrev pub scheme_mbr : ℕ
scheme_mbr = 1

abbrev pub scheme_gpt : ℕ
scheme_gpt = 2

abbrev pub fs_unknown : ℕ
fs_unknown = 0

abbrev pub fs_fat32 : ℕ
fs_fat32 = 1

abbrev pub fs_fat16 : ℕ
fs_fat16 = 2

abbrev pub fs_ntfs : ℕ
fs_ntfs = 3

abbrev pub fs_exfat : ℕ
fs_exfat = 4

abbrev pub fs_bitlocker : ℕ
fs_bitlocker = 5

abbrev pub fs_ext : ℕ
fs_ext = 6

-- `PART_INFO`.
pub record Part : Type 0 where
  pub device : ℕ
  pub number : ℕ
  pub start_lba : ℕ
  pub sector_count : ℕ
  pub scheme : ℕ
  pub mbr_type : ℕ
  pub type_guid : List ℕ
  pub name : List ℕ
  pub fs : ℕ

-- The bytes from `at` on are those of a text.
unfoldable pub text_eq : List ℕ → ℕ → List ℕ → Bool
text_eq a at [] = true
text_eq a at (c ∷ cs) = byte_at a at == c && text_eq a (at + 1) cs

abbrev guid_efi : List ℕ
guid_efi =
    0x28 ∷ 0x73 ∷ 0x2A ∷ 0xC1 ∷ 0x1F ∷ 0xF8 ∷ 0xD2 ∷ 0x11 ∷ 0xBA ∷ 0x4B ∷ 0x00 ∷ 0xA0 ∷ 0xC9 ∷ 0x3E
    ∷ 0xC9 ∷ 0x3B ∷ []

abbrev guid_ms_data : List ℕ
guid_ms_data =
    0xA2 ∷ 0xA0 ∷ 0xD0 ∷ 0xEB ∷ 0xE5 ∷ 0xB9 ∷ 0x33 ∷ 0x44 ∷ 0x87 ∷ 0xC0 ∷ 0x68 ∷ 0xB6 ∷ 0xB7 ∷ 0x26
    ∷ 0x99 ∷ 0xC7 ∷ []

abbrev guid_ms_reserved : List ℕ
guid_ms_reserved =
    0x16 ∷ 0xE3 ∷ 0xC9 ∷ 0xE3 ∷ 0x5C ∷ 0x0B ∷ 0xB8 ∷ 0x4D ∷ 0x81 ∷ 0x7D ∷ 0xF9 ∷ 0x2D ∷ 0xF0 ∷ 0x02
    ∷ 0x15 ∷ 0xAE ∷ []

abbrev guid_win_re : List ℕ
guid_win_re =
    0xA4 ∷ 0xBB ∷ 0x94 ∷ 0xDE ∷ 0xD1 ∷ 0x06 ∷ 0x40 ∷ 0x4D ∷ 0xA1 ∷ 0x6A ∷ 0xBF ∷ 0xD5 ∷ 0x01 ∷ 0x79
    ∷ 0xD6 ∷ 0xAC ∷ []

abbrev guid_linux_fs : List ℕ
guid_linux_fs =
    0xAF ∷ 0x3D ∷ 0xC6 ∷ 0x0F ∷ 0x83 ∷ 0x84 ∷ 0x72 ∷ 0x47 ∷ 0x8E ∷ 0x79 ∷ 0x3D ∷ 0x69 ∷ 0xD8 ∷ 0x47
    ∷ 0x7D ∷ 0xE4 ∷ []

abbrev guid_linux_swap : List ℕ
guid_linux_swap =
    0x6D ∷ 0xFD ∷ 0x57 ∷ 0x06 ∷ 0xAB ∷ 0xA4 ∷ 0xC4 ∷ 0x43 ∷ 0x84 ∷ 0xE5 ∷ 0x09 ∷ 0x33 ∷ 0xC8 ∷ 0x4B
    ∷ 0x4F ∷ 0x4F ∷ []

abbrev mbr_name : ℕ → List ℕ
mbr_name kind =
    if kind == 0x01
    then chars "FAT12"
    else if kind == 0x04 || (kind == 0x06 || kind == 0x0E)
    then chars "FAT16"
    else if kind == 0x0B || kind == 0x0C
    then chars "FAT32"
    else if kind == 0x07
    then chars "NTFS/exFAT"
    else if kind == 0x82
    then chars "Linux swap"
    else if kind == 0x83
    then chars "Linux"
    else if kind == 0xEF
    then chars "EFI System"
    else chars "MBR partition"

-- `MemEq` on the 16 bytes of a GUID is `text_eq` with these bytes.
abbrev gpt_name : List ℕ → List ℕ
gpt_name guid =
    if text_eq guid 0 guid_efi
    then chars "EFI System"
    else if text_eq guid 0 guid_ms_data
    then chars "Microsoft basic data"
    else if text_eq guid 0 guid_ms_reserved
    then chars "Microsoft reserved"
    else if text_eq guid 0 guid_win_re
    then chars "Windows recovery"
    else if text_eq guid 0 guid_linux_fs
    then chars "Linux filesystem"
    else if text_eq guid 0 guid_linux_swap
    then chars "Linux swap"
    else chars "Unknown type"

pub part_type_name : Part → List ℕ
part_type_name p =
    if p.scheme == scheme_raw
    then chars "Whole disk"
    else if p.scheme == scheme_mbr
    then mbr_name p.mbr_type
    else gpt_name p.type_guid

pub part_fs_name : ℕ → List ℕ
part_fs_name fs =
    if fs == fs_fat32
    then chars "FAT32"
    else if fs == fs_fat16
    then chars "FAT12/16"
    else if fs == fs_ntfs
    then chars "NTFS"
    else if fs == fs_exfat
    then chars "exFAT"
    else if fs == fs_bitlocker
    then chars "BitLocker"
    else if fs == fs_ext
    then chars "ext"
    else chars "unknown"
