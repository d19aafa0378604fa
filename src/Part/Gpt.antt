-- ===== src/Part/Gpt.antt =====
-- kernel/part.c, `ScanGpt`: the entries of a GUID partition table, sector by sector.
pub mod Flat
pub mod Adds
use bloom_os.Prelude.{
  ℕ, zero, suc, ◌+◌, ◌-◌, ◌*◌, ◌/◌, ◌%◌, ◌^◌, Bool, true, false, not, ◌&&◌, ◌||◌, List, [], ◌∷◌,
  Option, none, some, ltb, leb, ◌==◌, if◌then◌else◌, take, drop,
}
use bloom_os.Prelude.Bytes.{byte_at, le32, le64}
use bloom_os.Prelude.Text.{chars}
use bloom_os.Block.{Table}
use bloom_os.Part.{Scan, read_native, add_part}
use bloom_os.Part.Names.{Part, text_eq, scheme_gpt}

abbrev pub max_gpt_entries : ℕ
max_gpt_entries = 16384

-- How a loop ends: the table of partitions is full, or the next round follows.
pub record Pass : Type 0 where
  pub full : Bool
  pub found : ℕ
  pub scan : Scan

abbrev is_zero : List ℕ → Bool
is_zero [] = true
is_zero (b ∷ bs) = b == 0 && is_zero bs

-- What an entry, given by its bytes, stands for: its first and last sector and its type, if it is
-- used and not the wrong way round.
unfoldable pub entry_range : List ℕ → Option (ℕ × ℕ × List ℕ)
entry_range entry =
    if is_zero (take 16 entry)
    then none
    else if ltb (le64 entry 40) (le64 entry 32)
    then none
    else some (le64 entry 32, le64 entry 40, take 16 entry)

abbrev pub with_guid : List ℕ → Part → Part
with_guid guid p = record p { type_guid = guid }

module _ (t : Table) (device ratio : ℕ) where
  -- A used entry with its number.
  unfoldable pub add_range : ℕ → Option (ℕ × ℕ × List ℕ) → ℕ → Scan → Pass
  add_range number none found s = record { full = false; found = found; scan = s }
  add_range number (some (first, last, guid)) found s =
      let (ok, s') =
        add_part t device number (first * ratio % 2 ^ 64)
          ((last - first + 1) % 2 ^ 64 * ratio % 2 ^ 64) scheme_gpt (with_guid guid) s in
      if ok
      then record { full = false; found = found + 1; scan = s' }
      else record { full = true; found = found; scan = s' }

  module _ (entry_count entry_size : ℕ) where
    -- The loop over the entries of a sector, with the rounds left, the entry and its index.
    pub gpt_entries : ℕ → ℕ → ℕ → List ℕ → ℕ → Scan → Pass
    gpt_entries zero e index table found s = record { full = false; found = found; scan = s }
    gpt_entries (suc n) e index table found s = elim (leb entry_count index) [
      | true ↦ record { full = false; found = found; scan = s }
      | false ↦
          let pass = add_range (index + 1) (entry_range (drop (e * entry_size) table)) found s in
          elim pass.full [
            | true ↦ pass
            | false ↦ gpt_entries n (e + 1) (index + 1) table pass.found pass.scan
          ]
    ]

    -- The loop over the sectors, with the rounds left and the sector.
    pub gpt_sectors : ℕ → ℕ → ℕ → ℕ → ℕ → Scan → Pass
    unfolding gpt_entries
    gpt_sectors zero i per_sector entries_lba found s = record {
      full = false;
      found = found;
      scan = s;
    }
    gpt_sectors (suc n) i per_sector entries_lba found s =
        elim (read_native t device ((entries_lba + i) % 2 ^ 64) ratio) [
          | none ↦ record { full = false; found = found; scan = s }
          | some table ↦
              let pass = gpt_entries per_sector 0 (i * per_sector) table found s in
              elim pass.full [
                | true ↦ pass
                | false ↦ gpt_sectors n (i + 1) per_sector entries_lba pass.found pass.scan
              ]
        ]

  -- The tests on the header.
  unfoldable pub gpt_valid : List ℕ → Bool
  gpt_valid h =
      text_eq h 0 (chars "EFI PART")
      && not (
          ltb (le32 h 84) 128
          || (ltb (ratio * 512) (le32 h 84)
              || (not (ratio * 512 % le32 h 84 == 0)
                  || (le32 h 80 == 0 || ltb max_gpt_entries (le32 h 80)))))

  unfoldable pub scan_header : Option (List ℕ) → Scan → ℕ × Scan
  unfolding gpt_valid gpt_sectors
  scan_header none s = (0, s)
  scan_header (some h) s =
      let per_sector = ratio * 512 / le32 h 84 in
      let pass =
        gpt_sectors (le32 h 80) (le32 h 84) ((le32 h 80 + per_sector - 1) / per_sector) 0 per_sector
          (le64 h 72) 0 s in
      if gpt_valid h then (pass.found, pass.scan) else (0, s)

  unfoldable pub scan_gpt : Scan → ℕ × Scan
  unfolding scan_header
  scan_gpt s = scan_header (read_native t device 1 ratio) s
