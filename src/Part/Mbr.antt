-- ===== src/Part/Mbr.antt =====
-- kernel/part.c, `ScanMbr`: the four entries of a boot record, and the chain of extended ones.
pub mod Adds
use bloom_os.Prelude.{
  ℕ, zero, suc, ◌+◌, ◌-◌, ◌*◌, ◌/◌, ◌%◌, ◌^◌, Bool, true, false, not, ◌&&◌, ◌||◌, List, [], ◌∷◌,
  Option, none, some, ltb, leb, ◌==◌, if◌then◌else◌, take, drop,
}
use bloom_os.Prelude.Bytes.{byte_at, le32}
use bloom_os.Block.{Table}
use bloom_os.Part.{Scan, read_native, add_part}
use bloom_os.Part.Names.{Part, scheme_mbr}

abbrev pub max_ebr_chain : ℕ
max_ebr_chain = 4096

-- `Logical`, `Found` and the state after a loop, and whether the table of partitions is full.
pub record Pass : Type 0 where
  pub full : Bool
  pub logical : ℕ
  pub found : ℕ
  pub scan : Scan

abbrev pub is_extended : ℕ → Bool
is_extended kind = kind == 0x05 || (kind == 0x0F || kind == 0x85)

abbrev with_type : ℕ → Part → Part
with_type kind p = record p { mbr_type = kind }

abbrev pub after : ℕ → Pass → Bool × Scan → Pass
after logical pass (true, s) = record {
  full = false;
  logical = logical;
  found = pass.found + 1;
  scan = s;
}
after logical pass (false, s) = record {
  full = true;
  logical = logical;
  found = pass.found;
  scan = s;
}

module _ (t : Table) (device ratio : ℕ) where
  -- An entry whose type and count are not zero, with the number that it gets.
  unfoldable pub add_entry : ℕ → ℕ → ℕ → ℕ → ℕ → Pass → Pass
  add_entry number logical kind start count pass = after logical pass (
      add_part t device number (start * ratio % 2 ^ 64) (count * ratio) scheme_mbr (with_type kind)
        pass.scan)

  -- The logical partition of an extended record at `ebr`; its start is a 64-bit sum.
  unfoldable pub add_logical : ℕ → List ℕ → Pass → Pass
  unfolding add_entry
  add_logical ebr s pass =
      if byte_at s 450 == 0 || le32 s 458 == 0
      then pass
      else add_entry pass.logical (pass.logical + 1) (byte_at s 450) (ebr + le32 s 454) (le32 s 458)
          pass

  -- A sector that ends in the boot record's mark.
  abbrev pub is_record : Option (List ℕ) → Option (List ℕ)
  is_record none = none
  is_record (some s) = if byte_at s 510 == 0x55 && byte_at s 511 == 0xAA then some s else none

  -- The loop over the extended records, with the rounds left.
  pub scan_chain : ℕ → ℕ → ℕ → Pass → Pass
  unfolding add_logical
  scan_chain zero ext_start ebr pass = pass
  scan_chain (suc n) ext_start ebr pass = elim (is_record (read_native t device ebr ratio)) [
    | none ↦ pass
    | some s ↦
        let pass' = add_logical ebr s pass in
        let next = le32 s 470 in
        elim (pass'.full || (byte_at s 466 == 0 || (next == 0 || leb (ext_start + next) ebr))) [
          | true ↦ pass'
          | false ↦ scan_chain n ext_start (ext_start + next) pass'
        ]
  ]

  -- The loop over the four entries of the record `mbr`, with the rounds left and the entry.
  pub mbr_entries : ℕ → ℕ → List ℕ → Pass → Pass
  unfolding add_entry scan_chain
  mbr_entries zero i mbr pass = pass
  mbr_entries (suc n) i mbr pass =
      let kind = byte_at mbr (446 + i * 16 + 4) in
      let start = le32 mbr (446 + i * 16 + 8) in
      let count = le32 mbr (446 + i * 16 + 12) in
      let pass' =
        if kind == 0 || count == 0
        then pass
        else if is_extended kind
        then scan_chain max_ebr_chain start start pass
        else add_entry (i + 1) pass.logical kind start count pass in
      elim pass'.full [ true ↦ pass' | false ↦ mbr_entries n (i + 1) mbr pass' ]

  unfoldable pub scan_mbr : List ℕ → Scan → ℕ × Scan
  unfolding mbr_entries
  scan_mbr mbr s =
      let pass = mbr_entries 4 0 mbr (record { full = false; logical = 5; found = 0; scan = s }) in
      (pass.found, pass.scan)
