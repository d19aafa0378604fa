-- ===== src/Fat/Dir.antt =====
-- kernel/fat32.c, `FatListDir` and `FatLookup`: the entries of a directory with their long or short
-- names, handed to a callback until it says stop. The callback's `Context` is a state that it takes
-- and returns.
pub mod Names
pub mod Lookup
pub mod Same
pub mod Beside
pub mod First
use Prim.Native.Nat.{bit_and}
use bloom_os.Prelude.{
  ℕ, zero, suc, ◌+◌, ◌-◌, ◌*◌, ◌/◌, ◌%◌, ◌^◌, Bool, true, false, not, ◌&&◌, ◌||◌, List, [], ◌∷◌,
  ◌++◌, Option, none, some, ltb, leb, ◌==◌, if◌then◌else◌, take, drop, length, get_or, set,
  replicate,
}
use bloom_os.Prelude.Bytes.{byte_at, le16, le32}
use bloom_os.Fat.Disk.{ReadFn}
use bloom_os.Fat.Boot.{Geometry, Volume}
use bloom_os.Fat.Table.{cluster_lba, cluster_valid, next_cluster}
use bloom_os.Fat.File.{Entry}
use bloom_os.Fat.Dir.Names.{short_checksum, build_short_name, names_equal}

abbrev pub max_lfn_entries : ℕ
max_lfn_entries = 20

abbrev pub fat_name_max : ℕ
fat_name_max = 256

abbrev pub max_chain : ℕ
max_chain = 1048576

-- `LfnValid`, `LfnSum`, `LfnCount` and the array `Lfn` of 260 UTF-16 units.
pub record LongName : Type 0 where
  pub valid : Bool
  pub sum : ℕ
  pub count : ℕ
  pub units : List ℕ

abbrev pub drop_long_name : LongName → LongName
drop_long_name l = record l { valid = false }

-- `LfnOffsets`.
abbrev pub lfn_offsets : List ℕ
lfn_offsets = 1 ∷ 3 ∷ 5 ∷ 7 ∷ 9 ∷ 14 ∷ 16 ∷ 18 ∷ 20 ∷ 22 ∷ 24 ∷ 28 ∷ 30 ∷ []

-- The loop over `k`: the 13 units of a record, written from the place `at` on.
pub put_units : List ℕ → ℕ → List ℕ → List ℕ → List ℕ
put_units [] at e units = units
put_units (o ∷ os) at e units = put_units os (at + 1) e (set units at (le16 e o))

-- A record of a long name.
pub long_name_record : List ℕ → LongName → LongName
unfolding put_units
long_name_record e l =
    let seq = byte_at e 0 % 0x20 in
    let fresh : LongName = record {
      valid = true;
      sum = byte_at e 13;
      count = seq;
      units = replicate (max_lfn_entries * 13) 0xFFFF;
    } in
    let l' = if not (bit_and (byte_at e 0) 0x40 == 0) then fresh else l in
    if l'.valid && (leb 1 seq && (leb seq max_lfn_entries && byte_at e 13 == l'.sum))
    then record l' { units = put_units lfn_offsets ((seq - 1) * 13) e l'.units }
    else drop_long_name l'

-- The loop that writes the long name: the rounds left, the place in `Lfn` and in the name.
pub long_name_from : ℕ → ℕ → List ℕ → List ℕ
long_name_from zero i units = []
long_name_from (suc n) i units =
    let rest = long_name_from n (i + 1) units in
    let u = get_or units i 0 in
    if not (ltb i (fat_name_max - 1))
    then []
    else if u == 0x0000 || u == 0xFFFF
    then []
    else (if ltb u 0x80 then u else b'?') ∷ rest

pub long_name : LongName → List ℕ
unfolding long_name_from
long_name l =
    long_name_from
      (if ltb (max_lfn_entries * 13) (l.count * 13) then max_lfn_entries * 13 else l.count * 13) 0
      l.units

-- The name of a short entry, by the long name in front of it where its checksum fits.
pub entry_name : List ℕ → LongName → List ℕ
unfolding long_name
entry_name e l = if l.valid && short_checksum e == l.sum then long_name l else build_short_name e

pub entry_of : List ℕ → LongName → Entry
unfolding entry_name
entry_of e l = record {
  name = entry_name e l;
  attr = byte_at e 11;
  size = le32 e 28;
  cluster = le16 e 20 * 2 ^ 16 + le16 e 26;
}

pub is_dots : List ℕ → Bool
is_dots (a ∷ []) = a == b'.'
is_dots (a ∷ b ∷ []) = a == b'.' && b == b'.'
is_dots _ = false

-- What a directory record is to the loop: the end, nothing to show, or an entry.
pub data Shown : Type 0 where
  the_end : Shown
  hidden : LongName → Shown
  shown : LongName → Entry → Shown

pub show_record : List ℕ → LongName → Shown
unfolding long_name_record entry_of is_dots
show_record e l =
    if byte_at e 0 == 0x00
    then the_end
    else if byte_at e 0 == 0xE5
    then hidden (drop_long_name l)
    else if byte_at e 11 == 0x0F
    then hidden (long_name_record e l)
    else if not (bit_and (byte_at e 11) 0x08 == 0)
    then hidden (drop_long_name l)
    else if is_dots (entry_name e l)
    then hidden (drop_long_name l)
    else shown (drop_long_name l) (entry_of e l)

-- How a loop over records ends: with the function's result, or going on.
pub data Turn (C : Type 0) : Type 0 where
  returned : Bool → C → Turn C
  goes_on : LongName → C → Turn C

abbrev pub Callback : Type 0 → Type 0
Callback C = Entry → C → Bool × C

module _ {C : Type 0} (callback : Callback C) where
  -- The loop over the 16 records of a sector, with the rounds left and the record.
  pub list_records : ℕ → ℕ → List ℕ → LongName → C → Turn C
  unfolding show_record
  list_records zero e buffer l c = goes_on l c
  list_records (suc n) e buffer l c = elim (show_record (take 32 (drop (e * 32) buffer)) l) [
    | the_end ↦ returned true c
    | hidden l' ↦ list_records n (e + 1) buffer l' c
    | shown l' entry ↦
        let (stop, c') = callback entry c in
        elim stop [ true ↦ returned true c' | false ↦ list_records n (e + 1) buffer l' c' ]
  ]

  module _ (read : ReadFn) where
    -- The loop over the sectors of a cluster.
    pub list_sectors : ℕ → ℕ → ℕ → LongName → C → Turn C
    unfolding list_records
    list_sectors zero s lba l c = goes_on l c
    list_sectors (suc n) s lba l c = elim (read ((lba + s) % 2 ^ 64) 1) [
      | none ↦ returned false c
      | some buffer ↦ elim (list_records 16 0 buffer l c) [
        | returned r c' ↦ returned r c'
        | goes_on l' c' ↦ list_sectors n (s + 1) lba l' c'
      ]
    ]

    -- The loop over the clusters, with the rounds that `Guard` leaves.
    pub list_clusters : ℕ → ℕ → Volume → LongName → C → Bool × C × Volume
    unfolding list_sectors
    list_clusters zero cluster v l c = (true, c, v)
    list_clusters (suc guard) cluster v l c = elim (cluster_valid cluster) [
      | false ↦ (true, c, v)
      | true ↦
          elim (list_sectors v.geometry.sectors_per_cluster 0 (cluster_lba v.geometry cluster) l
            c) [
              | returned r c' ↦ (r, c', v)
              | goes_on l' c' ↦
                  let (next, v') = next_cluster read v cluster in list_clusters guard next v' l' c'
            ]
    ]

    -- `units` is what the static array `Lfn` holds from the last call.
    pub fat_list_dir : List ℕ → ℕ → Volume → C → Bool × C × Volume
    unfolding list_clusters
    fat_list_dir units dir_cluster v c =
        list_clusters max_chain dir_cluster v
          (record { valid = false; sum = 0; count = 0; units = units }) c

-- `LookupCallback`; the context is the entry found.
pub lookup_callback : List ℕ → Callback (Option Entry)
lookup_callback want entry c =
    if names_equal entry.name want then (true, some entry) else (false, c)

pub fat_lookup : ReadFn → List ℕ → Volume → ℕ → List ℕ → Option Entry × Volume
unfolding fat_list_dir lookup_callback
fat_lookup read units v dir_cluster name =
    let (_, found, v') = fat_list_dir (lookup_callback name) read units dir_cluster v none in
    (found, v')
