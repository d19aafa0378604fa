-- ===== src/Fat/File.antt =====
-- kernel/fat32.c, `FatReadAt`: reading a part of a file through the volume's cursor.
pub mod Content
pub mod Seek
pub mod Copy
pub mod Exact
use Prim.Native.Nat.{bit_and}
use bloom_os.Prelude.{
  ℕ, zero, suc, ◌+◌, ◌-◌, ◌*◌, ◌/◌, ◌%◌, ◌^◌, Bool, true, false, not, ◌&&◌, ◌||◌, List, [], ◌++◌,
  Option, none, some, ltb, leb, ◌==◌, if◌then◌else◌, take, drop, length,
}
use bloom_os.Fat.Disk.{ReadFn}
use bloom_os.Fat.Boot.{Geometry, Volume}
use bloom_os.Fat.Table.{cluster_lba, cluster_valid, next_cluster}

-- `FAT_ENTRY`; the name is the characters before the terminating zero.
pub record Entry : Type 0 where
  pub name : List ℕ
  pub attr : ℕ
  pub size : ℕ
  pub cluster : ℕ

unfoldable pub is_directory : Entry → Bool
is_directory e = not (bit_and e.attr 0x10 == 0)

abbrev pub cluster_bytes : Geometry → ℕ
cluster_bytes g = g.sectors_per_cluster * 512

-- The loop that follows the chain to the wanted cluster, with the rounds left; nothing if the chain
-- ends before it.
pub seek : ReadFn → ℕ → ℕ → Volume → Option ℕ × Volume
seek read zero cluster v = (some cluster, v)
seek read (suc n) cluster v =
    let (next, v') = next_cluster read v cluster in
    elim (cluster_valid next) [ true ↦ seek read n next v' | false ↦ (none, v') ]

-- Where the copying loop stops: the bytes put into the buffer, the cursor and the volume.
pub record Stop : Type 0 where
  pub bytes : List ℕ
  pub index : ℕ
  pub cluster : ℕ
  pub volume : Volume

abbrev pub prepend : List ℕ → Stop → Stop
prepend bytes s = record s { bytes = bytes ++ s.bytes }

abbrev pub stop : ℕ → ℕ → Volume → Stop
stop index cluster v = record { bytes = []; index = index; cluster = cluster; volume = v }

-- The variables of a round of the copying loop at the place `pos` in the file.
abbrev pub in_cluster : Geometry → ℕ → ℕ
in_cluster g pos = pos % cluster_bytes g

abbrev pub chunk_of : Geometry → ℕ → ℕ
chunk_of g pos =
    if ltb 8 (g.sectors_per_cluster - in_cluster g pos / 512)
    then 8
    else g.sectors_per_cluster - in_cluster g pos / 512

abbrev pub take_of : Geometry → ℕ → ℕ → ℕ
take_of g pos left =
    if ltb left (chunk_of g pos * 512 - in_cluster g pos % 512)
    then left
    else chunk_of g pos * 512 - in_cluster g pos % 512

-- The bytes of a round, out of the sectors that were read.
abbrev pub piece : Geometry → ℕ → ℕ → List ℕ → List ℕ
piece g pos left buffer = take (take_of g pos left) (drop (in_cluster g pos % 512) buffer)

module _ (read : ReadFn) (offset length : ℕ) where
  -- `while (Done < Length)`, on fuel. `Offset + Done` is a 32-bit sum.
  pub copy : ℕ → ℕ → ℕ → ℕ → Volume → Stop
  copy zero finished index cluster v = stop index cluster v
  copy (suc fuel) finished index cluster v = elim (ltb finished length) [
    | false ↦ stop index cluster v
    | true ↦
        let g = v.geometry in
        let pos = (offset + finished) % 2 ^ 32 in
        let taken = take_of g pos (length - finished) in
        elim (read ((cluster_lba g cluster + in_cluster g pos / 512) % 2 ^ 64) (chunk_of g pos)) [
          | none ↦ stop index cluster v
          | some buffer ↦
              prepend (piece g pos (length - finished) buffer)
                (elim (ltb (finished + taken) length
                  && (offset + (finished + taken)) % 2 ^ 32 % cluster_bytes g == 0) [
                    | false ↦ copy fuel (finished + taken) index cluster v
                    | true ↦
                        let (next, v') = next_cluster read v cluster in
                        elim (cluster_valid next) [
                          | false ↦ stop index cluster v'
                          | true ↦ copy fuel (finished + taken) (index + 1) next v'
                        ]
                  ])
        ]
  ]

-- The end of `FatReadAt`: the cursor is left where the loop stopped.
abbrev pub leave_cursor : Entry → Stop → List ℕ × Volume
leave_cursor file s = (
  s.bytes,
  record (s.volume) {
    cursor_first = file.cluster;
    cursor_index = s.index;
    cursor_cluster = s.cluster;
  },
)

pub copy_out : ReadFn → Entry → ℕ → ℕ → ℕ → Option ℕ × Volume → List ℕ × Volume
copy_out read file offset length index (none, v) = ([], v)
copy_out read file offset length index (some cluster, v) =
    leave_cursor file (copy read offset length (suc length) 0 index cluster v)

-- `FatReadAt` behind its tests, with the length already cut.
pub read_part : ReadFn → Volume → Entry → ℕ → ℕ → List ℕ × Volume
unfolding copy_out
read_part read v file offset length =
    let want = offset / cluster_bytes v.geometry in
    if v.cursor_first == file.cluster && (leb v.cursor_index want && cluster_valid v.cursor_cluster)
    then copy_out read file offset length want
        (seek read (want - v.cursor_index) v.cursor_cluster v)
    else copy_out read file offset length want (seek read want file.cluster v)

-- The bytes read, whose number is what the function returns.
unfoldable pub fat_read_at : ReadFn → Volume → Entry → ℕ → ℕ → List ℕ × Volume
unfolding read_part seek copy
fat_read_at read v file offset length =
    if is_directory file || (leb file.size offset || not (cluster_valid file.cluster))
    then ([], v)
    else read_part read v file offset
        (if ltb (file.size - offset) length then file.size - offset else length)
