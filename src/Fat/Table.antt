-- ===== src/Fat/Table.antt =====
-- kernel/fat32.c, `ClusterLba`, `NextCluster` and `ClusterValid`.
pub mod Chain
use bloom_os.Prelude.{
  ℕ, ◌+◌, ◌-◌, ◌*◌, ◌/◌, ◌%◌, ◌^◌, Bool, true, false, ◌&&◌, List, [], Option, none, some, ltb, leb,
  ◌==◌, if◌then◌else◌,
}
use bloom_os.Prelude.Bytes.{le32}
use bloom_os.Fat.Disk.{ReadFn}
use bloom_os.Fat.Boot.{Geometry, Volume}

abbrev pub fat_eoc_min : ℕ
fat_eoc_min = 0x0FFF_FFF8

-- `Cluster - 2` is 32-bit, the rest 64-bit.
unfoldable pub cluster_lba : Geometry → ℕ → ℕ
cluster_lba g cluster =
    (g.start_lba + g.first_data + (cluster + 2 ^ 32 - 2) % 2 ^ 32 * g.sectors_per_cluster) % 2 ^ 64

unfoldable pub cluster_valid : ℕ → Bool
cluster_valid cluster = leb 2 cluster && ltb cluster fat_eoc_min

unfoldable pub entry_offset : ℕ → ℕ
entry_offset cluster = cluster * 4 % 2 ^ 32

unfoldable pub entry_lba : Geometry → ℕ → ℕ
unfolding entry_offset
entry_lba g cluster = (g.start_lba + g.fat_start + entry_offset cluster / 512) % 2 ^ 64

-- `& 0x0FFFFFFF` keeps the low 28 bits.
unfoldable pub entry_in : List ℕ → ℕ → ℕ
unfolding entry_offset
entry_in buffer cluster = le32 buffer (entry_offset cluster % 512) % 2 ^ 28

-- `NextCluster` once the sector has been asked for. `fat_buffer` is what is known to be in the page: after
-- a read that fails, which may have overwritten a part of it, nothing is.
pub fetched : Volume → ℕ → Option (List ℕ) → ℕ × Volume
fetched v cluster none = (fat_eoc_min, record v { fat_buffer = []; fat_buffer_valid = false })
fetched v cluster (some buffer) = (
  entry_in buffer cluster,
  record v {
    fat_buffer = buffer;
    fat_buffer_lba = entry_lba v.geometry cluster;
    fat_buffer_valid = true;
  },
)

unfoldable pub next_cluster : ReadFn → Volume → ℕ → ℕ × Volume
unfolding fetched
next_cluster read v cluster =
    if v.fat_buffer_valid && v.fat_buffer_lba == entry_lba v.geometry cluster
    then (entry_in v.fat_buffer cluster, v)
    else fetched v cluster (read (entry_lba v.geometry cluster) 1)
