-- ===== src/Fat/Table/Chain.antt =====
-- kernel/fat32.c, `NextCluster`: the cached sector makes no difference, and the chain of a file.
use bloom_os.Prelude.{
  ℕ, zero, suc, ◌+◌, ◌*◌, ◌/◌, ◌%◌, ◌^◌, ◌≡◌, ◌∙◌, ap, refl, true, ◌&&◌, none, some, ◌==◌, arith,
  Bool-cases, Option-cases, List, Option, inl, inr,
}
use bloom_os.Prelude.Bytes.{byte_at, le32}
use bloom_os.Fat.Disk.{ReadFn}
use bloom_os.Fat.Boot.{Geometry, Volume}
use bloom_os.Fat.Table.{
  fat_eoc_min, entry_offset, entry_lba, entry_in, next_cluster, fetched, cluster_valid,
}

-- The entry of the table for a cluster, read from the device; the end mark if that fails.
unfoldable pub fat_entry : ReadFn → Geometry → ℕ → ℕ
fat_entry read g cluster = elim (read (entry_lba g cluster) 1) [
  | none ↦ fat_eoc_min
  | some b ↦ entry_in b cluster
]

-- The `k`-th cluster of a chain.
unfoldable pub chain : ReadFn → Geometry → ℕ → ℕ → ℕ
chain read g first zero = first
chain read g first (suc k) = fat_entry read g (chain read g first k)

pub chain-zero : (read : ReadFn) (g : Geometry) (first : ℕ) → chain read g first 0 ≡ first
unfolding chain
chain-zero read g first = refl

-- The cached sector is the one on the device, and the cursor stands on its chain.
pub record IsCoherent (read : ReadFn) (v : Volume) : Type 0 where
  pub cached : v.fat_buffer_valid ≡ true → read v.fat_buffer_lba 1 ≡ some v.fat_buffer
  pub cursor :
      cluster_valid v.cursor_cluster ≡ true
      → v.cursor_cluster ≡ chain read v.geometry v.cursor_first v.cursor_index

-- `NextCluster` returns the entry that a fresh read of the table gives.
pub next_cluster-fat_entry :
    (read : ReadFn) (v : Volume) (cluster : ℕ)
    → IsCoherent read v
    → ((next_cluster read v cluster).0 ≡ fat_entry read v.geometry cluster)
      × ((next_cluster read v cluster).1.geometry ≡ v.geometry)
      × IsCoherent read (next_cluster read v cluster).1
unfolding next_cluster fat_entry fetched
next_cluster-fat_entry read v cluster h =
    elim (Bool-cases (v.fat_buffer_valid && v.fat_buffer_lba == entry_lba v.geometry cluster)) [
      | inl hit ↦
          rw hit
            (ground (arith, hit, h.cached), refl, record { cached = h.cached; cursor = h.cursor })
      | inr miss ↦ elim (Option-cases (read (entry_lba v.geometry cluster) 1)) [
        | inl fails ↦
            rw (miss, fails)
              (ground (arith, fails), refl, record { cached = λ e. cc; cursor = h.cursor })
        | inr (b, reads) ↦
            rw (miss, reads)
              (ground (arith, reads), refl, record { cached = λ _. reads; cursor = h.cursor })
      ]
    ]

-- The entry in its sector, if that can be read.
abbrev entry_of_sector : ℕ → Option (List ℕ) → ℕ
entry_of_sector cluster none = 0x0FFF_FFF8
entry_of_sector cluster (some bytes) =
    let place = 4 * (cluster % 128) in
    (byte_at bytes place
      + 256 * byte_at bytes (place + 1)
      + 65536 * byte_at bytes (place + 2)
      + 16777216 * byte_at bytes (place + 3))
    % 268435456

-- The entry of a cluster as the table lays it out on the device: 128 entries a sector from the start of
-- the table on, 4 bytes each, the lowest first, of which the low 28 bits count; the sum of sectors is a
-- 64-bit word, the offset into the table in bytes a 32-bit one. Where the sector cannot be read, the end
-- mark.
abbrev pub table_entry : ReadFn → Geometry → ℕ → ℕ
table_entry read g cluster =
    let sector = (g.start_lba + g.fat_start + cluster % 1073741824 / 128) % 18446744073709551616 in
    entry_of_sector cluster (read sector 1)

le32_sum :
    (bytes : List ℕ) (at : ℕ)
    → le32 bytes at % 2 ^ 28
      ≡ (byte_at bytes at
          + 256 * byte_at bytes (at + 1)
          + 65536 * byte_at bytes (at + 2)
          + 16777216 * byte_at bytes (at + 3))
        % 268435456
le32_sum bytes at = let next : at + 2 + 1 ≡ at + 3 = omega arith in rw next (omega arith)

entry_lba_lem :
    (g : Geometry) (cluster : ℕ)
    → entry_lba g cluster
      ≡ (g.start_lba + g.fat_start + cluster % 1073741824 / 128) % 18446744073709551616
unfolding entry_lba entry_offset
entry_lba_lem g cluster =
    let sector : cluster * 4 % 2 ^ 32 / 512 ≡ cluster % 1073741824 / 128 = omega arith in
    ap (λ s. (g.start_lba + g.fat_start + s) % 2 ^ 64) sector

entry_in_lem :
    (bytes : List ℕ) (cluster : ℕ) → entry_in bytes cluster ≡ entry_of_sector cluster (some bytes)
unfolding entry_in entry_offset
entry_in_lem bytes cluster =
    let place : cluster * 4 % 2 ^ 32 % 512 ≡ 4 * (cluster % 128) = omega arith in
    ap (λ at. le32 bytes at % 2 ^ 28) place ∙ le32_sum bytes (4 * (cluster % 128))

fat_entry-table_entry :
    (read : ReadFn) (g : Geometry) (cluster : ℕ)
    → fat_entry read g cluster ≡ table_entry read g cluster
unfolding fat_entry
fat_entry-table_entry read g cluster = elim (Option-cases (read (entry_lba g cluster) 1)) [
  | inl e ↦ ground (arith, e, entry_lba_lem g cluster)
  | inr (bytes, e) ↦ ground (arith, e, entry_lba_lem g cluster, entry_in_lem bytes cluster)
]

-- `NextCluster` returns the entry of the cluster as the table on the device has it, the low 28 bits of
-- the 4 bytes at its place or the end mark where their sector cannot be read, whatever sector is
-- cached before; it keeps the geometry of the volume, and it keeps it coherent, also where the read
-- fails, after which nothing is known of the buffer.
pub next_cluster_lem :
    (read : ReadFn) (v : Volume) (cluster : ℕ)
    → IsCoherent read v
    → ((next_cluster read v cluster).0 ≡ table_entry read v.geometry cluster)
      × ((next_cluster read v cluster).1.geometry ≡ v.geometry)
      × IsCoherent read (next_cluster read v cluster).1
next_cluster_lem read v cluster h =
    let (entry, same, coherent) = next_cluster-fat_entry read v cluster h in
    (entry ∙ fat_entry-table_entry read v.geometry cluster, same, coherent)

-- The step from one cluster of a chain to the next.
pub next_in_chain :
    (read : ReadFn) (v : Volume) (g : Geometry) (first k : ℕ)
    → v.geometry ≡ g
    → IsCoherent read v
    → ((next_cluster read v (chain read g first k)).0 ≡ chain read g first (k + 1))
      × ((next_cluster read v (chain read g first k)).1.geometry ≡ g)
      × IsCoherent read (next_cluster read v (chain read g first k)).1
unfolding chain
next_in_chain read v g first k same h =
    let (a, b, c) = next_cluster-fat_entry read v (chain read g first k) h in
    let at : k + 1 ≡ suc k = omega arith in
    (rw at (a ∙ ap (λ w. fat_entry read w (chain read g first k)) same), b ∙ same, c)
