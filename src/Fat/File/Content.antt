-- ===== src/Fat/File/Content.antt =====
-- kernel/fat32.c: the contents of a file, as the chain of its clusters lays them out on the device,
-- and the part of them that one round of `FatReadAt` delivers.
use bloom_os.Prelude.{
  ℕ, ◌+◌, ◌-◌, ◌*◌, ◌/◌, ◌%◌, ◌^◌, ◌<◌, ◌≤◌, ◌≡◌, ◌∙◌, ap, refl, true, List, some, take, arith,
}
use native.Mathlib.Nat.{mod-lt, div-add-mod'}
use bloom_os.Prelude.Slices.{slice, slice_cong, slice_ext, take-slice, drop-slice}
use bloom_os.Fat.Disk.{ReadFn, Holds}
use bloom_os.Fat.Boot.{Geometry}
use bloom_os.Fat.Table.{cluster_lba, cluster_valid}
use bloom_os.Fat.Table.Chain.{chain}
use bloom_os.Fat.File.{Entry, cluster_bytes, in_cluster, chunk_of, take_of, piece}

-- The byte of the file at a place.
pub file_byte : ReadFn → (ℕ → ℕ) → Geometry → ℕ → ℕ → ℕ
file_byte read disk g first pos =
    disk (cluster_lba g (chain read g first (pos / cluster_bytes g)) * 512 + pos % cluster_bytes g)

-- The file lies on the device: the chain is long enough for its size, and each cluster is inside.
pub record IsStored (read : ReadFn) (sectors : ℕ) (g : Geometry) (file : Entry) : Type 0 where
  pub sized : file.size < 2 ^ 32
  pub positive : 0 < g.sectors_per_cluster
  pub bounded : sectors < 2 ^ 64
  pub valid :
      (k : ℕ) → k * cluster_bytes g < file.size → cluster_valid (chain read g file.cluster k) ≡ true
  pub inside :
      (k : ℕ)
      → k * cluster_bytes g < file.size
      → cluster_lba g (chain read g file.cluster k) + g.sectors_per_cluster ≤ sectors

pub div_of : (c q r n : ℕ) → n ≡ q * c + r → r < c → n / c ≡ q
div_of c q r n e h = grind arith

pub mod_of : (c q r n : ℕ) → n ≡ q * c + r → r < c → n % c ≡ r
mod_of c q r n e h = grind arith

module _ (g : Geometry) (pos left : ℕ) (positive : 0 < g.sectors_per_cluster)
    (more : 0 < left) where
  pub in_cluster-lt : in_cluster g pos < cluster_bytes g
  in_cluster-lt = mod-lt pos (omega arith)

  pub round_facts :
      (in_cluster g pos / 512 + chunk_of g pos ≤ g.sectors_per_cluster)
      × (0 < take_of g pos left)
      × (take_of g pos left ≤ left)
      × (take_of g pos left ≤ chunk_of g pos * 512 - in_cluster g pos % 512)
      × (in_cluster g pos % 512 ≤ chunk_of g pos * 512)
      × (in_cluster g pos + take_of g pos left ≤ cluster_bytes g)
  round_facts = ground (arith, in_cluster-lt)

module _ {read : ReadFn} {disk : ℕ → ℕ} {sectors : ℕ} (holds : Holds read disk sectors)
    {g : Geometry} {file : Entry} (stored : IsStored read sectors g file) where
  abbrev pub content : ℕ → ℕ
  content = file_byte read disk g file.cluster

  -- The bytes of a run inside one cluster.
  content-in_cluster :
      (pos n : ℕ)
      → in_cluster g pos + n ≤ cluster_bytes g
      → slice disk
          (cluster_lba g (chain read g file.cluster (pos / cluster_bytes g)) * 512
            + in_cluster g pos)
          n
        ≡ slice content pos n
  unfolding file_byte
  content-in_cluster pos n h = slice_ext disk content _ pos n λ i l.
      let c = cluster_bytes g in
      let whole = div-add-mod' pos c in
      let same : (pos + i) / c ≡ pos / c =
        div_of c (pos / c) (in_cluster g pos + i) (pos + i) (omega (arith, whole)) (omega arith) in
      let place : (pos + i) % c ≡ in_cluster g pos + i =
        mod_of c (pos / c) (in_cluster g pos + i) (pos + i) (omega (arith, whole)) (omega arith) in
      rw (same, place) (ap disk (omega arith))

  -- A round at a place of the file: the sectors that it asks for are there, and of them it takes
  -- the bytes of the file from that place on.
  pub round_piece :
      (pos left : ℕ)
      → 0 < left
      → pos + left ≤ file.size
      → (buffer : List ℕ) × (read
            ((cluster_lba g (chain read g file.cluster (pos / cluster_bytes g))
                + in_cluster g pos / 512)
              % 2 ^ 64)
            (chunk_of g pos)
          ≡ some buffer)
        × (piece g pos left buffer ≡ slice content pos (take_of g pos left))
  round_piece pos left more fits =
      let facts = round_facts g pos left stored.positive more in
      let whole = div-add-mod' pos (cluster_bytes g) in
      let base = cluster_lba g (chain read g file.cluster (pos / cluster_bytes g)) in
      let room : base + g.sectors_per_cluster ≤ sectors =
        stored.inside (pos / cluster_bytes g) (omega (arith, whole)) in
      let lba : (base + in_cluster g pos / 512) % 2 ^ 64 ≡ base + in_cluster g pos / 512 =
        omega (arith, facts, room, stored.bounded) in
      (
        slice disk ((base + in_cluster g pos / 512) * 512) (chunk_of g pos * 512),
        rw lba (holds.reads _ _ (omega (arith, facts, room))),
        ap (take (take_of g pos left)) (
              drop-slice disk ((base + in_cluster g pos / 512) * 512) (in_cluster g pos % 512)
                (chunk_of g pos * 512) facts.4)
            ∙ take-slice disk ((base + in_cluster g pos / 512) * 512 + in_cluster g pos % 512)
                (take_of g pos left) (chunk_of g pos * 512 - in_cluster g pos % 512) facts.3
            ∙ slice_cong disk (omega arith) refl
            ∙ content-in_cluster pos (take_of g pos left) facts.5,
      )
