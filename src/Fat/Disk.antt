-- ===== src/Fat/Disk.antt =====
-- The interface between the file system and the block layer: what `BlockReadFrom` at one device
-- gives, and the law that its clients rely on.
use bloom_os.Prelude.{ℕ, ◌+◌, ◌*◌, ◌≤◌, ◌≡◌, List, Option, some}
use bloom_os.Prelude.Slices.{slice}

-- `BlockReadFrom(Device, Lba, Count, Buffer)`: the bytes put into the buffer, or nothing.
abbrev pub ReadFn : Type 0
ReadFn = ℕ → ℕ → Option (List ℕ)

-- A device of `sectors` 512-byte sectors that holds the bytes of `disk`.
pub record Holds (read : ReadFn) (disk : ℕ → ℕ) (sectors : ℕ) : Type 0 where
  pub reads :
      (lba count : ℕ)
      → lba + count ≤ sectors
      → read lba count ≡ some (slice disk (lba * 512) (count * 512))
