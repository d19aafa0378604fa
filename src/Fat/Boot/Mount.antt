-- ===== src/Fat/Boot/Mount.antt =====
-- kernel/fat32.c, `FatBootSectorValid` and `FatMount`: what a mounted volume may rely on, and that a
-- failed mount gives its pages back.
use bloom_os.Prelude.{
  ℕ, ◌+◌, ◌*◌, ◌/◌, ◌%◌, ◌^◌, ◌<◌, ◌≤◌, ◌≡◌, ◌≢◌, ◌∙◌, refl, true, false, List, Option, none, some,
  ◌==◌, if◌then◌else◌, arith, ◌⊎◌, inl, inr, Bool-cases,
}
use bloom_os.Prelude.Bytes.{byte_at, le16, le32}
use bloom_os.Pmm.{Pmm, alloc_page, free_page, test_bit, page_size}
use bloom_os.Pmm.Alloc.{IsValid, Allocates, alloc_page_lem, free_page_at, total-free_page}
use bloom_os.Fat.Disk.{ReadFn}
use bloom_os.Fat.Table.{cluster_valid}
use bloom_os.Fat.Table.Chain.{IsCoherent}
use bloom_os.Fat.Boot.{
  Volume, fat_boot_sector_valid, geometry_of, mount_sector, free_if, finish_mount, fat_mount,
}

cluster_size :
    (spc bps : ℕ)
    → (bps ≡ 512) ⊎ ((bps ≡ 1024) ⊎ ((bps ≡ 2048) ⊎ (bps ≡ 4096)))
    → 0 < spc
    → spc ≤ 128
    → (0 < spc * (bps / 512) % 2 ^ 16) × (spc * (bps / 512) % 2 ^ 16 ≤ 1024)
cluster_size spc bps (inl e) = rw e (λ a b. omega arith)
cluster_size spc bps (inr (inl e)) = rw e (λ a b. omega arith)
cluster_size spc bps (inr (inr (inl e))) = rw e (λ a b. omega arith)
cluster_size spc bps (inr (inr (inr e))) = rw e (λ a b. omega arith)

valid_sector_facts :
    (s : List ℕ)
    → fat_boot_sector_valid s ≡ true
    → ((le16 s 0x0B ≡ 512) ⊎ ((le16 s 0x0B ≡ 1024) ⊎ ((le16 s 0x0B ≡ 2048) ⊎ (le16 s 0x0B ≡ 4096))))
      × (0 < byte_at s 0x0D)
      × (byte_at s 0x0D ≤ 128)
      × (2 ≤ le32 s 0x2C)
unfolding fat_boot_sector_valid
valid_sector_facts s h = ground arith

-- A state whose free pages are those of another.
pub record SamePages (s t : Pmm) : Type 0 where
  pub valid : IsValid t
  pub bits : (q : ℕ) → test_bit t.bitmap q ≡ test_bit s.bitmap q
  pub count : t.free_pages ≡ s.free_pages
  pub total : t.total_pages ≡ s.total_pages

-- Freeing the two pages that two allocations took, the first one first.
free_both :
    {s : Pmm} {r w : ℕ × Pmm}
    → Allocates s.total_pages s r
    → Allocates r.1.total_pages r.1 w
    → SamePages s (free_page w.0 (free_page r.0 w.1))
free_both {s} {r} {w} a b =
    let (v1, bits1, count1) =
      free_page_at a.page r.0 b.valid a.address (omega (arith, a.total, b.total, a.in_range))
        (ground (arith, b.marks a.page, a.marks a.page)) in
    let total1 = total-free_page r.0 w.1 in
    let (v2, bits2, count2) =
      free_page_at b.page w.0 {s = free_page r.0 w.1} v1 b.address
        (omega (arith, total1, b.total, b.in_range))
        (ground (arith, bits1 b.page, b.marks b.page, b.was_free, a.marks b.page)) in
    record {
      valid = v2;
      bits = λ q. ground (arith, bits2 q, bits1 q, b.marks q, a.marks q, a.was_free, b.was_free);
      count = omega (arith, count1, count2, a.count, b.count);
      total = total-free_page w.0 (free_page r.0 w.1) ∙ total1 ∙ b.total ∙ a.total;
    }

free_one : {s : Pmm} {r : ℕ × Pmm} → Allocates s.total_pages s r → SamePages s (free_page r.0 r.1)
free_one {s} {r} a =
    let (v, bits, count) =
      free_page_at a.page r.0 a.valid a.address (omega (arith, a.total, a.in_range))
        (ground (arith, a.marks a.page)) in
    record {
      valid = v;
      bits = λ q. ground (arith, bits q, a.marks q, a.was_free);
      count = omega (arith, count, a.count);
      total = total-free_page r.0 r.1 ∙ a.total;
    }

address_pos :
    {s : Pmm} {r : ℕ × Pmm} → test_bit s.bitmap 0 ≡ true → Allocates s.total_pages s r → 0 < r.0
address_pos {s} {r} reserved a = ground (arith, a.address, a.was_free, reserved)

-- The two pages that a mounted volume owns: both were free, and they differ.
pub record Owns (s : Pmm) (v : Volume) (t : Pmm) : Type 0 where
  pub valid : IsValid t
  pub differ : v.sector_buffer ≢ v.fat_buffer_page
  pub sector_free : test_bit s.bitmap (v.sector_buffer / page_size) ≡ false
  pub fat_free : test_bit s.bitmap (v.fat_buffer_page / page_size) ≡ false
  pub bits :
      (q : ℕ)
      → test_bit t.bitmap q ≡ (
          if v.sector_buffer / page_size == q
          then true
          else if v.fat_buffer_page / page_size == q
          then true
          else test_bit s.bitmap q)
  pub count : t.free_pages + 2 ≡ s.free_pages

-- What a mounted volume may rely on.
pub record Mounted (read : ReadFn) (start : ℕ) (s : Pmm) (v : Volume) (t : Pmm) : Type 0 where
  pub sector : List ℕ
  pub read_it : read start 1 ≡ some sector
  pub boot : fat_boot_sector_valid sector ≡ true
  pub geometry : v.geometry ≡ geometry_of sector start
  pub some_sectors : 0 < v.geometry.sectors_per_cluster
  pub few_sectors : v.geometry.sectors_per_cluster ≤ 1024
  pub root : 2 ≤ v.geometry.root_cluster
  pub coherent : IsCoherent read v
  pub owns : Owns s v t

abbrev pub Outcome : ReadFn → ℕ → Pmm → Option Volume × Pmm → Type 0
Outcome read start s (none, t) = SamePages s t
Outcome read start s (some v, t) = Mounted read start s v t

mount_sector_lem :
    (read : ReadFn) (start a b : ℕ) (s t : Pmm) (r : Option (List ℕ))
    → read start 1 ≡ r
    → SamePages s (free_page b (free_page a t))
    → ((v : Volume) → v.sector_buffer ≡ a → v.fat_buffer_page ≡ b → Owns s v t)
    → Outcome read start s (finish_mount a b t (mount_sector a b start r))
unfolding mount_sector finish_mount cluster_valid
mount_sector_lem read start a b s t none e back owns = back
mount_sector_lem read start a b s t (some sector) e back owns =
    elim (Bool-cases (fat_boot_sector_valid sector)) [
      | inr bad ↦ rw bad back
      | inl good ↦
          let (size, spc_pos, spc_le, root) = valid_sector_facts sector good in
          let spc = cluster_size (byte_at sector 0x0D) (le16 sector 0x0B) size spc_pos spc_le in
          rw good (record {
            sector = sector;
            read_it = e;
            boot = good;
            geometry = refl;
            some_sectors = spc.0;
            few_sectors = spc.1;
            root = root;
            coherent = record { cached = λ h. cc; cursor = λ h. cc };
            owns = owns _ refl refl;
          })
    ]

ne_zero : {n : ℕ} → 0 < n → (n == 0) ≡ false
ne_zero {n} h = ground arith

both_owned :
    {s : Pmm} {r w : ℕ × Pmm} (a : Allocates s.total_pages s r)
    (b : Allocates r.1.total_pages r.1 w) (v : Volume)
    → v.sector_buffer ≡ r.0
    → v.fat_buffer_page ≡ w.0
    → Owns s v w.1
both_owned {s} {r} {w} a b v first second =
    let at : v.sector_buffer / page_size ≡ a.page = omega (arith, a.address) in
    let bt : v.fat_buffer_page / page_size ≡ b.page = omega (arith, b.address) in
    let apart : a.page ≢ b.page = λ same. ground (arith, same, b.was_free, a.marks b.page) in
    record {
      valid = b.valid;
      differ = λ same. apart (omega (arith, same, at, bt));
      sector_free = ground (arith, at, a.was_free);
      fat_free = ground (arith, bt, b.was_free, a.marks b.page, apart);
      bits = λ q. ground (arith, at, bt, b.marks q, a.marks q);
      count = omega (arith, a.count, b.count);
    }

-- `FatMount` in a valid allocator state with page 0 reserved either fails, and then the free pages
-- and their count are those from before; or it mounts a volume whose boot sector was read and passed
-- the test, with 1 to 1024 sectors to a cluster, a root cluster of at least 2, a coherent cursor and
-- cache, and two different pages of its own that were free before.
pub fat_mount_lem :
    (read : ReadFn) (start : ℕ) {s : Pmm}
    → IsValid s
    → test_bit s.bitmap 0 ≡ true
    → Outcome read start s (fat_mount read start s)
unfolding fat_mount free_if
fat_mount_lem read start {s} v reserved = elim (alloc_page_lem v) [
  | inr (e, _, _) ↦ rw (e, e) (record { valid = v; bits = λ q. refl; count = refl; total = refl })
  | inl a ↦ elim (alloc_page_lem a.valid) [
    | inr (e, _, _) ↦ rw (e, ne_zero (address_pos reserved a)) (free_one a)
    | inl b ↦
        let still : test_bit (alloc_page s).1.bitmap 0 ≡ true =
          ground (arith, a.marks 0, reserved) in
        rw (ne_zero (address_pos reserved a), ne_zero (address_pos still b))
          (mount_sector_lem read start (alloc_page s).0 (alloc_page (alloc_page s).1).0 s
            (alloc_page (alloc_page s).1).1 (read start 1) refl (free_both a b) (both_owned a b))
  ]
]
