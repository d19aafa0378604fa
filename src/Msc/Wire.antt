-- ===== src/Msc/Wire.antt =====
-- kernel/usbmsc.c: what the wrapped commands say, read by the layout that the bulk-only transport and
-- the SCSI commands prescribe.
use bloom_os.Prelude.{
  ℕ, ◌+◌, ◌-◌, ◌*◌, ◌/◌, ◌%◌, ◌^◌, ◌≤◌, ◌<◌, ◌≡◌, refl, ap, ◌∙◌, true, List, [], ◌∷◌, ◌++◌, ltb,
  arith, Bool-cases, ◌⊎◌, inl, inr, length, take, drop, replicate, take_all, length-append,
  length-replicate,
}
use bloom_os.Prelude.Bytes.{byte_at, le32}
use bloom_os.Msc.{put32, put_be32, get_be32, wrap, read_cdb}

le_bytes :
    (v : ℕ)
    → v < 2 ^ 32
    → v % 256 + 256 * (v / 2 ^ 8 % 256) + 65536 * (v / 2 ^ 16 % 256 + 256 * (v / 2 ^ 24 % 256)) ≡ v
le_bytes v h = omega arith

be_bytes :
    (v : ℕ)
    → v < 2 ^ 32
    → v / 2 ^ 24 % 256 * 2 ^ 24 + v / 2 ^ 16 % 256 * 2 ^ 16 + v / 2 ^ 8 % 256 * 2 ^ 8 + v % 256 ≡ v
be_bytes v h = omega arith

-- A block that wraps a command which asks for `size` bytes.
pub record IsWrapper (cbw : List ℕ) (tag size lun : ℕ) (cdb : List ℕ) : Type 0 where
  pub bytes : length cbw ≡ 31
  pub signature : le32 cbw 0 ≡ 0x43425355
  pub tagged : le32 cbw 4 ≡ tag
  pub sized : le32 cbw 8 ≡ size
  pub direction : byte_at cbw 12 ≡ 0x80
  pub unit : byte_at cbw 13 ≡ lun
  pub command : take (byte_at cbw 14) (drop 15 cbw) ≡ cdb

-- READ(10) or READ(16) of `count` sectors from `lba` on.
unfoldable pub IsRead : List ℕ → ℕ → ℕ → Type 0
IsRead cdb lba count =
    ((length cdb ≡ 10)
      × (byte_at cdb 0 ≡ 0x28)
      × (get_be32 cdb 2 ≡ lba)
      × (byte_at cdb 7 * 256 + byte_at cdb 8 ≡ count))
    ⊎ ((length cdb ≡ 16)
        × (byte_at cdb 0 ≡ 0x88)
        × (get_be32 cdb 2 * 2 ^ 32 + get_be32 cdb 6 ≡ lba)
        × (get_be32 cdb 10 ≡ count))

pub read_cdb-IsRead :
    (lba count : ℕ) → lba + count < 2 ^ 64 → count < 2 ^ 16 → IsRead (read_cdb lba count) lba count
unfolding put_be32 get_be32 IsRead
read_cdb-IsRead lba count h k = elim (Bool-cases (ltb 0xFFFFFFFF ((lba + count) % 2 ^ 64))) [
  | inl e ↦ rw e (inr (refl, refl, omega arith, omega arith))
  | inr e ↦
      let small : lba < 2 ^ 32 = ground arith in
      rw e (inl (refl, refl, be_bytes lba small, omega arith))
]

pub length-read_cdb : (lba count : ℕ) → length (read_cdb lba count) ≤ 16
unfolding put_be32
length-read_cdb lba count = elim (Bool-cases (ltb 0xFFFFFFFF ((lba + count) % 2 ^ 64))) [
  | inl e ↦ rw e (omega arith)
  | inr e ↦ rw e (omega arith)
]

take-append : (xs ys : List ℕ) → take (length xs) (xs ++ ys) ≡ xs
take-append [] ys = refl
take-append (x ∷ xs) ys = ap (λ t. x ∷ t) (take-append xs ys)

pub wrap-IsWrapper :
    (tag size lun : ℕ) (cdb : List ℕ)
    → tag < 2 ^ 32
    → size < 2 ^ 32
    → length cdb ≤ 16
    → IsWrapper (wrap tag size true lun cdb) tag size lun cdb
unfolding wrap put32
wrap-IsWrapper tag size lun cdb t s c = record {
  bytes = omega (
    arith,
    length-append (take 16 cdb) (replicate (16 - length cdb) 0),
    length-replicate {A = ℕ} (16 - length cdb) 0,
    ap length (take_all 16 cdb c),
    c,
  );
  signature = refl;
  tagged = le_bytes tag t;
  sized = le_bytes size s;
  direction = refl;
  unit = refl;
  command =
      ap (λ s. take (length cdb) (s ++ replicate (16 - length cdb) 0)) (take_all 16 cdb c)
      ∙ take-append cdb (replicate (16 - length cdb) 0);
}
