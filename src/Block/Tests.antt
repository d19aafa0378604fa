-- ===== src/Block/Tests.antt =====
-- kernel/blockdev.c: runs at concrete tables, and the theorems at inputs that meet their hypotheses.
use bloom_os.Prelude.{
  ℕ, zero, suc, ◌+◌, ◌*◌, ◌%◌, ◌<◌, ◌≡◌, ◌≢◌, refl, true, false, List, [], ◌∷◌, ◌++◌, none, some,
  ◌==◌, if◌then◌else◌, arith, take, leb, inl, inr, get_elem?,
}
use mathlib.Core.Path.{subst}
use bloom_os.Prelude.Int.{pos, negsuc}
use bloom_os.Prelude.Slices.{slice}
use bloom_os.Block.{
  Device, Table, ReadExFn, device_read, read_wide, read_device, block_read_from, block_find,
  find_from, name_eq, add_device, add_named, copy_name, block_register_next, block_remove,
  unit_digits, free_name,
}
use bloom_os.Block.Loops.{Serves, IsSized}
use bloom_os.Block.Read.{block_read_from_lem, block_read_from_refuses}
use bloom_os.Block.Requests.{with_drivers, read_device_requests}
use bloom_os.Block.Registry.{IsValid, IsUsable, add_device-IsValid}
use bloom_os.Block.Names.{block_find-add_device, block_remove_lem, block_register_next_lem}

abbrev disk : ℕ → ℕ
disk a = a % 251

-- A driver of 1024-byte sectors.
abbrev serve : ReadExFn
serve context lba count = some (slice disk (lba * 1024) (count * 1024))

abbrev usb0 : List ℕ
usb0 = b'u' ∷ b's' ∷ b'b' ∷ b'0' ∷ []

abbrev usb : List ℕ
usb = b'u' ∷ b's' ∷ b'b' ∷ []

abbrev stick : Device
stick = record {
  legacy = none;
  read = some serve;
  context = 0;
  sector_size = 1024;
  max_count = 2;
  sector_count = 10;
  online = true;
  name = usb0;
}

abbrev one : Table
one = stick ∷ []

-- Sectors 1 to 6 of 512 bytes: the second half of a native sector, two whole ones, the first half of
-- another.
reads_across : block_read_from one (pos 0) 1 6 ≡ some (slice disk 512 (6 * 512))
unfolding block_read_from read_device read_wide device_read slice
reads_across = refl

stick-Serves : Serves stick disk 10
unfolding device_read
stick-Serves = record {
  positive = omega arith;
  small = omega arith;
  delivers = λ lba count a b c. refl;
}

stick-IsSized : IsSized stick
stick-IsSized = record { whole = refl; known = inr (inl refl) }

block_read_from_lem_example : block_read_from one (pos 0) 1 6 ≡ some (slice disk 512 3072)
block_read_from_lem_example =
    block_read_from_lem one (pos 0) 1 6 refl stick-Serves stick-IsSized refl (inr refl)
      (omega arith)

block_read_from_refuses_example : block_read_from one (pos 0) 19 2 ≡ none
block_read_from_refuses_example =
    block_read_from_refuses one (pos 0) 19 2
      (inr (stick, refl, inr (stick-IsSized, omega arith, omega arith, omega arith, omega arith)))

-- A driver that fails beyond the device and on requests that are too long.
abbrev strict : ReadExFn
strict context lba count = if leb (lba + count) 10 then serve context lba count else none

read_device_requests_example :
    read_device stick 1 6 ≡ read_device (with_drivers none (some strict) stick) 1 6
unfolding device_read
read_device_requests_example =
    read_device_requests stick none (some strict) stick-IsSized (omega arith) (omega arith)
      (λ lba count a b c. ground arith) 1 6 (omega arith)

one-IsValid : IsValid one
unfolding block_find find_from name_eq
one-IsValid = record {
  few = omega arith;
  usable = λ i d e. is_stick i d e;
  found = λ i d e. is_found i d e;
}
  where
    is_stick : (i : ℕ) (d : Device) → get_elem? one i ≡ some d → IsUsable d
    is_stick zero d e = let same : stick ≡ d = cc in subst IsUsable same usable
      where
        usable : IsUsable stick
        usable = record {
          sized = stick-IsSized;
          positive = omega arith;
          named = omega arith;
          short = omega arith;
          driven = refl;
        }
    is_stick (suc i) d e = cc

    is_found :
        (i : ℕ) (d : Device) → get_elem? one i ≡ some d → block_find one (some d.name) ≡ pos i
    is_found zero d e =
        let same : stick ≡ d = cc in subst (λ x. block_find one (some x.name) ≡ pos 0) same refl
    is_found (suc i) d e = cc

add_device-IsValid_example : IsValid (add_device (some usb0) none (some serve) 1 512 0 0 one).1
add_device-IsValid_example =
    add_device-IsValid (some usb0) none (some serve) 1 512 0 0 one one-IsValid

-- The name is taken, then a fresh one is not.
name_taken : (add_device (some usb0) none (some serve) 1 512 0 0 one).0 ≡ negsuc 0
unfolding add_device add_named block_find find_from name_eq
name_taken = refl

abbrev usb1 : Device
usb1 = record {
  legacy = none;
  read = some serve;
  context = 1;
  sector_size = 512;
  max_count = 8;
  sector_count = 0;
  online = true;
  name = b'u' ∷ b's' ∷ b'b' ∷ b'1' ∷ [];
}

block_find-add_device_example :
    (◌≡◌ {A = ℕ} 1 1)
    × (◌≡◌ {A = ℕ} 2 2)
    × (block_find (stick ∷ usb1 ∷ []) (some (copy_name usb1.name)) ≡ pos 1)
    × ((n : List ℕ)
        → n ≢ copy_name usb1.name
        → block_find (stick ∷ usb1 ∷ []) (some n) ≡ block_find one (some n))
unfolding add_device add_named block_find find_from name_eq
block_find-add_device_example =
    block_find-add_device usb1.name none (some serve) 1 512 0 0 one {i = 1} {t' = stick ∷ usb1 ∷ []}
      refl

block_remove_lem_example :
    ((block_remove (pos 0) one).0 ≡ true)
    × ((j : ℕ)
        → get_elem? (block_remove (pos 0) one).1 j
          ≡ (if 0 == j then some (record stick { online = false }) else get_elem? one j))
    × ((n : List ℕ) → block_find (block_remove (pos 0) one).1 (some n) ≡ block_find one (some n))
    × IsValid (block_remove (pos 0) one).1
block_remove_lem_example = block_remove_lem one 0 stick one-IsValid refl

block_register_next_lem_example :
    (k : ℕ) × (k < 100)
    × (block_find one (some (take 12 usb ++ unit_digits k)) ≡ negsuc 0)
    × ((m : ℕ) → m < k → block_find one (some (take 12 usb ++ unit_digits m)) ≢ negsuc 0)
    × (◌≡◌ {A = ℕ} 1 1)
    × (block_find (stick ∷ usb1 ∷ []) (some (take 12 usb ++ unit_digits k)) ≡ pos 1)
unfolding block_register_next free_name unit_digits add_device add_named block_find find_from
    name_eq
block_register_next_lem_example =
    block_register_next_lem usb (some serve) 1 512 0 0 one {i = 1} {t' = stick ∷ usb1 ∷ []} refl
