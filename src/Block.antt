-- ===== src/Block.antt =====
-- kernel/blockdev.c: the table of block devices, and reads in 512-byte sectors from a device with
-- larger ones. The array `Devices` and `DeviceCount` are the list of the registered devices; a C
-- string is the list of its characters, and a pointer that may be null is an option. A driver is a
-- function that returns the bytes which it would write to the buffer, or nothing on an error.
pub mod Registry
pub mod Names
pub mod Loops
pub mod Requests
pub mod Read
mod Tests
use bloom_os.Prelude.{
  ℕ, zero, suc, ◌+◌, ◌-◌, ◌*◌, ◌/◌, ◌%◌, ◌^◌, Bool, true, false, not, ◌&&◌, ◌||◌, List, [], ◌∷◌,
  ◌++◌, Option, none, some, ltb, leb, ◌==◌, if◌then◌else◌, take, drop, length, get_elem?, set,
}
use bloom_os.Prelude.Int.{ℤ, pos, negsuc}
use bloom_os.Prelude.Monad.{◌>>=◌}

abbrev pub max_block_devices : ℕ
max_block_devices = 64

abbrev pub name_size : ℕ
name_size = 16

abbrev pub legacy_max_count : ℕ
legacy_max_count = 8

-- `BLOCK_READ_FN` and `BLOCK_READ_EX_FN`.
abbrev pub ReadFn : Type 0
ReadFn = ℕ → ℕ → Option (List ℕ)

abbrev pub ReadExFn : Type 0
ReadExFn = ℕ → ReadFn

pub record Device : Type 0 where
  pub legacy : Option ReadFn
  pub read : Option ReadExFn
  pub context : ℕ
  pub sector_size : ℕ
  pub max_count : ℕ
  pub sector_count : ℕ
  pub online : Bool
  pub name : List ℕ

abbrev pub Table : Type 0
Table = List Device

pub valid_sector_size : ℕ → Bool
valid_sector_size size = size == 512 || (size == 1024 || (size == 2048 || size == 4096))

-- `CopyName` into an array of `NAME_SIZE` characters.
pub copy_name : List ℕ → List ℕ
copy_name src = take (name_size - 1) src

pub name_eq : List ℕ → List ℕ → Bool
name_eq [] [] = true
name_eq [] (y ∷ ys) = false
name_eq (x ∷ xs) [] = false
name_eq (x ∷ xs) (y ∷ ys) = x == y && name_eq xs ys

-- The loop of `BlockFind`, with the index that it has reached.
pub find_from : ℕ → Table → List ℕ → ℤ
find_from i [] name = negsuc 0
find_from i (d ∷ ds) name = if name_eq d.name name then pos i else find_from (i + 1) ds name

pub block_find : Table → Option (List ℕ) → ℤ
block_find t none = negsuc 0
block_find t (some name) = find_from 0 t name

abbrev pub is_negative : ℤ → Bool
is_negative (pos _) = false
is_negative (negsuc _) = true

abbrev pub is_null {ℓ} : {A : Type ℓ} → Option A → Bool
is_null none = true
is_null (some _) = false

abbrev pub is_empty : List ℕ → Bool
is_empty [] = true
is_empty (_ ∷ _) = false

-- The entry that `AddDevice` fills in.
pub new_device : List ℕ → Option ReadFn → Option ReadExFn → ℕ → ℕ → ℕ → ℕ → Device
unfolding copy_name
new_device name legacy read context sector_size sector_count max_count = record {
  legacy = legacy;
  read = read;
  context = context;
  sector_size = sector_size;
  max_count =
      if max_count == 0 then (if sector_size == 512 then legacy_max_count else 1) else max_count;
  sector_count = sector_count;
  online = true;
  name = copy_name (copy_name name);
}

-- `AddDevice` after the test of the name pointer.
pub add_named : List ℕ → Option ReadFn → Option ReadExFn → ℕ → ℕ → ℕ → ℕ → Table → ℤ × Table
unfolding valid_sector_size copy_name new_device
add_named name legacy read context sector_size sector_count max_count t =
    if leb max_block_devices (length t) || (is_empty name || (is_null legacy && is_null read))
    then (negsuc 0, t)
    else if not (valid_sector_size sector_size)
    then (negsuc 0, t)
    else if not (is_negative (block_find t (some (copy_name name))))
    then (negsuc 0, t)
    else (
      pos (length t),
      t ++ (new_device name legacy read context sector_size sector_count max_count ∷ []),
    )

pub add_device :
    Option (List ℕ) → Option ReadFn → Option ReadExFn → ℕ → ℕ → ℕ → ℕ → Table → ℤ × Table
add_device none legacy read context sector_size sector_count max_count t = (negsuc 0, t)
add_device (some name) legacy read context sector_size sector_count max_count t =
    add_named name legacy read context sector_size sector_count max_count t

pub block_register : Option (List ℕ) → Option ReadFn → Table → ℤ × Table
block_register name read_fn t = add_device name read_fn none 0 512 0 legacy_max_count t

pub block_register_ex : Option (List ℕ) → Option ReadExFn → ℕ → ℕ → ℕ → ℕ → Table → ℤ × Table
block_register_ex name read_fn context sector_size sector_count max_count t =
    add_device name none read_fn context sector_size sector_count max_count t

-- The decimal digits that `BlockRegisterNext` puts behind the prefix.
pub unit_digits : ℕ → List ℕ
unit_digits n = (if leb 10 n then (b'0' + n / 10) ∷ [] else []) ++ ((b'0' + n % 10) ∷ [])

-- The first free name among the `rounds` numbers from `n` on.
pub free_name : ℕ → ℕ → List ℕ → Table → Option (List ℕ)
free_name zero n prefix t = none
free_name (suc rounds) n prefix t =
    let rest = free_name rounds (n + 1) prefix t in
    if is_negative (block_find t (some (prefix ++ unit_digits n)))
    then some (prefix ++ unit_digits n)
    else rest

pub block_register_next : Option (List ℕ) → Option ReadExFn → ℕ → ℕ → ℕ → ℕ → Table → ℤ × Table
block_register_next none read_fn context sector_size sector_count max_count t = (negsuc 0, t)
block_register_next (some prefix) read_fn context sector_size sector_count max_count t =
    if is_empty prefix
    then (negsuc 0, t)
    else elim (free_name 100 0 (take (name_size - 4) prefix) t) [
      | none ↦ (negsuc 0, t)
      | some name ↦ add_device (some name) none read_fn context sector_size sector_count max_count t
    ]

abbrev pub device_at : Table → ℤ → Option Device
device_at t (negsuc _) = none
device_at t (pos i) = get_elem? t i

abbrev put_offline : ℕ → Option Device → Table → Bool × Table
put_offline i none t = (false, t)
put_offline i (some d) t = (true, set t i (record d { online = false }))

pub block_remove : ℤ → Table → Bool × Table
block_remove (negsuc _) t = (false, t)
block_remove (pos i) t = put_offline i (get_elem? t i) t

pub block_device_count : Table → ℕ
block_device_count t = length t

pub block_device_name : Table → ℤ → List ℕ
block_device_name t index = elim (device_at t index) [
  | none ↦ b'n' ∷ b'o' ∷ b'n' ∷ b'e' ∷ []
  | some d ↦ d.name
]

pub block_is_online : Table → ℤ → Bool
block_is_online t index = elim (device_at t index) [ none ↦ false | some d ↦ d.online ]

pub block_sector_size : Table → ℤ → ℕ
block_sector_size t index = elim (device_at t index) [ none ↦ 0 | some d ↦ d.sector_size ]

pub block_sector_count : Table → ℤ → ℕ
block_sector_count t index = elim (device_at t index) [ none ↦ 0 | some d ↦ d.sector_count ]

abbrev pub ratio : Device → ℕ
ratio d = d.sector_size / 512

pub block_size_512 : Table → ℤ → ℕ
block_size_512 t index = elim (device_at t index) [
  | none ↦ 0
  | some d ↦ d.sector_count * ratio d % 2 ^ 64
]

-- A device with neither driver cannot be registered; the call through the null pointer is `none`.
unfoldable pub device_read : Device → ReadFn
device_read d lba count = elim d.legacy [
  | some f ↦ f lba count
  | none ↦ elim d.read [ some f ↦ f d.context lba count | none ↦ none ]
]

-- The loop for 512-byte sectors, on fuel. What is returned is what the loop puts into the buffer.
unfoldable pub read_direct : ℕ → Device → ℕ → ℕ → Option (List ℕ)
read_direct zero d lba count = none
read_direct (suc fuel) d lba count = elim (count == 0) [
  | true ↦ some []
  | false ↦
      let chunk = if ltb d.max_count count then d.max_count else count in
      device_read d lba chunk >>= λ bytes.
      read_direct fuel d ((lba + chunk) % 2 ^ 64) (count - chunk) >>= λ rest. some (bytes ++ rest)
]

-- The loop for larger sectors: whole native sectors go straight to the buffer, a part of one
-- through the bounce buffer.
unfoldable pub read_wide : ℕ → Device → ℕ → ℕ → Option (List ℕ)
read_wide zero d lba count = none
read_wide (suc fuel) d lba count = elim (count == 0) [
  | true ↦ some []
  | false ↦
      let native = lba / ratio d in
      let offset = lba % ratio d in
      elim (offset == 0 && leb (ratio d) count) [
        | true ↦
            let whole =
              if ltb d.max_count (count / ratio d) then d.max_count else count / ratio d in
            let finished = whole * ratio d in
            device_read d native whole >>= λ bytes.
            read_wide fuel d ((lba + finished) % 2 ^ 64) (count - finished) >>= λ rest.
            some (bytes ++ rest)
        | false ↦
            let part = if ltb count (ratio d - offset) then count else ratio d - offset in
            device_read d native 1 >>= λ bounce.
            read_wide fuel d ((lba + part) % 2 ^ 64) (count - part) >>= λ rest.
            some (take (part * 512) (drop (offset * 512) bounce) ++ rest)
      ]
]

-- The range test of `BlockReadFrom`, where the size of the device is known.
abbrev pub in_range : Device → ℕ → ℕ → Bool
in_range d lba count =
    d.sector_count == 0
    || (ltb lba (d.sector_count * ratio d % 2 ^ 64)
        && leb count (d.sector_count * ratio d % 2 ^ 64 - lba))

unfoldable pub read_device : Device → ℕ → ℕ → Option (List ℕ)
read_device d lba count =
    if not d.online
    then none
    else if count == 0
    then some []
    else if not (in_range d lba count)
    then none
    else if ratio d == 1
    then read_direct (suc count) d lba count
    else read_wide (suc count) d lba count

-- `BlockReadFrom` with a buffer: the result is what it puts there, so that the test for a null buffer
-- has no place.
unfoldable pub block_read_from : Table → ℤ → ℕ → ℕ → Option (List ℕ)
block_read_from t index lba count = device_at t index >>= λ d. read_device d lba count
