-- ===== src/Msc/Luns.antt =====
-- kernel/usbmsc.c: the table of logical units, their probing, and what comes and goes with a device.
-- In the table of block devices a driver is a function of the request, so the driver that `MscRead`
-- is for a unit is an argument. `stale` is what the buffers on the stack hold before a transfer.
use bloom_os.Prelude.{
  ℕ, zero, suc, ◌+◌, ◌-◌, ◌*◌, ◌/◌, ◌%◌, ◌^◌, Bool, true, false, not, ◌&&◌, ◌||◌, List, [], ◌∷◌,
  ◌++◌, Option, none, some, ltb, leb, ◌==◌, if◌then◌else◌, take, drop, length, set,
}
use bloom_os.Prelude.Bytes.{byte_at}
use bloom_os.Prelude.Int.{ℤ, pos, negsuc}
use bloom_os.Prelude.Text.{chars}
use bloom_os.Klog.{klog, klog_uint, klog_hex}
use bloom_os.Block.{
  Table, ReadExFn, block_register_next, block_remove, block_device_name, valid_sector_size,
}
use bloom_os.Msc.{
  Transport, Bus, Status, ok, fail, stall, Reply, done, refused, broken, get_be32, bot, sense,
}

abbrev pub max_lun_per_device : ℕ
max_lun_per_device = 8

-- `MSC_LUN`.
pub record MscLun : Type 0 where
  pub used : Bool
  pub alive : Bool
  pub dev : ℕ
  pub lun : ℕ
  pub sector_size : ℕ
  pub sectors : ℕ
  pub block : ℤ

-- `Luns` and the state of the parts that the code calls.
pub record Msc (W : Type 0) : Type 0 where
  pub luns : List MscLun
  pub bus : Bus W
  pub devices : Table

abbrev pub free_slot : List MscLun → Option ℕ
free_slot [] = none
free_slot (l ∷ ls) =
    let rest = elim (free_slot ls) as (λ _. Option ℕ) [ none ↦ none | some i ↦ some (suc i) ] in
    if l.used then rest else some 0

abbrev is_done : Reply → Bool
is_done done = true
is_done refused = false
is_done broken = false

abbrev says : {W : Type 0} → List ℕ → Bus W → Bus W
says text b = record b { log = klog text b.log }

abbrev says_lun : {W : Type 0} → List ℕ → ℕ → List ℕ → Bus W → Bus W
says_lun before lun after b = record b { log = klog after (klog_uint lun (klog before b.log)) }

abbrev read_10 : List ℕ
read_10 = 0x25 ∷ 0 ∷ 0 ∷ 0 ∷ 0 ∷ 0 ∷ 0 ∷ 0 ∷ 0 ∷ 0 ∷ []

abbrev read_16 : List ℕ
read_16 = 0x9E ∷ 0x10 ∷ 0 ∷ 0 ∷ 0 ∷ 0 ∷ 0 ∷ 0 ∷ 0 ∷ 0 ∷ 0 ∷ 0 ∷ 0 ∷ 32 ∷ 0 ∷ 0 ∷ []

abbrev inquiry : List ℕ
inquiry = 0x12 ∷ 0 ∷ 0 ∷ 0 ∷ 36 ∷ 0 ∷ []

abbrev test_unit : List ℕ
test_unit = 0 ∷ 0 ∷ 0 ∷ 0 ∷ 0 ∷ 0 ∷ []

module _ {W : Type 0} (x : Transport W) (stale : List ℕ) where
  abbrev fill : List ℕ → List ℕ
  fill bytes = bytes ++ drop (length bytes) stale

  abbrev capacity_16 : Reply × List ℕ × Bus W → Option (ℕ × ℕ) × Bus W
  capacity_16 (reply, bytes, b) =
      let big = fill bytes in
      let sectors = (get_be32 big 0 * 2 ^ 32 + get_be32 big 4 + 1) % 2 ^ 64 in
      if is_done reply then (some (get_be32 big 8, sectors), b) else (none, b)

  abbrev capacity_10 : ℕ → ℕ → Reply × List ℕ × Bus W → Option (ℕ × ℕ) × Bus W
  capacity_10 dev lun (reply, bytes, b) =
      let last = get_be32 (fill bytes) 0 in
      let large = capacity_16 (bot x dev lun read_16 32 true b) in
      if not (is_done reply)
      then (none, b)
      else if last == 0xFFFFFFFF
      then large
      else (some (get_be32 (fill bytes) 4, last + 1), b)

  -- `ReadCapacity`: the size of a sector and the number of sectors.
  unfoldable pub read_capacity : ℕ → ℕ → Bus W → Option (ℕ × ℕ) × Bus W
  read_capacity dev lun b = capacity_10 dev lun (bot x dev lun read_10 8 true b)

  -- The attempts of the inquiry: the answer in a buffer of zeros.
  unfoldable pub inquire : ℕ → ℕ → ℕ → Bus W → Option (List ℕ) × Bus W
  inquire zero dev lun b = (none, b)
  inquire (suc n) dev lun b =
      let (reply, bytes, b') = bot x dev lun inquiry 36 true b in
      elim (is_done reply) [ true ↦ (some bytes, b') | false ↦ inquire n dev lun b' ]

  abbrev no_medium : Option (ℕ × ℕ × ℕ) → Bool
  no_medium none = false
  no_medium (some codes) = codes.1 == 0x3A

  -- A round of the loop that waits: whether the unit is ready, whether the loop ends.
  unfoldable pub test_ready : ℕ → ℕ → Reply × List ℕ × Bus W → Bool × Bool × Bus W
  test_ready dev lun (done, bytes, b) = (true, true, b)
  test_ready dev lun (broken, bytes, b) = (false, false, record b { world = x.sleep 200 b.world })
  test_ready dev lun (refused, bytes, b) =
      let (codes, b') = sense x dev lun b in
      if no_medium codes
      then (false, true, says_lun (chars "USB: lun ") lun (chars " has no medium\n") b')
      else (false, false, record b' { world = x.sleep 200 b'.world })

  unfoldable pub wait_ready : ℕ → ℕ → ℕ → Bus W → Bool × Bus W
  unfolding test_ready
  wait_ready zero dev lun b = (false, b)
  wait_ready (suc n) dev lun b =
      let (ready, over, b') = test_ready dev lun (bot x dev lun test_unit 0 false b) in
      elim over [ true ↦ (ready, b') | false ↦ wait_ready n dev lun b' ]

  abbrev is_disk : ℕ → Bool
  is_disk kind = kind == 0 || kind == 0x0E

  -- The commands of `ProbeLun`: what it finds out before the unit is registered.
  unfoldable pub examine_size : Option (ℕ × ℕ) × Bus W → Option (ℕ × ℕ) × Bus W
  examine_size (none, b) = (none, says (chars "USB: read capacity failed\n") b)
  examine_size (some (size, sectors), b) =
      if valid_sector_size size
      then (some (size, sectors), b)
      else (none, says_lun (chars "USB: unsupported sector size ") size (chars "\n") b)

  unfoldable pub examine_ready : ℕ → ℕ → Bool × Bus W → Option (ℕ × ℕ) × Bus W
  unfolding read_capacity examine_size
  examine_ready dev lun (false, b) = (none, b)
  examine_ready dev lun (true, b) = examine_size (read_capacity dev lun b)

  unfoldable pub examine : ℕ → ℕ → Option (List ℕ) × Bus W → Option (ℕ × ℕ) × Bus W
  unfolding wait_ready examine_ready
  examine dev lun (none, b) =
      (none, says_lun (chars "USB: inquiry failed on lun ") lun (chars "\n") b)
  examine dev lun (some bytes, b) =
      let kind = byte_at bytes 0 % 32 in
      let no_disk : Bus W = record b {
        log = klog (chars "\n") (
            klog_hex kind 2 (
              klog (chars " is not a disk, type ")
                (klog_uint lun (klog (chars "USB: lun ") b.log))));
      } in
      if is_disk kind then examine_ready dev lun (wait_ready 25 dev lun b) else (none, no_disk)

  abbrev log_unit : Table → ℤ → ℕ → ℕ → ℕ → List ℕ → List ℕ
  log_unit t index lun size sectors log =
      let l1 = klog (block_device_name t index) (klog (chars "USB: ") log) in
      let l2 = klog_uint lun (klog (chars " lun ") l1) in
      let l3 = klog_uint size (klog (chars ", sector ") l2) in
      klog (chars "\n") (klog_uint sectors (klog (chars ", sectors ") l3))

  abbrev max_count : ℕ → ℕ
  max_count size =
      let count = x.max_bulk / size in
      if count == 0 then 1 else if ltb 1024 count then 1024 else count

  -- The unit in its slot is registered as a block device, whose index is the result.
  unfoldable pub register_lun :
      ReadExFn → ℕ → ℕ → ℕ → Msc W → Option (ℕ × ℕ) × Bus W → Option ℤ × Msc W
  register_lun driver slot dev lun s (none, b) = (none, record s { bus = b })
  register_lun driver slot dev lun s (some (size, sectors), b) =
      let (index, t) =
        block_register_next (some (chars "usb")) (some driver) slot size sectors (max_count size)
          s.devices in
      elim index [
        | negsuc k ↦ (
          none,
          record s { bus = says (chars "USB: cannot register block device\n") b; devices = t },
        )
        | pos i ↦ (
          some (pos i),
          record s {
            luns = set s.luns slot (record {
              used = true;
              alive = true;
              dev = dev;
              lun = lun;
              sector_size = size;
              sectors = sectors;
              block = pos i;
            });
            bus = record b { log = log_unit t (pos i) lun size sectors b.log };
            devices = t;
          },
        )
      ]

  -- `ProbeLun`: a slot whose unit is given up is free again.
  unfoldable pub probe_lun : ReadExFn → ℕ → ℕ → Msc W → Option ℤ × Msc W
  unfolding inquire examine register_lun
  probe_lun driver dev lun s = elim (free_slot s.luns) [
    | none ↦ (none, record s { bus = says (chars "USB: lun table full\n") s.bus })
    | some slot ↦ register_lun driver slot dev lun s (examine dev lun (inquire 3 dev lun s.bus))
  ]

  -- The loop of `AttachDevice`: the indices of the new block devices.
  unfoldable pub attach_from : ReadExFn → ℕ → ℕ → ℕ → Msc W → List ℤ × Msc W
  unfolding probe_lun
  attach_from driver zero dev lun s = ([], s)
  attach_from driver (suc n) dev lun s =
      let (found, s') = probe_lun driver dev lun s in
      let (rest, s2) = attach_from driver n dev (lun + 1) s' in
      elim found [ none ↦ (rest, s2) | some i ↦ (i ∷ rest, s2) ]

  abbrev max_lun : Status × List ℕ × W → ℕ
  max_lun (ok, bytes, w) =
      if leb max_lun_per_device (byte_at bytes 0) then max_lun_per_device - 1 else byte_at bytes 0
  max_lun (fail, bytes, w) = 0
  max_lun (stall, bytes, w) = 0

  -- `AttachDevice`; the caller keeps as many of the indices as it has room for.
  unfoldable pub attach_device : ReadExFn → ℕ → Msc W → List ℤ × Msc W
  unfolding attach_from
  attach_device driver dev s =
      let answer = x.control dev 0xA1 0xFE 1 s.bus.world in
      attach_from driver (max_lun answer + 1) dev 0
        (record s { bus = record s.bus { world = answer.2 } })

  -- The loop of `DetachDevice`: how many block devices were removed.
  unfoldable pub detach_luns : ℕ → List MscLun → Table → ℕ × List MscLun × Table
  detach_luns dev [] t = (0, [], t)
  detach_luns dev (l ∷ ls) t =
      let gone = l.used && l.dev == dev in
      let counted = l.alive && (elim l.block [ pos _ ↦ true | negsuc _ ↦ false ]) in
      let t' = if gone && counted then (block_remove l.block t).1 else t in
      let (n, ls', t2) = detach_luns dev ls t' in
      let l' : MscLun = record l { alive = false; used = false } in
      (if gone && counted then n + 1 else n, (if gone then l' else l) ∷ ls', t2)

  unfoldable pub detach_device : ℕ → Msc W → ℕ × Msc W
  unfolding detach_luns
  detach_device dev s =
      let (removed, luns, t) = detach_luns dev s.luns s.devices in
      (
        removed,
        record s {
          luns = luns;
          bus = record s.bus { world = x.release dev s.bus.world };
          devices = t;
        },
      )

-- `UsbMscBlocks`, over the units that are left: the names so far and how many.
unfoldable pub blocks_text : ℕ → Table → ℕ → List MscLun → List ℕ → ℕ → List ℕ × ℕ
blocks_text dev t max [] text count = (text, count)
blocks_text dev t max (l ∷ ls) text count =
    let spaced = if ltb 0 count && ltb (length text) (max - 1) then text ++ (b' ' ∷ []) else text in
    let named = spaced ++ take (max - 1 - length spaced) (block_device_name t l.block) in
    let skip = not l.used || (not l.alive || not (l.dev == dev)) in
    elim skip [
      | true ↦ blocks_text dev t max ls text count
      | false ↦ blocks_text dev t max ls named (count + 1)
    ]

unfoldable pub usb_msc_blocks : {W : Type 0} → ℕ → ℕ → Msc W → List ℕ × ℕ
unfolding blocks_text
usb_msc_blocks dev max s = blocks_text dev s.devices max s.luns [] 0
