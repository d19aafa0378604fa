-- ===== src/Msc.antt =====
-- kernel/usbmsc.c: commands to USB mass storage devices. The host controller's driver, kernel/xhci.c,
-- is an interface of operations on a state of its own; a device is the number of its `USB_DEVICE`. A
-- command that sends data to the device does not occur.
pub mod Luns
pub mod Wire
pub mod Reads
mod Tests
use bloom_os.Prelude.{
  ℕ, zero, suc, ◌+◌, ◌-◌, ◌*◌, ◌/◌, ◌%◌, ◌^◌, Bool, true, false, not, ◌&&◌, ◌||◌, List, [], ◌∷◌,
  ◌++◌, Option, none, some, ltb, leb, ◌==◌, if◌then◌else◌, take, drop, length, replicate,
}
use bloom_os.Prelude.Bytes.{byte_at, le32}
use bloom_os.Prelude.Int.{ℤ}
use bloom_os.Prelude.Text.{chars}
use bloom_os.Klog.{klog, klog_hex}

-- `XHCI_OK`, `XHCI_FAIL` and `XHCI_STALL`.
pub data Status : Type 0 where
  ok : Status
  fail : Status
  stall : Status

-- The functions of kernel/xhci.c that the code calls. A transfer from the device gives the bytes that
-- arrive, whose number is `Actual`. A control transfer names the type, the request and the length;
-- it is for the interface of the device.
pub record Transport (W : Type 0) : Type 0 where
  pub control : ℕ → ℕ → ℕ → ℕ → W → Status × List ℕ × W
  pub bulk_out : ℕ → List ℕ → W → Status × W
  pub bulk_in : ℕ → ℕ → W → Status × List ℕ × W
  pub clear_halt : ℕ → Bool → W → W
  pub sleep : ℕ → W → W
  pub max_bulk : ℕ
  pub rescan : W → ℤ × W
  pub device_count : W → ℕ
  pub device : ℕ → W → Option ℕ
  pub is_gone : ℕ → W → Bool
  pub is_mass : ℕ → W → Bool
  pub is_attached : ℕ → W → Bool
  pub set_attached : ℕ → W → W
  pub release : ℕ → W → W

-- `TagCounter`, with the state of the controller and the log.
pub record Bus (W : Type 0) : Type 0 where
  pub world : W
  pub tag : ℕ
  pub log : List ℕ

-- How `Bot` ends: 1, -1 and 0.
pub data Reply : Type 0 where
  done : Reply
  refused : Reply
  broken : Reply

unfoldable pub put32 : ℕ → List ℕ
put32 v = v % 256 ∷ v / 2 ^ 8 % 256 ∷ v / 2 ^ 16 % 256 ∷ v / 2 ^ 24 % 256 ∷ []

unfoldable pub put_be32 : ℕ → List ℕ
put_be32 v = v / 2 ^ 24 % 256 ∷ v / 2 ^ 16 % 256 ∷ v / 2 ^ 8 % 256 ∷ v % 256 ∷ []

unfoldable pub get_be32 : List ℕ → ℕ → ℕ
get_be32 p i =
    byte_at p i * 2 ^ 24
    + byte_at p (i + 1) * 2 ^ 16
    + byte_at p (i + 2) * 2 ^ 8
    + byte_at p (i + 3)

abbrev pub cbw_sig : ℕ
cbw_sig = 0x43425355

abbrev pub csw_sig : ℕ
csw_sig = 0x53425355

-- The block that wraps a command.
unfoldable pub wrap : ℕ → ℕ → Bool → ℕ → List ℕ → List ℕ
wrap tag size inward lun cdb =
    put32 cbw_sig
    ++ (put32 tag
        ++ (put32 size
            ++ ((if inward then 0x80 else 0)
                ∷ lun
                ∷ length cdb
                ∷ (take 16 cdb ++ replicate (16 - length cdb) 0))))

abbrev sense_cdb : List ℕ
sense_cdb = 0x03 ∷ 0 ∷ 0 ∷ 0 ∷ 18 ∷ 0 ∷ []

abbrev pub read_cdb : ℕ → ℕ → List ℕ
read_cdb lba count =
    if ltb 0xFFFFFFFF ((lba + count) % 2 ^ 64)
    then 0x88 ∷ 0 ∷ (put_be32 (lba / 2 ^ 32) ++ (put_be32 lba ++ (put_be32 count ++ (0 ∷ 0 ∷ []))))
    else 0x28 ∷ 0 ∷ (put_be32 lba ++ (0 ∷ count / 2 ^ 8 % 256 ∷ count % 256 ∷ 0 ∷ []))

module _ {W : Type 0} (x : Transport W) where
  unfoldable pub reset_recovery : ℕ → Bus W → Bus W
  reset_recovery dev b =
      let w = (x.control dev 0x21 0xFF 0 b.world).2 in
      record b {
        world = x.clear_halt dev false (x.clear_halt dev true (x.sleep 20 w));
        log = klog (chars "USB: bulk-only reset recovery\n") b.log;
      }

  -- A transfer that is tried again when the endpoint was halted.
  unfoldable pub send_again : ℕ → List ℕ → Status × W → Status × W
  send_again dev bytes (ok, w) = (ok, w)
  send_again dev bytes (fail, w) = (fail, w)
  send_again dev bytes (stall, w) = x.bulk_out dev bytes (x.clear_halt dev false w)

  unfoldable pub send : ℕ → List ℕ → W → Status × W
  unfolding send_again
  send dev bytes w = send_again dev bytes (x.bulk_out dev bytes w)

  unfoldable pub status_again : ℕ → Status × List ℕ × W → Status × List ℕ × W
  status_again dev (ok, csw, w) = (ok, csw, w)
  status_again dev (fail, csw, w) = (fail, csw, w)
  status_again dev (stall, csw, w) = x.bulk_in dev 13 (x.clear_halt dev true w)

  unfoldable pub receive_status : ℕ → W → Status × List ℕ × W
  unfolding status_again
  receive_status dev w = status_again dev (x.bulk_in dev 13 w)

  -- The transfer of the data: whether it went through, and the bytes.
  unfoldable pub data_through : ℕ → Status × List ℕ × W → Bool × List ℕ × W
  data_through dev (ok, bytes, w) = (true, bytes, w)
  data_through dev (fail, bytes, w) = (false, bytes, w)
  data_through dev (stall, bytes, w) = (true, bytes, x.clear_halt dev true w)

  unfoldable pub receive_data : ℕ → ℕ → W → Bool × List ℕ × W
  unfolding data_through
  receive_data dev size w =
      if size == 0 then (true, [], w) else data_through dev (x.bulk_in dev size w)

  -- What the status block of 13 bytes says.
  unfoldable pub judge : ℕ → Status → List ℕ → Reply
  judge tag fail csw = broken
  judge tag stall csw = broken
  judge tag ok csw =
      if not (length csw == 13) || (not (le32 csw 0 == csw_sig) || not (le32 csw 4 == tag))
      then broken
      else if byte_at csw 12 == 0
      then done
      else if byte_at csw 12 == 1
      then refused
      else broken

  unfoldable pub conclude : ℕ → Reply → List ℕ → Bus W → Reply × List ℕ × Bus W
  unfolding reset_recovery
  conclude dev done bytes b = (done, bytes, b)
  conclude dev refused bytes b = (refused, bytes, b)
  conclude dev broken bytes b = (broken, bytes, reset_recovery dev b)

  unfoldable pub finish_bot : ℕ → ℕ → List ℕ → Bus W → Status × List ℕ × W → Reply × List ℕ × Bus W
  unfolding judge conclude
  finish_bot dev tag bytes b (st, csw, w) =
      conclude dev (judge tag st csw) bytes (record b { world = w })

  unfoldable pub bot_data : ℕ → ℕ → Bus W → Bool × List ℕ × W → Reply × List ℕ × Bus W
  unfolding receive_status finish_bot conclude
  bot_data dev tag b (false, bytes, w) = conclude dev broken bytes (record b { world = w })
  bot_data dev tag b (true, bytes, w) = finish_bot dev tag bytes b (receive_status dev w)

  unfoldable pub bot_sent : ℕ → ℕ → ℕ → Bus W → Status × W → Reply × List ℕ × Bus W
  unfolding receive_data bot_data conclude
  bot_sent dev tag size b (ok, w) = bot_data dev tag b (receive_data dev size w)
  bot_sent dev tag size b (fail, w) = conclude dev broken [] (record b { world = w })
  bot_sent dev tag size b (stall, w) = conclude dev broken [] (record b { world = w })

  -- `Bot`: the reply, the data that came, whose number is `Got`.
  unfoldable pub bot : ℕ → ℕ → List ℕ → ℕ → Bool → Bus W → Reply × List ℕ × Bus W
  unfolding wrap send bot_sent
  bot dev lun cdb size inward b =
      bot_sent dev b.tag size (record b { tag = (b.tag + 1) % 2 ^ 32 })
        (send dev (wrap b.tag size inward lun cdb) b.world)

  -- `Sense`: the key and the two codes, from a buffer of zeros.
  unfoldable pub sense : ℕ → ℕ → Bus W → Option (ℕ × ℕ × ℕ) × Bus W
  unfolding bot
  sense dev lun b =
      let (reply, bytes, b') = bot dev lun sense_cdb 18 true b in
      elim reply [
        | done ↦ (some (byte_at bytes 2 % 16, byte_at bytes 12, byte_at bytes 13), b')
        | refused ↦ (none, b')
        | broken ↦ (none, b')
      ]

  abbrev log_sense : ℕ × ℕ × ℕ → List ℕ → List ℕ
  log_sense (key, asc, ascq) log =
      let l1 = klog_hex key 1 (klog (chars "USB: read failed, sense ") log) in
      let l2 = klog_hex asc 2 (klog (chars "/") l1) in
      klog (chars "\n") (klog_hex ascq 2 (klog (chars "/") l2))

  -- What follows a command that was refused: whether another attempt is made.
  unfoldable pub after_refusal : ℕ → ℕ → Bus W → Bool × Bus W
  unfolding sense
  after_refusal dev lun b =
      let (codes, b') = sense dev lun b in
      elim codes [
        | none ↦ (false, b')
        | some c ↦ (c.0 == 6, record b' { log = log_sense c b'.log })
      ]

  -- What an attempt of `MscRead` comes to; `next` makes the attempts that are left.
  unfoldable pub settle :
      ℕ
      → ℕ
      → ℕ
      → (Bus W → Option (List ℕ) × Bus W)
      → Reply × List ℕ × Bus W
      → Option (List ℕ) × Bus W
  unfolding after_refusal
  settle dev lun size next (done, bytes, b) =
      if length bytes == size then (some bytes, b) else next b
  settle dev lun size next (broken, bytes, b) = next b
  settle dev lun size next (refused, bytes, b) =
      let (again, b') = after_refusal dev lun b in if again then next b' else (none, b')

  -- The attempts of `MscRead`, with their number.
  unfoldable pub read_attempts : ℕ → ℕ → ℕ → List ℕ → ℕ → Bus W → Option (List ℕ) × Bus W
  unfolding bot settle
  read_attempts zero dev lun cdb size b = (none, b)
  read_attempts (suc n) dev lun cdb size b =
      settle dev lun size (λ b'. read_attempts n dev lun cdb size b') (bot dev lun cdb size true b)

  -- `MscRead` for a unit that is `alive`, whose sectors have `sector_size` bytes.
  unfoldable pub msc_read : ℕ → ℕ → Bool → ℕ → ℕ → ℕ → Bus W → Option (List ℕ) × Bus W
  unfolding read_attempts
  msc_read dev lun alive sector_size lba count b =
      let size = count * sector_size % 2 ^ 32 in
      let read = read_attempts 3 dev lun (read_cdb lba count) size b in
      if not alive || count == 0 then (none, b) else read
