-- ===== src/Msc/Reads.antt =====
-- kernel/usbmsc.c, `MscRead` on a device that keeps to the protocol.
use native.Mathlib.Nat.{mul-pos}
use bloom_os.Prelude.{
  ℕ, suc, ◌+◌, ◌*◌, ◌%◌, ◌^◌, ◌≤◌, ◌<◌, ◌≡◌, refl, ap, ◌∙◌, Bool, true, false, List, some, ◌==◌,
  if◌then◌else◌, arith, length,
}
use bloom_os.Prelude.Bytes.{byte_at, le32}
use bloom_os.Prelude.Slices.{slice, length-slice}
use bloom_os.Msc.{
  Transport, Bus, ok, done, wrap, send, receive_status, receive_data, judge, conclude, bot_sent,
  send_again, status_again, data_through, settle, finish_bot, bot_data, bot, read_cdb,
  read_attempts, msc_read,
}
use bloom_os.Msc.Wire.{IsWrapper, IsRead, wrap-IsWrapper, read_cdb-IsRead, length-read_cdb}

-- A status block that says that the command with a tag was carried out.
pub record IsPassed (csw : List ℕ) (tag : ℕ) : Type 0 where
  pub bytes : length csw ≡ 13
  pub signature : le32 csw 0 ≡ 0x53425355
  pub tagged : le32 csw 4 ≡ tag
  pub status : byte_at csw 12 ≡ 0

-- The three transfers that carry out a command, from one state of the device to another.
pub record Exchange {W : Type 0} (x : Transport W) (dev : ℕ) (cbw : List ℕ) (size tag : ℕ)
    (content : List ℕ) (Ready : W → Type 0) (w : W) : Type 0 where
  pub asked : W
  pub sent : W
  pub ended : W
  pub csw : List ℕ
  pub ask : x.bulk_out dev cbw w ≡ (ok, asked)
  pub transfer : x.bulk_in dev size asked ≡ (ok, content, sent)
  pub answer : x.bulk_in dev 13 sent ≡ (ok, csw, ended)
  pub passed : IsPassed csw tag
  pub ready : Ready ended

-- A unit of a device that answers each read of its first `limit` sectors, as the bulk-only transport
-- and the SCSI commands say, whenever it is ready.
pub record IsDisk {W : Type 0} (x : Transport W) (dev lun : ℕ) (disk : ℕ → ℕ)
    (sector_size limit : ℕ) (Ready : W → Type 0) : Type 0 where
  pub reads :
      (w : W) (cbw cdb : List ℕ) (tag lba count : ℕ)
      → Ready w
      → 0 < count
      → lba + count ≤ limit
      → IsWrapper cbw tag (count * sector_size) lun cdb
      → IsRead cdb lba count
      → Exchange x dev cbw
          (count * sector_size)
          tag
          (slice disk (lba * sector_size) (count * sector_size))
          Ready
          w

pick_true {ℓ} : {A : Type ℓ} (t : Bool) (a b : A) → t ≡ true → (if t then a else b) ≡ a
pick_true true a b e = refl
pick_true false a b e = cc

module _ {W : Type 0} (x : Transport W) (dev lun : ℕ) where
  judge_passed : (tag : ℕ) (csw : List ℕ) → IsPassed csw tag → judge x tag ok csw ≡ done
  unfolding judge
  judge_passed tag csw p = ground (arith, p.bytes, p.signature, p.tagged, p.status)

  receive_data_ok :
      (size : ℕ) (content : List ℕ) (w w' : W)
      → 0 < size
      → x.bulk_in dev size w ≡ (ok, content, w')
      → receive_data x dev size w ≡ (true, content, w')
  unfolding receive_data
  receive_data_ok size content w w' h e =
      let some_data : (size == 0) ≡ false = ground arith in
      rw (receive_data, some_data) (ap (data_through x dev) e)

  -- `Bot` for a command that the device carries out.
  bot_passed :
      (cdb : List ℕ) (size : ℕ) (content : List ℕ) (Ready : W → Type 0) (b : Bus W)
      → 0 < size
      → (e : Exchange x dev (wrap b.tag size true lun cdb) size b.tag content Ready b.world)
      → bot x dev lun cdb size true b
        ≡ (done, content, record b { world = e.ended; tag = (b.tag + 1) % 2 ^ 32 })
  unfolding bot bot_sent bot_data finish_bot conclude send receive_status
  bot_passed cdb size content Ready b some_data e =
      let b' : Bus W = record b { tag = (b.tag + 1) % 2 ^ 32 } in
      ap (λ r. bot_sent x dev b.tag size b' (send_again x dev (wrap b.tag size true lun cdb) r))
        e.ask
      ∙ ap (bot_data x dev b.tag b')
          (receive_data_ok size content e.asked e.sent some_data e.transfer)
      ∙ ap (λ r. finish_bot x dev b.tag content b' (status_again x dev r)) e.answer
      ∙ ap (λ r. conclude x dev r content (record b' { world = e.ended }))
          (judge_passed b.tag e.csw e.passed)

  -- The first attempt succeeds.
  read_attempts_passed :
      (n : ℕ) (cdb : List ℕ) (size : ℕ) (content : List ℕ) (b b' : Bus W)
      → length content ≡ size
      → bot x dev lun cdb size true b ≡ (done, content, b')
      → read_attempts x (suc n) dev lun cdb size b ≡ (some content, b')
  unfolding read_attempts settle
  read_attempts_passed n cdb size content b b' h e =
      let exact : (length content == size) ≡ true = ground (arith, h) in
      ap (settle x dev lun size (λ b2. read_attempts x n dev lun cdb size b2)) e
      ∙ pick_true (length content == size) (some content, b') _ exact

-- `MscRead` for a unit that keeps to the protocol and is ready: a read of at least one sector and less
-- than 65536, of less than 4 GB, inside the unit, gives exactly the bytes of these sectors, whichever
-- of the two read commands is used, and the unit is ready again.
pub msc_read_lem :
    {W : Type 0} (x : Transport W) (dev lun : ℕ) (disk : ℕ → ℕ) (sector_size limit : ℕ)
    (Ready : W → Type 0) (unit : IsDisk x dev lun disk sector_size limit Ready) (b : Bus W)
    (lba count : ℕ)
    → Ready b.world
    → b.tag < 2 ^ 32
    → 0 < sector_size
    → 0 < count
    → count < 2 ^ 16
    → count * sector_size < 2 ^ 32
    → limit < 2 ^ 64
    → lba + count ≤ limit
    → (b' : Bus W) × (msc_read x dev lun true sector_size lba count b
        ≡ (some (slice disk (lba * sector_size) (count * sector_size)), b'))
      × Ready b'.world
unfolding msc_read
msc_read_lem x dev lun disk sector_size limit Ready unit b lba count ready tag size some_count few
      fits bound inside =
    let bytes = count * sector_size in
    let whole : bytes % 2 ^ 32 ≡ bytes = omega arith in
    let positive : 0 < bytes = omega (arith, mul-pos some_count size) in
    let cdb = read_cdb lba count in
    let wrapped = wrap-IsWrapper b.tag bytes lun cdb tag fits (length-read_cdb lba count) in
    let command = read_cdb-IsRead lba count (omega arith) few in
    let e =
      unit.reads b.world (wrap b.tag bytes true lun cdb) cdb b.tag lba count ready some_count inside
        wrapped command in
    let content = slice disk (lba * sector_size) bytes in
    let b' : Bus _ = record b { world = e.ended; tag = (b.tag + 1) % 2 ^ 32 } in
    let read =
      read_attempts_passed x dev lun 2 cdb bytes content b b'
        (length-slice disk (lba * sector_size) bytes)
        (bot_passed x dev lun cdb bytes content Ready b positive e) in
    let asked : (count == 0) ≡ false = ground arith in
    (b', rw (msc_read, asked, whole) read, e.ready)
