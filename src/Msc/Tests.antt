-- ===== src/Msc/Tests.antt =====
-- kernel/usbmsc.c: a device that keeps to the protocol, and the theorem on reads for it.
use Prim.{tt}
use bloom_os.Prelude.{
  ℕ, zero, suc, ◌+◌, ◌*◌, ◌%◌, ◌^◌, ◌≡◌, refl, ap, ◌∙◌, true, false, List, [], ◌∷◌, some, ◌==◌,
  if◌then◌else◌, arith, take, drop, inl, inr,
}
use bloom_os.Prelude.Bytes.{byte_at}
use bloom_os.Prelude.Int.{pos}
use bloom_os.Prelude.Slices.{slice}
use bloom_os.Msc.{Transport, Bus, Status, ok, get_be32, msc_read}
use bloom_os.Msc.Wire.{IsRead}
use bloom_os.Msc.Reads.{IsDisk, msc_read_lem}

abbrev disk : ℕ → ℕ
disk a = a % 251

-- The state is the number of transfers since the last command, and the command.
abbrev World : Type 0
World = ℕ × List ℕ

abbrev command : List ℕ → List ℕ
command cbw = take (byte_at cbw 14) (drop 15 cbw)

abbrev lba_of : List ℕ → ℕ
lba_of cdb =
    if byte_at cdb 0 == 0x88 then get_be32 cdb 2 * 2 ^ 32 + get_be32 cdb 6 else get_be32 cdb 2

abbrev passed_block : List ℕ → List ℕ
passed_block cbw =
    0x55
    ∷ 0x53
    ∷ 0x42
    ∷ 0x53
    ∷ byte_at cbw 4
    ∷ byte_at cbw 5
    ∷ byte_at cbw 6
    ∷ byte_at cbw 7
    ∷ 0
    ∷ 0
    ∷ 0
    ∷ 0
    ∷ 0
    ∷ []

abbrev answer : ℕ → World → Status × List ℕ × World
answer size (zero, cbw) = (ok, slice disk (lba_of (command cbw) * 512) size, (1, cbw))
answer size (suc n, cbw) = (ok, passed_block cbw, (0, cbw))

abbrev stick : Transport World
stick = record {
  control = λ dev kind request size w. (ok, [], w);
  bulk_out = λ dev cbw w. (ok, (0, cbw));
  bulk_in = λ dev size w. answer size w;
  clear_halt = λ dev inward w. w;
  sleep = λ ms w. w;
  max_bulk = 65536;
  rescan = λ w. (pos 0, w);
  device_count = λ w. 1;
  device = λ i w. some i;
  is_gone = λ dev w. false;
  is_mass = λ dev w. true;
  is_attached = λ dev w. true;
  set_attached = λ dev w. w;
  release = λ dev w. w;
}

lba_of-IsRead : (cdb : List ℕ) (lba count : ℕ) → IsRead cdb lba count → lba_of cdb ≡ lba
unfolding IsRead
lba_of-IsRead cdb lba count (inl r) = ground (arith, r.1, r.2)
lba_of-IsRead cdb lba count (inr r) = ground (arith, r.1, r.2)

abbrev Always : World → Type 0
Always w = Unit

stick-IsDisk : IsDisk stick 0 0 disk 512 1000 Always
stick-IsDisk = record {
  reads = λ w cbw cdb tag lba count ready some_count inside wrapped read. record {
    asked = (0, cbw);
    sent = (1, cbw);
    ended = (0, cbw);
    csw = passed_block cbw;
    ask = refl;
    transfer =
        ap (λ a. (ok, slice disk (a * 512) (count * 512), (1, cbw)))
          (ap lba_of wrapped.command ∙ lba_of-IsRead cdb lba count read);
    answer = refl;
    passed = record { bytes = refl; signature = refl; tagged = wrapped.tagged; status = refl };
    ready = tt;
  };
}

abbrev bus : Bus World
bus = record { world = (0, []); tag = 7; log = [] }

msc_read_lem_example :
    (b' : Bus World) × (msc_read stick 0 0 true 512 5 3 bus ≡ (some (slice disk 2560 1536), b'))
    × Always b'.world
msc_read_lem_example =
    msc_read_lem stick 0 0 disk 512 1000 Always stick-IsDisk bus 5 3 tt (omega arith) (omega arith)
      (omega arith) (omega arith) (omega arith) (omega arith) (omega arith)
