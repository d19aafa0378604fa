-- ===== src/Mouse/Packets.antt =====
-- kernel/mouse.c: three bytes in time are one report.
use Prim.Native.Nat.{bit_and, bit_or}
use bloom_os.Prelude.{
  ℕ, ◌+◌, ◌-◌, ◌%◌, ◌^◌, ◌≤◌, ◌<◌, ◌≡◌, refl, ◌≢◌, true, false, not, List, [], ◌∷◌, ltb, ◌==◌, set,
  length, length-set, arith,
}
use bloom_os.Mouse.{Mouse, mouse_irq_handler, apply_packet, movement, next_index}

-- The bytes of one packet, one after the other.
abbrev pub packet : ℕ → ℕ → ℕ → ℕ → ℕ → ℕ → Mouse → Mouse
packet t1 b1 t2 b2 t3 b3 s =
    mouse_irq_handler t3 b3 (mouse_irq_handler t2 b2 (mouse_irq_handler t1 b1 s))

abbrev pub report : ℕ → ℕ → ℕ → ℕ → Mouse → Mouse
report tick b1 b2 b3 s = record s {
  accum_dx = (s.accum_dx + movement (not (bit_and b1 0x10 == 0)) b2) % 2 ^ 32;
  accum_dy = (s.accum_dy + movement (not (bit_and b1 0x20 == 0)) b3) % 2 ^ 32;
  mouse_buttons = bit_and b1 7;
  pressed_latch = bit_or s.pressed_latch (bit_and (bit_and b1 7) (255 - s.last_button_state));
  last_button_state = bit_and b1 7;
  mouse_data_ready = true;
  packet_bytes = b1 ∷ b2 ∷ b3 ∷ [];
  packet_index = 0;
  last_byte_tick = tick;
}

three_places :
    (xs : List ℕ) (a b c : ℕ) → length xs ≡ 3 → set (set (set xs 0 a) 1 b) 2 c ≡ a ∷ b ∷ c ∷ []
three_places [] a b c h = absurd (omega arith)
three_places (x ∷ []) a b c h = absurd (omega arith)
three_places (x ∷ y ∷ []) a b c h = absurd (omega arith)
three_places (x ∷ y ∷ z ∷ []) a b c h = refl
three_places (x ∷ y ∷ z ∷ w ∷ ws) a b c h = absurd (omega arith)

abbrev started : ℕ → ℕ → Mouse → Mouse
started t1 b1 s = record s {
  packet_index = 1;
  last_byte_tick = t1;
  packet_bytes = set s.packet_bytes 0 b1;
}

first_byte :
    (t1 b1 : ℕ) (s : Mouse)
    → next_index t1 s ≡ 0
    → bit_and b1 0x08 ≢ 0
    → mouse_irq_handler t1 b1 s ≡ started t1 b1 s
unfolding mouse_irq_handler
first_byte t1 b1 s start sync =
    let marked : (bit_and b1 8 == 0) ≡ false = ground arith in rw (start, marked) refl

second_byte :
    (t1 b1 t2 b2 : ℕ) (s : Mouse)
    → t1 ≤ t2
    → t2 ≤ t1 + 20
    → t2 < 2 ^ 64
    → mouse_irq_handler t2 b2 (started t1 b1 s) ≡ record s {
      packet_index = 2;
      last_byte_tick = t2;
      packet_bytes = set (set s.packet_bytes 0 b1) 1 b2;
    }
unfolding mouse_irq_handler
second_byte t1 b1 t2 b2 s h1 h2 h3 =
    let in_time : ltb 20 ((t2 + 2 ^ 64 - t1) % 2 ^ 64) ≡ false = ground arith in rw in_time refl

third_byte :
    (b1 t2 b2 t3 b3 : ℕ) (s : Mouse)
    → length s.packet_bytes ≡ 3
    → t2 ≤ t3
    → t3 ≤ t2 + 20
    → t3 < 2 ^ 64
    → mouse_irq_handler t3 b3 (record s {
      packet_index = 2;
      last_byte_tick = t2;
      packet_bytes = set (set s.packet_bytes 0 b1) 1 b2;
    })
      ≡ report t3 b1 b2 b3 s
unfolding mouse_irq_handler apply_packet
third_byte b1 t2 b2 t3 b3 s len h1 h2 h3 =
    let in_time : ltb 20 ((t3 + 2 ^ 64 - t2) % 2 ^ 64) ≡ false = ground arith in
    rw (in_time, three_places s.packet_bytes b1 b2 b3 len) refl

-- Three bytes at most 20 ticks apart, the first with bit 3 set, that begin where no packet is open
-- or where the open one is more than 20 ticks old, are one report: the signed movements are added
-- to the sums, the buttons are those of the first byte, and each button that was up before is
-- added to the pressed ones; the next byte begins a packet.
pub mouse_irq_handler-packet :
    (t1 b1 t2 b2 t3 b3 : ℕ) (s : Mouse)
    → length s.packet_bytes ≡ 3
    → next_index t1 s ≡ 0
    → bit_and b1 0x08 ≢ 0
    → t1 ≤ t2
    → t2 ≤ t1 + 20
    → t2 ≤ t3
    → t3 ≤ t2 + 20
    → t3 < 2 ^ 64
    → packet t1 b1 t2 b2 t3 b3 s ≡ report t3 b1 b2 b3 s
mouse_irq_handler-packet t1 b1 t2 b2 t3 b3 s len start sync h1 h2 h3 h4 h5 =
    rw (first_byte t1 b1 s start sync, second_byte t1 b1 t2 b2 s h1 h2 (omega arith))
      (third_byte b1 t2 b2 t3 b3 s len h3 h4 h5)

-- A byte leaves at most two bytes of an unfinished packet behind, so that the next one lies in the
-- array of three, whose size stays.
pub mouse_irq_handler-bounds :
    (tick b : ℕ) (s : Mouse)
    → s.packet_index < 3
    → length s.packet_bytes ≡ 3
    → ((mouse_irq_handler tick b s).packet_index < 3)
      × (length (mouse_irq_handler tick b s).packet_bytes ≡ 3)
unfolding mouse_irq_handler apply_packet
mouse_irq_handler-bounds tick b s h len =
    ground (arith, length-set s.packet_bytes (next_index tick s) b)
