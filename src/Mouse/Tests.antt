-- ===== src/Mouse/Tests.antt =====
-- kernel/mouse.c: the theorems at a concrete packet.
use bloom_os.Prelude.{◌<◌, ◌≡◌, refl, false, [], ◌∷◌, length, arith}
use bloom_os.Mouse.{Mouse, mouse_irq_handler}
use bloom_os.Mouse.Packets.{packet, report, mouse_irq_handler-packet, mouse_irq_handler-bounds}

-- A packet that was broken off after two bytes at tick 100.
abbrev broken_off : Mouse
broken_off = record {
  accum_dx = 5;
  accum_dy = 0;
  mouse_buttons = 0;
  pressed_latch = 2;
  last_button_state = 0;
  mouse_data_ready = false;
  packet_bytes = 8 ∷ 1 ∷ 1 ∷ [];
  packet_index = 2;
  last_byte_tick = 100;
}

mouse_irq_handler-packet_example :
    packet 200 0x19 201 0xFE 203 7 broken_off ≡ report 203 0x19 0xFE 7 broken_off
mouse_irq_handler-packet_example =
    mouse_irq_handler-packet 200 0x19 201 0xFE 203 7 broken_off refl refl (λ e. omega (arith, e))
      (omega arith) (omega arith) (omega arith) (omega arith) (omega arith)

mouse_irq_handler-bounds_example :
    ((mouse_irq_handler 110 9 broken_off).packet_index < 3)
    × (length (mouse_irq_handler 110 9 broken_off).packet_bytes ≡ 3)
mouse_irq_handler-bounds_example = mouse_irq_handler-bounds 110 9 broken_off (omega arith) refl
