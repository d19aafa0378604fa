-- ===== src/Mouse.antt =====
-- kernel/mouse.c: the PS/2 mouse. The interrupt handler puts three bytes together to a packet; the
-- static variables are the record `Mouse`. The byte in the data port and the tick counter are the
-- handler's arguments; the start-up dialogue with the controller (`InitMouse`) is left out.
pub mod Packets
mod Tests
use Prim.Native.Nat.{bit_and, bit_or}
use bloom_os.Prelude.{
  ℕ, ◌+◌, ◌-◌, ◌*◌, ◌/◌, ◌%◌, ◌^◌, Bool, true, false, not, ◌&&◌, List, [], ◌∷◌, Option, none, some,
  ltb, leb, ◌==◌, if◌then◌else◌, set,
}
use bloom_os.Prelude.Bytes.{byte_at}

-- `AccumDx` and `AccumDy` are 32-bit integers, here the words that represent them.
pub record Mouse : Type 0 where
  pub accum_dx : ℕ
  pub accum_dy : ℕ
  pub mouse_buttons : ℕ
  pub pressed_latch : ℕ
  pub last_button_state : ℕ
  pub mouse_data_ready : Bool
  pub packet_bytes : List ℕ
  pub packet_index : ℕ
  pub last_byte_tick : ℕ

-- A byte of movement with its sign bit from the status byte, as a 32-bit word.
abbrev pub movement : Bool → ℕ → ℕ
movement negative byte = if negative then (byte + 2 ^ 32 - 256) % 2 ^ 32 else byte

-- The end of the handler: the three bytes of a packet are there.
pub apply_packet : Mouse → Mouse
apply_packet s =
    let status = byte_at s.packet_bytes 0 in
    let dx = movement (not (bit_and status 0x10 == 0)) (byte_at s.packet_bytes 1) in
    let dy = movement (not (bit_and status 0x20 == 0)) (byte_at s.packet_bytes 2) in
    record s {
      accum_dx = (s.accum_dx + dx) % 2 ^ 32;
      accum_dy = (s.accum_dy + dy) % 2 ^ 32;
      mouse_buttons = bit_and status 7;
      pressed_latch =
          bit_or s.pressed_latch (bit_and (bit_and status 7) (255 - s.last_button_state));
      last_button_state = bit_and status 7;
      mouse_data_ready = true;
    }

-- The place for the next byte: a packet that a pause of more than 20 ticks breaks is dropped.
abbrev pub next_index : ℕ → Mouse → ℕ
next_index tick s =
    if not (s.packet_index == 0) && ltb 20 ((tick + 2 ^ 64 - s.last_byte_tick) % 2 ^ 64)
    then 0
    else s.packet_index

pub mouse_irq_handler : ℕ → ℕ → Mouse → Mouse
mouse_irq_handler tick data_byte s =
    let index = next_index tick s in
    let timed = record s { packet_index = index; last_byte_tick = tick } in
    let bytes = set s.packet_bytes index data_byte in
    if index == 0 && bit_and data_byte 0x08 == 0
    then timed
    else if ltb (index + 1) 3
    then record timed { packet_bytes = bytes; packet_index = index + 1 }
    else apply_packet (record timed { packet_bytes = bytes; packet_index = 0 })

-- The movement and the buttons, where a packet has come since the last call.
pub mouse_get_delta : Mouse → Option (ℕ × ℕ × ℕ) × Mouse
mouse_get_delta s = if not s.mouse_data_ready then (none, s) else (
  some (s.accum_dx, s.accum_dy, s.mouse_buttons),
  record s { accum_dx = 0; accum_dy = 0; mouse_data_ready = false },
)

pub mouse_take_pressed : Mouse → ℕ × Mouse
mouse_take_pressed s = (s.pressed_latch, record s { pressed_latch = 0 })
