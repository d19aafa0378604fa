-- ===== src/Keyboard.antt =====
-- kernel/keyboard.c: the PS/2 keyboard. The interrupt handler turns scancodes into keys, which wait
-- in a ring of 256 places. The static variables are the record `Keyboard`; the bytes that the
-- handler reads from the ports are its arguments, and the bytes that it writes to the ports are a
-- result. The waiting for the controller in `WaitInputBufferEmpty` is left out.
pub mod Ring
pub mod Handler
mod Tests
use Prim.Native.Nat.{bit_and, bit_or}
use bloom_os.Prelude.{
  ℕ, zero, suc, ◌+◌, ◌-◌, ◌*◌, ◌/◌, ◌%◌, Bool, true, false, not, ◌&&◌, ◌||◌, List, [], ◌∷◌, Option,
  none, some, ltb, leb, ◌==◌, if◌then◌else◌, get_or, set,
}

abbrev pub key_buffer_size : ℕ
key_buffer_size = 256

abbrev pub key_up : ℕ
key_up = 257

abbrev pub key_down : ℕ
key_down = 258

abbrev pub key_left : ℕ
key_left = 259

abbrev pub key_right : ℕ
key_right = 260

abbrev pub key_home : ℕ
key_home = 261

abbrev pub key_end : ℕ
key_end = 262

abbrev pub key_delete : ℕ
key_delete = 263

abbrev pub key_pgup : ℕ
key_pgup = 264

abbrev pub key_pgdn : ℕ
key_pgdn = 265

pub record Keyboard : Type 0 where
  pub key_buffer : List ℕ
  pub head : ℕ
  pub tail : ℕ
  pub shift_held : Bool
  pub ctrl_held : Bool
  pub alt_held : Bool
  pub extended_prefix : Bool
  pub caps_lock_on : Bool
  pub num_lock_on : Bool
  pub scroll_lock_on : Bool

-- `ScancodeToAscii` and `ScancodeToAsciiShift`, whose last entries are zero.
abbrev pub scancode_to_ascii : List ℕ
scancode_to_ascii =
    0 ∷ 27 ∷ 49 ∷ 50 ∷ 51 ∷ 52 ∷ 53 ∷ 54 ∷ 55 ∷ 56 ∷ 57 ∷ 48 ∷ 45 ∷ 61 ∷ 8 ∷ 9 ∷ 113 ∷ 119 ∷ 101
    ∷ 114 ∷ 116 ∷ 121 ∷ 117 ∷ 105 ∷ 111 ∷ 112 ∷ 91 ∷ 93 ∷ 10 ∷ 0 ∷ 97 ∷ 115 ∷ 100 ∷ 102 ∷ 103 ∷ 104
    ∷ 106 ∷ 107 ∷ 108 ∷ 59 ∷ 39 ∷ 96 ∷ 0 ∷ 92 ∷ 122 ∷ 120 ∷ 99 ∷ 118 ∷ 98 ∷ 110 ∷ 109 ∷ 44 ∷ 46 ∷ 47
    ∷ 0 ∷ 42 ∷ 0 ∷ 32 ∷ 0 ∷ 0 ∷ 0 ∷ 0 ∷ 0 ∷ 0 ∷ 0 ∷ 0 ∷ 0 ∷ 0 ∷ 0 ∷ 0 ∷ 0 ∷ 55 ∷ 56 ∷ 57 ∷ 45 ∷ 52
    ∷ 53 ∷ 54 ∷ 43 ∷ 49 ∷ 50 ∷ 51 ∷ 48 ∷ 46 ∷ 0 ∷ 0 ∷ 0 ∷ 0 ∷ []

abbrev pub scancode_to_ascii_shift : List ℕ
scancode_to_ascii_shift =
    0 ∷ 27 ∷ 33 ∷ 64 ∷ 35 ∷ 36 ∷ 37 ∷ 94 ∷ 38 ∷ 42 ∷ 40 ∷ 41 ∷ 95 ∷ 43 ∷ 8 ∷ 9 ∷ 81 ∷ 87 ∷ 69 ∷ 82
    ∷ 84 ∷ 89 ∷ 85 ∷ 73 ∷ 79 ∷ 80 ∷ 123 ∷ 125 ∷ 10 ∷ 0 ∷ 65 ∷ 83 ∷ 68 ∷ 70 ∷ 71 ∷ 72 ∷ 74 ∷ 75 ∷ 76
    ∷ 58 ∷ 34 ∷ 126 ∷ 0 ∷ 124 ∷ 90 ∷ 88 ∷ 67 ∷ 86 ∷ 66 ∷ 78 ∷ 77 ∷ 60 ∷ 62 ∷ 63 ∷ 0 ∷ 42 ∷ 0 ∷ 32
    ∷ 0 ∷ 0 ∷ 0 ∷ 0 ∷ 0 ∷ 0 ∷ 0 ∷ 0 ∷ 0 ∷ 0 ∷ 0 ∷ 0 ∷ 0 ∷ 55 ∷ 56 ∷ 57 ∷ 45 ∷ 52 ∷ 53 ∷ 54 ∷ 43 ∷ 49
    ∷ 50 ∷ 51 ∷ 48 ∷ 46 ∷ 0 ∷ 0 ∷ 0 ∷ 0 ∷ []

-- A byte written to a port.
abbrev pub Write : Type 0
Write = ℕ × ℕ

abbrev bit_if : Bool → ℕ → ℕ
bit_if b m = if b then m else 0

pub update_leds : Keyboard → List Write
update_leds s =
    (0x60, 0xED)
    ∷ (0x60, bit_if s.scroll_lock_on 1 + (bit_if s.num_lock_on 2 + bit_if s.caps_lock_on 4))
    ∷ []

pub push_char : ℕ → Keyboard → Keyboard
push_char c s =
    let next = (s.head + 1) % key_buffer_size in
    if next == s.tail then s else record s { key_buffer = set s.key_buffer s.head c; head = next }

abbrev pub push_option : Option ℕ → Keyboard → Keyboard
push_option none s = s
push_option (some c) s = push_char c s

-- The `switch` on the code behind the prefix: the key that it pushes.
pub extended_key : ℕ → Option ℕ
extended_key code =
    if code == 0x48
    then some key_up
    else if code == 0x50
    then some key_down
    else if code == 0x4B
    then some key_left
    else if code == 0x4D
    then some key_right
    else if code == 0x47
    then some key_home
    else if code == 0x4F
    then some key_end
    else if code == 0x53
    then some key_delete
    else if code == 0x49
    then some key_pgup
    else if code == 0x51
    then some key_pgdn
    else if code == 0x1C
    then some 10
    else if code == 0x35
    then some b'/'
    else none

-- The handler behind the prefix 0xE0.
pub extended : Bool → ℕ → Keyboard → Keyboard
extended released code s =
    if code == 0x1D
    then record s { extended_prefix = false; ctrl_held = not released }
    else if code == 0x38
    then record s { extended_prefix = false; alt_held = not released }
    else if released
    then record s { extended_prefix = false }
    else push_option (extended_key code) (record s { extended_prefix = false })

abbrev pub is_lower : ℕ → Bool
is_lower c = leb b'a' c && leb c b'z'

abbrev pub is_upper : ℕ → Bool
is_upper c = leb b'A' c && leb c b'Z'

abbrev pub with_caps : Bool → ℕ → ℕ
with_caps caps c =
    if caps && is_lower c
    then c - b'a' + b'A'
    else if caps && is_upper c
    then c - b'A' + b'a'
    else c

-- The end of the handler: the key that it pushes for a character of the tables.
pub key_for : Keyboard → ℕ → Option ℕ
key_for s plain =
    let ascii = with_caps s.caps_lock_on plain in
    if plain == 0
    then none
    else if s.ctrl_held && (not s.alt_held && (is_lower ascii || is_upper ascii))
    then some (bit_or ascii 0x20 - b'a' + 1)
    else if s.ctrl_held || s.alt_held
    then none
    else some ascii

pub ascii_key : Keyboard → ℕ → Option ℕ
ascii_key s code =
    key_for s (get_or (if s.shift_held then scancode_to_ascii_shift else scancode_to_ascii) code 0)

-- The handler without a prefix: the state after it and what it writes.
pub plain_code : Bool → ℕ → Keyboard → List Write × Keyboard
plain_code released code s =
    let caps = record s { caps_lock_on = not s.caps_lock_on } in
    let num = record s { num_lock_on = not s.num_lock_on } in
    let scroll = record s { scroll_lock_on = not s.scroll_lock_on } in
    if code == 0x2A || code == 0x36
    then ([], record s { shift_held = not released })
    else if code == 0x1D
    then ([], record s { ctrl_held = not released })
    else if code == 0x38
    then ([], record s { alt_held = not released })
    else if released
    then ([], s)
    else if code == 0x3A
    then (update_leds caps, caps)
    else if code == 0x45
    then (update_leds num, num)
    else if code == 0x46
    then (update_leds scroll, scroll)
    else ([], push_option (ascii_key s code) s)

-- `KeyboardIrqHandler` on the bytes in the status port and in the data port.
pub keyboard_irq_handler : ℕ → ℕ → Keyboard → List Write × Keyboard
unfolding extended plain_code
keyboard_irq_handler status scancode s =
    if not (bit_and status 0x20 == 0)
    then ([], s)
    else if scancode == 0xE0
    then ([], record s { extended_prefix = true })
    else if s.extended_prefix
    then ([], extended (leb 0x80 scancode) (scancode % 0x80) s)
    else plain_code (leb 0x80 scancode) (scancode % 0x80) s

-- `KeyboardGetKey`: 0 where no key waits.
pub keyboard_get_key : Keyboard → ℕ × Keyboard
keyboard_get_key s =
    if s.tail == s.head
    then (0, s)
    else (get_or s.key_buffer s.tail 0, record s { tail = (s.tail + 1) % key_buffer_size })

-- `KeyboardGetChar`: a key beyond a byte is taken out and lost.
pub keyboard_get_char : Keyboard → ℕ × Keyboard
keyboard_get_char s =
    let (key, s') = keyboard_get_key s in if key == 0 || ltb 0xFF key then (0, s') else (key, s')

pub keyboard_caps_lock : Keyboard → Bool
keyboard_caps_lock s = s.caps_lock_on

pub keyboard_num_lock : Keyboard → Bool
keyboard_num_lock s = s.num_lock_on

pub keyboard_scroll_lock : Keyboard → Bool
keyboard_scroll_lock s = s.scroll_lock_on
