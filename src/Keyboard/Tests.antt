-- ===== src/Keyboard/Tests.antt =====
-- kernel/keyboard.c: the theorems at concrete keys.
use Prim.{tt}
use bloom_os.Prelude.{
  ℕ, ◌<◌, ◌≡◌, refl, true, false, List, [], ◌∷◌, replicate, arith, ◌⊎◌, if◌then◌else◌, ltb, length,
  ◌++◌,
}
use bloom_os.Keyboard.{Keyboard, push_char, keyboard_get_key, keyboard_irq_handler}
use bloom_os.Keyboard.Ring.{IsValid, queue, push_char_lem, keyboard_get_key_lem}
use bloom_os.Keyboard.Handler.{
  keyboard_irq_handler-IsValid, keyboard_irq_handler-letter, typed, expected,
}

-- Caps Lock is on, and one key waits in the last place of the ring.
abbrev board : Keyboard
board = record {
  key_buffer = replicate 256 7;
  head = 0;
  tail = 255;
  shift_held = false;
  ctrl_held = false;
  alt_held = false;
  extended_prefix = false;
  caps_lock_on = true;
  num_lock_on = false;
  scroll_lock_on = false;
}

board-IsValid : IsValid board
board-IsValid = record {
  size = refl;
  head_bound = omega arith;
  tail_bound = omega arith;
  keys = (omega arith, tt);
}

push_char_lem_example :
    IsValid (push_char 65 board)
    × (queue (push_char 65 board)
        ≡ (if ltb (length (queue board)) 255 then queue board ++ (65 ∷ []) else queue board))
push_char_lem_example = push_char_lem board 65 board-IsValid (omega arith)

keyboard_get_key_lem_example :
    ((queue board ≡ []) × (keyboard_get_key board ≡ (0, board)))
    ⊎ ((k : ℕ) × (rest : List ℕ) × (queue board ≡ k ∷ rest)
        × (0 < k)
        × ((keyboard_get_key board).0 ≡ k)
        × (queue (keyboard_get_key board).1 ≡ rest)
        × IsValid (keyboard_get_key board).1)
keyboard_get_key_lem_example = keyboard_get_key_lem board board-IsValid

keyboard_irq_handler-IsValid_example : IsValid (keyboard_irq_handler 1 0x1E board).1
keyboard_irq_handler-IsValid_example = keyboard_irq_handler-IsValid 1 0x1E board board-IsValid

keyboard_irq_handler-letter_example :
    ((keyboard_irq_handler 1 0x1E board).0 ≡ [])
    × (queue (keyboard_irq_handler 1 0x1E board).1 ≡ typed (expected board b'a') (queue board))
keyboard_irq_handler-letter_example =
    keyboard_irq_handler-letter 1 0x1E board board-IsValid refl refl (omega arith) refl
