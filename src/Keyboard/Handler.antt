-- ===== src/Keyboard/Handler.antt =====
-- kernel/keyboard.c, `KeyboardIrqHandler`: what a scancode does to the queue.
use bloom_os.Prelude.{
  ℕ, ◌-◌, ◌%◌, ◌<◌, ◌≡◌, refl, ap, Bool, true, false, not, ◌&&◌, ◌||◌, List, [], ◌∷◌, ◌++◌, Option,
  none, some, ltb, leb, ◌==◌, if◌then◌else◌, get_or, length, arith, ◌∙◌, Bool-cases, inl, inr,
}
use Prim.Native.Nat.{bit_and, bit_or}
use bloom_os.Prelude.Bytes.{holds_upto, holds_upto_lem}
use bloom_os.Keyboard.{
  Keyboard, keyboard_irq_handler, extended, plain_code, extended_key, ascii_key, key_for,
  push_option, scancode_to_ascii, scancode_to_ascii_shift, is_lower,
}
use bloom_os.Keyboard.Ring.{IsValid, queue, IsKey, push_char_lem}

push_option-IsValid :
    (s : Keyboard) (k : Option ℕ)
    → IsValid s
    → ((c : ℕ) → k ≡ some c → IsKey c)
    → IsValid (push_option k s)
push_option-IsValid s none v h = v
push_option-IsValid s (some c) v h = (push_char_lem s c v (h c refl)).0

extended_key-IsKey : (code c : ℕ) → extended_key code ≡ some c → IsKey c
unfolding extended_key
extended_key-IsKey code c h = ground arith

key_for-IsKey : (s : Keyboard) (a c : ℕ) → key_for s a ≡ some c → IsKey c
unfolding key_for
key_for-IsKey s a c h = ground arith

ascii_key-IsKey : (s : Keyboard) (code c : ℕ) → ascii_key s code ≡ some c → IsKey c
unfolding ascii_key
ascii_key-IsKey s code c h = key_for-IsKey s _ c h

extended-IsValid :
    (released : Bool) (code : ℕ) (s : Keyboard) → IsValid s → IsValid (extended released code s)
unfolding extended
extended-IsValid released code s v = ground (
  arith,
  push_option-IsValid (record s { extended_prefix = false }) (extended_key code) v
      (extended_key-IsKey code),
)

plain_code-IsValid :
    (released : Bool) (code : ℕ) (s : Keyboard) → IsValid s → IsValid (plain_code released code s).1
unfolding plain_code
plain_code-IsValid released code s v =
    ground (arith, push_option-IsValid s (ascii_key s code) v (ascii_key-IsKey s code))

-- Any two bytes from the controller leave the ring valid: its indices stay in the array and no
-- waiting key is 0, so that the 0 of `KeyboardGetKey` can only mean that none waits.
pub keyboard_irq_handler-IsValid :
    (status scancode : ℕ) (s : Keyboard)
    → IsValid s
    → IsValid (keyboard_irq_handler status scancode s).1
unfolding keyboard_irq_handler
keyboard_irq_handler-IsValid status scancode s v = ground (
  arith,
  extended-IsValid (leb 0x80 scancode) (scancode % 0x80) s v,
  plain_code-IsValid (leb 0x80 scancode) (scancode % 0x80) s v,
)

abbrev letter : ℕ → ℕ
letter code = get_or scancode_to_ascii code 0

abbrev xor : Bool → Bool → Bool
xor a b = if a then not b else b

-- What a key for the small letter `a` should give: with Ctrl alone the control character; with Alt
-- nothing; otherwise the capital where exactly one of Shift and Caps Lock is on.
abbrev pub expected : Keyboard → ℕ → Option ℕ
expected s a =
    if s.ctrl_held && not s.alt_held
    then some (a - 96)
    else if s.alt_held
    then none
    else some (if xor s.shift_held s.caps_lock_on then a - 32 else a)

abbrev is_special : ℕ → Bool
is_special code =
    code == 0x2A
    || (code == 0x36
        || (code == 0x1D || (code == 0x38 || (code == 0x3A || (code == 0x45 || code == 0x46)))))

abbrev tables_agree : ℕ → Bool
tables_agree code =
    if is_lower (letter code)
    then (get_or scancode_to_ascii_shift code 0 == letter code - 32)
      && ((bit_or (letter code) 32 == letter code)
          && ((bit_or (letter code - 32) 32 == letter code) && not (is_special code)))
    else true

every_code : holds_upto tables_agree 128 ≡ true
unfolding holds_upto
every_code = refl

letter_facts :
    (a b : ℕ) (x : Bool)
    → is_lower a ≡ true
    → (if is_lower a
        then (b == a - 32) && ((bit_or a 32 == a) && ((bit_or (a - 32) 32 == a) && not x))
        else true)
      ≡ true
    → (b ≡ a - 32) × (bit_or a 32 ≡ a) × (bit_or (a - 32) 32 ≡ a) × (x ≡ false)
letter_facts a b x l h = ground arith

key_for-plain :
    (s : Keyboard) (a : ℕ)
    → is_lower a ≡ true
    → bit_or a 32 ≡ a
    → bit_or (a - 32) 32 ≡ a
    → s.shift_held ≡ false
    → key_for s a ≡ expected s a
unfolding key_for
key_for-plain s a l o p h = ground arith

key_for-shift :
    (s : Keyboard) (a : ℕ)
    → is_lower a ≡ true
    → bit_or a 32 ≡ a
    → bit_or (a - 32) 32 ≡ a
    → s.shift_held ≡ true
    → key_for s (a - 32) ≡ expected s a
unfolding key_for
key_for-shift s a l o p h = ground arith

ascii_key-letter :
    (s : Keyboard) (code : ℕ)
    → code < 128
    → is_lower (letter code) ≡ true
    → ascii_key s code ≡ expected s (letter code)
unfolding ascii_key
ascii_key-letter s code h l =
    let facts =
      letter_facts (letter code) _ (is_special code) l
        (holds_upto_lem tables_agree code 128 h every_code) in
    let from_table = λ (b : Bool).
      key_for s (get_or (if b then scancode_to_ascii_shift else scancode_to_ascii) code 0) in
    elim (Bool-cases s.shift_held) [
      | inl e ↦
          ap from_table e
          ∙ ap (key_for s) facts.0
          ∙ key_for-shift s (letter code) l facts.1 facts.2 e
      | inr e ↦ ap from_table e ∙ key_for-plain s (letter code) l facts.1 facts.2 e
    ]

-- The queue after a key, if there is one, comes in.
abbrev pub typed : Option ℕ → List ℕ → List ℕ
typed none keys = keys
typed (some c) keys = if ltb (length keys) 255 then keys ++ (c ∷ []) else keys

not_special :
    (code : ℕ) (s : Keyboard)
    → is_special code ≡ false
    → plain_code false code s ≡ ([], push_option (ascii_key s code) s)
unfolding plain_code
not_special code s h = ground arith

plain_letter :
    (code : ℕ) (s : Keyboard)
    → code < 128
    → is_lower (letter code) ≡ true
    → plain_code false code s ≡ ([], push_option (ascii_key s code) s)
plain_letter code s h l =
    not_special code s
      (letter_facts (letter code) _ (is_special code) l
        (holds_upto_lem tables_agree code 128 h every_code)).3

handled :
    (status code : ℕ) (s : Keyboard)
    → bit_and status 0x20 ≡ 0
    → s.extended_prefix ≡ false
    → code < 128
    → keyboard_irq_handler status code s ≡ plain_code false code s
unfolding keyboard_irq_handler
handled status code s port prefix h =
    let small : leb 0x80 code ≡ false = ground arith in
    let whole : code % 0x80 ≡ code = omega arith in
    let other : (code == 0xE0) ≡ false = ground arith in rw (port, other, prefix, small, whole) refl

queue-push_option :
    (s : Keyboard) (k : Option ℕ)
    → IsValid s
    → ((c : ℕ) → k ≡ some c → IsKey c)
    → queue (push_option k s) ≡ typed k (queue s)
queue-push_option s none v h = refl
queue-push_option s (some c) v h = (push_char_lem s c v (h c refl)).1

-- A letter key that is pressed adds to the queue, where there is room, the capital exactly where
-- one of Shift and Caps Lock is on, the control character where Ctrl is held without Alt, and
-- nothing where Alt is held; no port is written. A full queue stays as it is.
pub keyboard_irq_handler-letter :
    (status code : ℕ) (s : Keyboard)
    → IsValid s
    → bit_and status 0x20 ≡ 0
    → s.extended_prefix ≡ false
    → code < 128
    → is_lower (letter code) ≡ true
    → ((keyboard_irq_handler status code s).0 ≡ [])
      × (queue (keyboard_irq_handler status code s).1 ≡ typed (expected s (letter code)) (queue s))
keyboard_irq_handler-letter status code s v port prefix h l =
    rw (handled status code s port prefix h, plain_letter code s h l)
      (
        refl,
        rw (← ascii_key-letter s code h l)
            (queue-push_option s (ascii_key s code) v (ascii_key-IsKey s code)),
      )
