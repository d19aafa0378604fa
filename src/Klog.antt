-- ===== src/Klog.antt =====
-- kernel/klog.c: the kernel's log in memory. The log is the list of the `Length` characters in
-- `Buffer`; a C string is the list of its characters.
pub mod Numbers
pub mod Hex
mod Tests
use bloom_os.Prelude.{
  ℕ, zero, suc, ◌+◌, ◌-◌, ◌/◌, ◌%◌, Bool, ◌&&◌, ◌||◌, List, [], ◌∷◌, ◌++◌, ltb, ◌==◌, if◌then◌else◌,
  length,
}

abbrev pub klog_size : ℕ
klog_size = 16384

unfoldable pub put_char : ℕ → List ℕ → List ℕ
put_char c log = if ltb (length log) (klog_size - 1) then log ++ (c ∷ []) else log

unfoldable pub klog : List ℕ → List ℕ → List ℕ
klog [] log = log
klog (c ∷ s) log = klog s (put_char c log)

-- The loop that fills `Digits` from its end, with the place reached and the text behind it; a place
-- below 0 does not occur.
unfoldable pub decimal_from : ℕ → ℕ → List ℕ → List ℕ
decimal_from zero value text = text
decimal_from (suc place) value text =
    if value == 0 then text else decimal_from place (value / 10) ((b'0' + value % 10) ∷ text)

-- The text that `KLogUInt` hands to `KLog`.
unfoldable pub uint_text : ℕ → List ℕ
uint_text value = if value == 0 then b'0' ∷ [] else decimal_from 20 value []

unfoldable pub klog_uint : ℕ → List ℕ → List ℕ
klog_uint value log = klog (uint_text value) log

abbrev pub hex_digit : ℕ → ℕ
hex_digit nibble = if ltb nibble 10 then b'0' + nibble else b'a' + nibble - 10

-- The `do` loop of `KLogHex`, with the place reached; its last test is on the place 0.
pub hex_from : ℕ → ℕ → ℕ → List ℕ → List ℕ
hex_from zero value min_digits text = text
hex_from (suc place) value min_digits text =
    let next = hex_digit (value % 16) ∷ text in
    if ltb 0 (value / 16) || ltb (16 - place) min_digits
    then hex_from place (value / 16) min_digits next
    else next

unfoldable pub hex_text : ℕ → ℕ → List ℕ
hex_text value min_digits = hex_from 16 value min_digits []

pub klog_hex : ℕ → ℕ → List ℕ → List ℕ
klog_hex value min_digits log = klog (hex_text value min_digits) (klog (b'0' ∷ b'x' ∷ []) log)

-- `KLogPci`; the texts between the numbers are ": found at ", ":", "." and " id ".
pub klog_pci : List ℕ → ℕ → ℕ → ℕ → ℕ → ℕ → List ℕ → List ℕ
klog_pci tag bus device function vendor_id device_id log =
    let found = 58 ∷ 32 ∷ 102 ∷ 111 ∷ 117 ∷ 110 ∷ 100 ∷ 32 ∷ 97 ∷ 116 ∷ 32 ∷ [] in
    let id = 32 ∷ 105 ∷ 100 ∷ 32 ∷ [] in
    let l1 = klog_hex bus 2 (klog found (klog tag log)) in
    let l2 = klog_hex device 2 (klog (b':' ∷ []) l1) in
    let l3 = klog_uint function (klog (b'.' ∷ []) l2) in
    let l4 = klog_hex vendor_id 4 (klog id l3) in
    klog (10 ∷ []) (klog_hex device_id 4 (klog (b':' ∷ []) l4))

-- `KLogText`: the string in the buffer.
pub klog_text : List ℕ → List ℕ
klog_text log = log
