-- ===== src/Klog/Hex.antt =====
-- kernel/klog.c, `KLogHex`: the hexadecimal notation of a number.
use Prim.{tt}
use bloom_os.Prelude.{
  ℕ, zero, suc, ◌+◌, ◌-◌, ◌*◌, ◌/◌, ◌%◌, ◌^◌, ◌≤◌, ◌<◌, ◌≡◌, ◌≢◌, All, get_or, ◌⊎◌, refl, ap, ◌||◌,
  List, [], ◌∷◌, ltb, length, arith, ◌∙◌, Bool-cases, inl, inr,
}
use bloom_os.Klog.{hex_digit, hex_from, hex_text}
use bloom_os.Klog.Numbers.{digit_value, value_of, IsDigit}

abbrev pub IsHexDigit : ℕ → Type 0
IsHexDigit c = IsDigit c ⊎ ((b'a' ≤ c) × (c ≤ b'f'))

digit_back : (value : ℕ) → value / 16 * 16 + digit_value (hex_digit (value % 16)) ≡ value
digit_back value = ground arith

hex_from_lem :
    (place value min_digits : ℕ) (text : List ℕ)
    → value < 16 ^ place
    → place ≤ 16
    → length text + place ≡ 16
    → min_digits ≤ 16
    → (value_of 16 0 (hex_from place value min_digits text) ≡ value_of 16 value text)
      × (length (hex_from place value min_digits text) ≤ 16)
      × (min_digits ≤ length (hex_from place value min_digits text))
unfolding hex_from
hex_from_lem zero value min_digits text h hp hl hm =
    let value_zero : value ≡ 0 = omega arith in (rw value_zero refl, omega arith, omega arith)
hex_from_lem (suc place) value min_digits text h hp hl hm =
    let here : value / 16 * 16 + digit_value (hex_digit (value % 16)) ≡ value = digit_back value in
    let rest =
      hex_from_lem place (value / 16) min_digits (hex_digit (value % 16) ∷ text) (omega arith)
        (omega arith) (omega arith) hm in
    elim (Bool-cases (ltb 0 (value / 16) || ltb (16 - place) min_digits)) [
      | inl e ↦ rw e (rest.0 ∙ ap (λ v. value_of 16 v text) here, rest.1, rest.2)
      | inr e ↦
          let last : 0 * 16 + digit_value (hex_digit (value % 16)) ≡ value = ground (arith, here) in
          let enough : min_digits ≤ suc (length text) = ground arith in
          rw e (ap (λ v. value_of 16 v text) last, omega arith, enough)
    ]

hex_from_some :
    (place value min_digits : ℕ) (text : List ℕ)
    → length text < length (hex_from (suc place) value min_digits text)
unfolding hex_from
hex_from_some zero value min_digits text = ground arith
hex_from_some (suc place) value min_digits text =
    let rest = hex_from_some place (value / 16) min_digits (hex_digit (value % 16) ∷ text) in
    elim (Bool-cases (ltb 0 (value / 16) || ltb (16 - suc place) min_digits)) [
      | inl e ↦ rw (hex_from, e) (omega (arith, rest))
      | inr e ↦ rw (hex_from, e) (omega arith)
    ]

hex_digit-IsHexDigit : (nibble : ℕ) → nibble < 16 → IsHexDigit (hex_digit nibble)
hex_digit-IsHexDigit nibble h = ground arith

hex_from_digits :
    (place value min_digits : ℕ) (text : List ℕ)
    → All IsHexDigit text
    → All IsHexDigit (hex_from place value min_digits text)
unfolding hex_from
hex_from_digits zero value min_digits text digits = digits
hex_from_digits (suc place) value min_digits text digits =
    let next : All IsHexDigit (hex_digit (value % 16) ∷ text) =
      (hex_digit-IsHexDigit (value % 16) (omega arith), digits) in
    let rest = hex_from_digits place (value / 16) min_digits (hex_digit (value % 16) ∷ text) next in
    elim (Bool-cases (ltb 0 (value / 16) || ltb (16 - place) min_digits)) [
      | inl e ↦ rw e rest
      | inr e ↦ rw e next
    ]

-- A text of more digits than were asked for does not begin with 0.
hex_from_first :
    (place value min_digits : ℕ) (text : List ℕ)
    → value < 16 ^ place
    → place ≤ 16
    → length text + place ≡ 16
    → min_digits ≤ 16
    → (length text ≡ 0) ⊎ ((0 < value) ⊎ (length text < min_digits))
    → 1 < length (hex_from place value min_digits text)
    → min_digits < length (hex_from place value min_digits text)
    → get_or (hex_from place value min_digits text) 0 0 ≢ b'0'
unfolding hex_from
hex_from_first zero value min_digits text h hp hl hm goes_on = λ two more. absurd (omega arith)
hex_from_first (suc place) value min_digits text h hp hl hm goes_on =
    let next : List ℕ = hex_digit (value % 16) ∷ text in
    let rest =
      hex_from_first place (value / 16) min_digits next (omega arith) (omega arith) (omega arith)
        hm in
    elim (Bool-cases (ltb 0 (value / 16) || ltb (16 - place) min_digits)) [
      | inl e ↦ rw e (rest (ground arith))
      | inr e ↦ rw e (λ two more. ground arith)
    ]

-- The text of `KLogHex` behind the prefix is the hexadecimal notation of the 64-bit number: at least
-- the digits asked for, where these are at most 16, at least one and at most 16, each of `0` to `9`
-- or `a` to `f`, which have the number as value; where there are more than one and more than were
-- asked for, the first is not 0.
pub hex_text_lem :
    (value min_digits : ℕ)
    → value < 2 ^ 64
    → min_digits ≤ 16
    → (value_of 16 0 (hex_text value min_digits) ≡ value)
      × (length (hex_text value min_digits) ≤ 16)
      × (min_digits ≤ length (hex_text value min_digits))
      × (0 < length (hex_text value min_digits))
      × All IsHexDigit (hex_text value min_digits)
      × (1 < length (hex_text value min_digits)
          → min_digits < length (hex_text value min_digits)
          → get_or (hex_text value min_digits) 0 0 ≢ b'0')
unfolding hex_text
hex_text_lem value min_digits h hm =
    let notation =
      hex_from_lem 16 value min_digits [] (omega arith) (omega arith) (omega arith) hm in
    (
      notation.0,
      notation.1,
      notation.2,
      hex_from_some 15 value min_digits [],
      hex_from_digits 16 value min_digits [] tt,
      hex_from_first 16 value min_digits [] (omega arith) (omega arith) (omega arith) hm (inl refl),
    )
