-- ===== src/Klog/Numbers.antt =====
-- kernel/klog.c: the log keeps what fits, and the numbers in it can be read back.
use Prim.{tt}
use bloom_os.Prelude.{
  append_nil, append_assoc, take_all, ℕ, zero, suc, ◌+◌, ◌-◌, ◌*◌, ◌/◌, ◌%◌, ◌^◌, ◌≤◌, ◌<◌, ◌≡◌,
  All, get_or, false, refl, sym, ap, List, [], ◌∷◌, ◌++◌, ltb, ◌==◌, if◌then◌else◌, length,
  length-append, take, arith, ◌∙◌, ltb→lt, Bool-cases, inl, inr,
}
use bloom_os.Klog.{put_char, klog, decimal_from, uint_text, klog_uint}

take_full {ℓ} :
    {A : Type ℓ} (n : ℕ) (xs ys : List A) → n ≤ length xs → take n (xs ++ ys) ≡ take n xs
take_full zero xs ys h = refl
take_full (suc n) [] ys h = absurd (omega arith)
take_full (suc n) (x ∷ xs) ys h = ap (λ t. x ∷ t) (take_full n xs ys (omega arith))

put_char-fits : (c : ℕ) (log : List ℕ) → length log < 16383 → put_char c log ≡ log ++ (c ∷ [])
unfolding put_char
put_char-fits c log h = ground arith

put_char-full : (c : ℕ) (log : List ℕ) → 16383 ≤ length log → put_char c log ≡ log
unfolding put_char
put_char-full c log h = ground arith

-- `KLog` appends a text to a log of at most 16383 characters and keeps of it what fits in 16383
-- characters, so that the terminating zero has its place.
pub klog_lem : (s log : List ℕ) → length log ≤ 16383 → klog s log ≡ take 16383 (log ++ s)
unfolding klog
klog_lem [] log h = sym (rw (append_nil log) (take_all 16383 log h))
klog_lem (c ∷ s) log h = elim (Bool-cases (ltb (length log) 16383)) [
  | inl e ↦
      let room = ltb→lt (length log) 16383 e in
      rw (put_char-fits c log room) (
        rw (← append_assoc log (c ∷ []) s)
          (klog_lem s (log ++ (c ∷ [])) (omega (arith, length-append log (c ∷ []), room))))
  | inr e ↦
      let full : 16383 ≤ length log = ground arith in
      rw (put_char-full c log full)
        (klog_lem s log h ∙ take_full 16383 log s full ∙ sym (take_full 16383 log (c ∷ s) full))
]

-- The value of a digit character, and of a text of digits behind the value read so far.
abbrev pub digit_value : ℕ → ℕ
digit_value c = if ltb c b'a' then c - b'0' else c - b'a' + 10

abbrev pub value_of : ℕ → ℕ → List ℕ → ℕ
value_of base value [] = value
value_of base value (d ∷ ds) = value_of base (value * base + digit_value d) ds

-- A decimal digit.
abbrev pub IsDigit : ℕ → Type 0
IsDigit c = (b'0' ≤ c) × (c ≤ b'9')

decimal_from_lem :
    (place value : ℕ) (text : List ℕ)
    → value < 10 ^ place
    → (value_of 10 0 (decimal_from place value text) ≡ value_of 10 value text)
      × (length (decimal_from place value text) ≤ place + length text)
unfolding decimal_from
decimal_from_lem zero value text h =
    let value_zero : value ≡ 0 = omega arith in (rw value_zero refl, omega arith)
decimal_from_lem (suc place) value text h =
    let here : value / 10 * 10 + digit_value (b'0' + value % 10) ≡ value = ground (arith) in
    let rest = decimal_from_lem place (value / 10) ((b'0' + value % 10) ∷ text) (omega arith) in
    elim (Bool-cases (value == 0)) [
      | inl e ↦ let value_zero : value ≡ 0 = ground arith in rw (e, value_zero) (refl, omega arith)
      | inr e ↦ rw e (rest.0 ∙ ap (λ v. value_of 10 v text) here, omega (arith, rest.1))
    ]

decimal_from_zero : (place : ℕ) (text : List ℕ) → decimal_from place 0 text ≡ text
unfolding decimal_from
decimal_from_zero zero text = refl
decimal_from_zero (suc place) text = refl

decimal_from_digits :
    (place value : ℕ) (text : List ℕ)
    → All IsDigit text
    → All IsDigit (decimal_from place value text)
unfolding decimal_from
decimal_from_digits zero value text digits = digits
decimal_from_digits (suc place) value text digits =
    let rest =
      decimal_from_digits place (value / 10) ((b'0' + value % 10) ∷ text)
        ((omega arith, omega arith), digits) in
    elim (Bool-cases (value == 0)) [ inl e ↦ rw e digits | inr e ↦ rw e rest ]

-- The first digit of a number that is not 0 is not 0.
decimal_from_first :
    (place value : ℕ) (text : List ℕ)
    → value < 10 ^ place
    → 0 < value
    → b'0' < get_or (decimal_from place value text) 0 0
unfolding decimal_from
decimal_from_first zero value text h positive = absurd (omega arith)
decimal_from_first (suc place) value text h positive =
    let next : List ℕ = (b'0' + value % 10) ∷ text in
    let some_digit : (value == 0) ≡ false = ground arith in
    elim (Bool-cases (value / 10 == 0)) [
      | inl e ↦
          let last : value / 10 ≡ 0 = ground arith in
          rw (some_digit, last, decimal_from_zero place next) (omega arith)
      | inr e ↦
          rw some_digit (decimal_from_first place (value / 10) next (omega arith) (ground arith))
    ]

-- `KLogUInt` appends the decimal notation of the 64-bit number: at most 20 decimal digits that have
-- its value, the first of them not 0, and a single 0 for the number 0. Where the log is nearly full it
-- appends their first part.
pub klog_uint_lem :
    (value : ℕ) (log : List ℕ)
    → value < 2 ^ 64
    → length log ≤ 16383
    → (klog_uint value log ≡ take 16383 (log ++ uint_text value))
      × (value_of 10 0 (uint_text value) ≡ value)
      × (length (uint_text value) ≤ 20)
      × All IsDigit (uint_text value)
      × (0 < value → b'0' < get_or (uint_text value) 0 0)
      × (value ≡ 0 → uint_text value ≡ b'0' ∷ [])
unfolding klog_uint uint_text
klog_uint_lem value log h hl = elim (Bool-cases (value == 0)) [
  | inl e ↦
      let value_zero : value ≡ 0 = ground arith in
      rw value_zero (
        klog_lem _ log hl,
        refl,
        omega arith,
        ((omega arith, omega arith), tt),
        λ positive. omega arith,
        λ _. refl,
      )
  | inr e ↦
      let digits = decimal_from_lem 20 value [] (omega arith) in
      rw e (
        klog_lem (decimal_from 20 value []) log hl,
        digits.0,
        omega (arith, digits.1),
        decimal_from_digits 20 value [] tt,
        decimal_from_first 20 value [] (omega arith),
        λ z. absurd (ground arith),
      )
]
