-- ===== src/Wav/Fuel.antt =====
-- kernel/wav.c, `WavParse`: the fuel of the loop over the chunks.
use bloom_os.Prelude.{
  ℕ, zero, suc, ◌+◌, ◌%◌, ◌^◌, ◌≤◌, ◌<◌, ◌≡◌, refl, Bool, true, false, List, leb, ◌==◌, length,
  arith, Bool-cases, inl, inr,
}
use bloom_os.Prelude.Bytes.{le32}
use bloom_os.Wav.{
  ReadFn, Rest, WavInfo, tag_eq, parse_format, after_chunk, after_format, next_chunk, chunk_of,
  chunk_step, chunks,
}

-- Two ways to go on that agree behind an offset.
abbrev AgreeBehind : ℕ → Rest → Rest → Type 0
AgreeBehind at f g =
    (next : ℕ) (have_fmt : Bool) (info : WavInfo)
    → at < next
    → next < 2 ^ 32
    → f next have_fmt info ≡ g next have_fmt info

after_chunk-AgreeBehind :
    (f g : Rest) (at next : ℕ) (have_fmt : Bool) (info : WavInfo)
    → AgreeBehind at f g
    → next < 2 ^ 32
    → after_chunk f at next have_fmt info ≡ after_chunk g at next have_fmt info
unfolding after_chunk
after_chunk-AgreeBehind f g at next have_fmt info agree h = elim (Bool-cases (leb next at)) [
  | inl e ↦ rw (after_chunk, e) refl
  | inr e ↦ rw (after_chunk, e) (agree next have_fmt info (ground arith) h)
]

after_format-AgreeBehind :
    (f g : Rest) (at next : ℕ) (r : Bool × WavInfo)
    → AgreeBehind at f g
    → next < 2 ^ 32
    → after_format f at next r ≡ after_format g at next r
unfolding after_format
after_format-AgreeBehind f g at next (true, info) agree h =
    after_chunk-AgreeBehind f g at next true info agree h
after_format-AgreeBehind f g at next (false, info) agree h = refl

module _ (read : ReadFn) (file_size : ℕ) where
  chunk_of-AgreeBehind :
      (f g : Rest) (at : ℕ) (chunk : List ℕ) (have_fmt : Bool) (info : WavInfo)
      → AgreeBehind at f g
      → chunk_of read file_size f at chunk have_fmt info
        ≡ chunk_of read file_size g at chunk have_fmt info
  unfolding chunk_of
  chunk_of-AgreeBehind f g at chunk have_fmt info agree =
      let word : next_chunk at chunk < 2 ^ 32 = omega arith in
      elim (Bool-cases (tag_eq chunk 0 b'f' b'm' b't' b' ')) [
        | inl e ↦
            rw (chunk_of, e)
              (after_format-AgreeBehind f g at (next_chunk at chunk)
                (parse_format read ((at + 8) % 2 ^ 32) (le32 chunk 4) info) agree word)
        | inr e ↦ elim (Bool-cases (tag_eq chunk 0 b'd' b'a' b't' b'a')) [
          | inl d ↦ rw (chunk_of, e, d) refl
          | inr d ↦
              rw (chunk_of, e, d)
                (after_chunk-AgreeBehind f g at (next_chunk at chunk) have_fmt info agree word)
        ]
      ]

  chunk_step-AgreeBehind :
      (f g : Rest) (at : ℕ) (have_fmt : Bool) (info : WavInfo)
      → AgreeBehind at f g
      → chunk_step read file_size f at have_fmt info ≡ chunk_step read file_size g at have_fmt info
  unfolding chunk_step
  chunk_step-AgreeBehind f g at have_fmt info agree =
      elim (Bool-cases (leb ((at + 8) % 2 ^ 32) file_size)) [
        | inr e ↦ rw (chunk_step, e) refl
        | inl e ↦ elim (Bool-cases (length (read at 8) == 8)) [
          | inr l ↦ rw (chunk_step, e, l) refl
          | inl l ↦
              rw (chunk_step, e, l) (chunk_of-AgreeBehind f g at (read at 8) have_fmt info agree)
        ]
      ]

  pub enough_fuel :
      (fuel more at : ℕ) (have_fmt : Bool) (info : WavInfo)
      → at < 2 ^ 32
      → 2 ^ 32 ≤ fuel + at
      → chunks read file_size (fuel + more) at have_fmt info
        ≡ chunks read file_size fuel at have_fmt info
  unfolding chunks
  enough_fuel zero more at have_fmt info small h = absurd (omega arith)
  enough_fuel (suc fuel) more at have_fmt info small h =
      let sum : suc fuel + more ≡ suc (fuel + more) = omega arith in
      rw sum (
        chunk_step-AgreeBehind (λ n h i. chunks read file_size (fuel + more) n h i)
          (λ n h i. chunks read file_size fuel n h i) at have_fmt info
          (λ next have info' behind word. enough_fuel fuel more next have info' word (omega arith)))
