-- ===== src/Wav/Ends.antt =====
-- kernel/wav.c, `WavParse`: the end of the loop over the chunks.
use mathlib.Core.Path.{subst}
use bloom_os.Prelude.{
  ◌≢◌, sym, if◌then◌else◌, not, ◌||◌, ltb, ℕ, zero, suc, ◌+◌, ◌%◌, ◌^◌, ◌≤◌, ◌<◌, ◌≡◌, refl, Bool,
  true, false, List, leb, ◌==◌, length, arith, Bool-cases, inl, inr,
}
use bloom_os.Prelude.Bytes.{le32}
use bloom_os.Prelude.Int.{ℤ, negsuc}
use bloom_os.Wav.{
  ReadFn, Rest, WavInfo, tag_eq, parse_format, parse_data, whole_frames, finish_chunks, after_chunk,
  after_format, next_chunk, chunk_of, chunk_step, chunks, wav_parse, out_of_fuel, wav_err_notwav,
}
use bloom_os.Wav.Fuel.{enough_fuel}

-- A result that comes before the fuel is used up.
Returns : ℤ × WavInfo → Type 0
Returns r = r.0 ≢ out_of_fuel

-- A way to go on that returns from the offsets behind one.
abbrev ReturnsBehind : ℕ → Rest → Type 0
ReturnsBehind at rest =
    (next : ℕ) (have_fmt : Bool) (info : WavInfo)
    → at < next
    → next < 2 ^ 32
    → Returns (rest next have_fmt info)

carry : {r s : ℤ × WavInfo} → Returns s → r ≡ s → Returns r
carry p e = subst Returns (sym e) p

failure-Returns : (n : ℕ) (info : WavInfo) → Returns (negsuc n, info)
unfolding Returns
failure-Returns n info h = cc

gate_two :
    (a b : Bool) (r s : ℤ × WavInfo)
    → Returns r
    → Returns s
    → Returns (if a then r else if b then r else s)
gate_two true b r s p q = p
gate_two false true r s p q = p
gate_two false false r s p q = q

finish_chunks-Returns : (have_fmt : Bool) (info : WavInfo) → Returns (finish_chunks have_fmt info)
unfolding finish_chunks
finish_chunks-Returns true info = failure-Returns 3 info
finish_chunks-Returns false info = failure-Returns 2 info

parse_data-Returns :
    (file_size body size : ℕ) (have_fmt : Bool) (info : WavInfo)
    → Returns (parse_data file_size body size have_fmt info)
unfolding parse_data Returns
parse_data-Returns file_size body size false info = failure-Returns 2 info
parse_data-Returns file_size body size true info =
    elim (Bool-cases (whole_frames file_size body size info == 0)) [
      | inl e ↦ rw e (failure-Returns 3 info)
      | inr e ↦ rw e (λ h. cc)
    ]

after_chunk-Returns :
    (rest : Rest) (at next : ℕ) (have_fmt : Bool) (info : WavInfo)
    → ReturnsBehind at rest
    → next < 2 ^ 32
    → Returns (after_chunk rest at next have_fmt info)
unfolding after_chunk
after_chunk-Returns rest at next have_fmt info returns h = elim (Bool-cases (leb next at)) [
  | inl e ↦ carry (finish_chunks-Returns have_fmt info) (rw (after_chunk, e) refl)
  | inr e ↦ carry (returns next have_fmt info (ground arith) h) (rw (after_chunk, e) refl)
]

after_format-Returns :
    (rest : Rest) (at next : ℕ) (r : Bool × WavInfo)
    → ReturnsBehind at rest
    → next < 2 ^ 32
    → Returns (after_format rest at next r)
unfolding after_format
after_format-Returns rest at next (true, info) returns h =
    after_chunk-Returns rest at next true info returns h
after_format-Returns rest at next (false, info) returns h = failure-Returns 2 info

module _ (read : ReadFn) (file_size : ℕ) where
  chunk_of-Returns :
      (rest : Rest) (at : ℕ) (chunk : List ℕ) (have_fmt : Bool) (info : WavInfo)
      → ReturnsBehind at rest
      → Returns (chunk_of read file_size rest at chunk have_fmt info)
  unfolding chunk_of
  chunk_of-Returns rest at chunk have_fmt info returns =
      let word : next_chunk at chunk < 2 ^ 32 = omega arith in
      let size = le32 chunk 4 in
      elim (Bool-cases (tag_eq chunk 0 b'f' b'm' b't' b' ')) [
        | inl e ↦
            carry
              (after_format-Returns rest at (next_chunk at chunk)
                (parse_format read ((at + 8) % 2 ^ 32) size info) returns word)
              (rw (chunk_of, e) refl)
        | inr e ↦ elim (Bool-cases (tag_eq chunk 0 b'd' b'a' b't' b'a')) [
          | inl d ↦
              carry (parse_data-Returns file_size ((at + 8) % 2 ^ 32) size have_fmt info)
                (rw (chunk_of, e, d) refl)
          | inr d ↦
              carry (after_chunk-Returns rest at (next_chunk at chunk) have_fmt info returns word)
                (rw (chunk_of, e, d) refl)
        ]
      ]

  chunks-Returns :
      (fuel at : ℕ) (have_fmt : Bool) (info : WavInfo)
      → at < 2 ^ 32
      → 2 ^ 32 ≤ fuel + at
      → Returns (chunks read file_size fuel at have_fmt info)
  unfolding chunks chunk_step
  chunks-Returns zero at have_fmt info small h = absurd (omega arith)
  chunks-Returns (suc fuel) at have_fmt info small h =
      let rest : Rest = λ next have info'. chunks read file_size fuel next have info' in
      let returns =
        chunk_of-Returns rest at (read at 8) have_fmt info
          (λ next have info' behind word. chunks-Returns fuel next have info' word (omega arith)) in
      elim (Bool-cases (leb ((at + 8) % 2 ^ 32) file_size)) [
        | inr e ↦ carry (finish_chunks-Returns have_fmt info) (rw (chunk_step, e) refl)
        | inl e ↦ elim (Bool-cases (length (read at 8) == 8)) [
          | inr l ↦ carry (failure-Returns 0 info) (rw (chunk_step, e, l) refl)
          | inl l ↦ carry returns (rw (chunk_step, e, l) refl)
        ]
      ]

  -- The loop over the chunks, which `WavParse` starts at the offset 12, ends after at most 2 ^ 32
  -- rounds, whatever the file holds: it returns before the fuel is used up, and more fuel changes
  -- nothing of what it returns. So `WavParse` returns too.
  pub chunks_end :
      (more : ℕ) (info : WavInfo)
      → ((chunks read file_size (2 ^ 32) 12 false info).0 ≢ out_of_fuel)
        × (chunks read file_size (2 ^ 32 + more) 12 false info
            ≡ chunks read file_size (2 ^ 32) 12 false info)
        × ((wav_parse read file_size info).0 ≢ out_of_fuel)
  unfolding wav_parse Returns
  chunks_end more info =
      let cleared : WavInfo = record info { data_bytes = 0; data_offset = 0 } in
      (
        chunks-Returns (2 ^ 32) 12 false info (omega arith) (omega arith),
        enough_fuel read file_size (2 ^ 32) more 12 false info (omega arith) (omega arith),
        gate_two (ltb file_size 12 || not (length (read 0 12) == 12))
            (not (tag_eq (read 0 12) 0 b'R' b'I' b'F' b'F')
              || not (tag_eq (read 0 12) 8 b'W' b'A' b'V' b'E'))
            (wav_err_notwav, info) (chunks read file_size (2 ^ 32) 12 false cleared)
            (failure-Returns 1 info)
            (chunks-Returns (2 ^ 32) 12 false cleared (omega arith) (omega arith)),
      )
