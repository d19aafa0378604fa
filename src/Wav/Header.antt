-- ===== src/Wav/Header.antt =====
-- kernel/wav.c, `WavParse`: what an accepted header promises.
use native.Mathlib.Nat.{div-add-mod, mul-mod_right}
use mathlib.Core.Path.{subst}
use bloom_os.Prelude.{
  ℕ, zero, suc, ◌+◌, ◌-◌, ◌*◌, ◌/◌, ◌%◌, ◌^◌, ◌≤◌, ◌<◌, ◌≡◌, refl, sym, ap, Bool, true, false, not,
  ◌&&◌, ◌||◌, List, ltb, leb, ◌==◌, if◌then◌else◌, length, ◌⊎◌, arith, leb→le, Bool-cases, inl, inr,
}
use bloom_os.Prelude.Bytes.{le16, le32}
use bloom_os.Prelude.Int.{ℤ, pos, negsuc}
use bloom_os.Wav.{
  ReadFn, Rest, after_chunk, after_format, chunk_of, chunk_step, next_chunk, WavInfo, tag_eq,
  supported, format_fields, parse_format, parse_data, finish_chunks, chunks, wav_parse,
  whole_frames,
}

-- A sample format that the player can convert.
pub record IsFormat (info : WavInfo) : Type 0 where
  pub some_channel : 0 < info.channels
  pub few_channels : info.channels ≤ 8
  pub width :
      (info.bits_per_sample ≡ 8)
      ⊎ (info.bits_per_sample ≡ 16)
      ⊎ (info.bits_per_sample ≡ 24)
      ⊎ (info.bits_per_sample ≡ 32)
  pub frame : info.block_align ≡ info.channels * (info.bits_per_sample / 8)

-- The samples are whole frames that lie in the file.
pub record IsPlayable (file_size : ℕ) (info : WavInfo) : Type 0 where
  pub format : IsFormat info
  pub some_data : 0 < info.data_bytes
  pub in_file : info.data_offset + info.data_bytes ≤ file_size
  pub whole : info.data_bytes % info.block_align ≡ 0

supported-IsFormat : (info : WavInfo) → supported info ≡ true → IsFormat info
unfolding supported
supported-IsFormat info h = record {
  some_channel = ground arith;
  few_channels = ground arith;
  width = ground arith;
  frame = ground arith;
}

positive : (a b : ℕ) → 0 < a → 0 < b → 0 < a * b
positive (suc a) (suc b) ha hb = omega arith
positive zero b ha hb = absurd (omega arith)
positive (suc a) zero ha hb = absurd (omega arith)

abbrev gate : Bool → Bool → WavInfo → WavInfo → Bool × WavInfo
gate a b before after =
    if a then (false, before) else if b then (false, before) else (supported after, after)

gate-IsFormat :
    (a b : Bool) (before after : WavInfo)
    → (gate a b before after).0 ≡ true
    → IsFormat (gate a b before after).1
gate-IsFormat true b before after h = ground arith
gate-IsFormat false true before after h = ground arith
gate-IsFormat false false before after h = supported-IsFormat after h

parse_format-IsFormat :
    (read : ReadFn) (body size : ℕ) (info : WavInfo)
    → (parse_format read body size info).0 ≡ true
    → IsFormat (parse_format read body size info).1
unfolding parse_format
parse_format-IsFormat read body size info h =
    let want = if ltb size 40 then size else 40 in
    let fmt = read body want in
    gate-IsFormat (ltb want 16 || not (length fmt == want))
      (not ((if le16 fmt 0 == 0xFFFE && leb 26 want then le16 fmt 24 else le16 fmt 0) == 1)) info
      (format_fields fmt info) h

-- What the loop has shown so far, and what a result promises.
abbrev Known : Bool → WavInfo → Type 0
Known have_fmt info = have_fmt ≡ true → IsFormat info

abbrev Promises : ℕ → ℤ × WavInfo → Type 0
Promises file_size r = r.0 ≡ pos 1 → IsPlayable file_size r.1

minus : ℤ → Bool
minus (pos _) = false
minus (negsuc _) = true

failure-Promises : (file_size : ℕ) (n : ℕ) (info : WavInfo) → Promises file_size (negsuc n, info)
unfolding minus
failure-Promises file_size n info h = let same : true ≡ false = ap minus h in absurd (cc)

align_pos : (info : WavInfo) → IsFormat info → 0 < info.block_align
align_pos info f = ground (arith, positive info.channels (info.bits_per_sample / 8) f.some_channel)

cut_whole : (cut align : ℕ) → 0 < align → (cut - cut % align) % align ≡ 0
cut_whole cut align h =
    let rest : cut - cut % align ≡ align * (cut / align) = omega (arith, div-add-mod cut align) in
    rw (rest, mul-mod_right align (cut / align)) refl

finish-Promises :
    (file_size : ℕ) (have_fmt : Bool) (info : WavInfo)
    → Promises file_size (finish_chunks have_fmt info)
unfolding finish_chunks
finish-Promises file_size true info = failure-Promises file_size 3 info
finish-Promises file_size false info = failure-Promises file_size 2 info

parse_data-Promises :
    (file_size body size : ℕ) (have_fmt : Bool) (info : WavInfo)
    → body ≤ file_size
    → Known have_fmt info
    → Promises file_size (parse_data file_size body size have_fmt info)
unfolding parse_data
parse_data-Promises file_size body size false info hb known = failure-Promises file_size 2 info
parse_data-Promises file_size body size true info hb known =
    elim (Bool-cases (whole_frames file_size body size info == 0)) [
      | inl e ↦ rw e (failure-Promises file_size 3 info)
      | inr e ↦
          let format = known refl in
          rw e (λ _. record {
            format = record {
              some_channel = format.some_channel;
              few_channels = format.few_channels;
              width = format.width;
              frame = format.frame;
            };
            some_data = ground (arith, e);
            in_file = ground (arith);
            whole =
                cut_whole (if ltb (file_size - body) size then file_size - body else size)
                  info.block_align (align_pos info format);
          })
    ]

-- The rounds that are left keep the promise where what is known carries over.
abbrev KeepsPromise : ℕ → Rest → Type 0
KeepsPromise file_size rest =
    (next : ℕ) (have_fmt : Bool) (info : WavInfo)
    → Known have_fmt info
    → Promises file_size (rest next have_fmt info)

carry : (file_size : ℕ) {r s : ℤ × WavInfo} → Promises file_size s → r ≡ s → Promises file_size r
carry file_size p e = subst (Promises file_size) (sym e) p

after_chunk-Promises :
    (file_size : ℕ) (rest : Rest) (at next : ℕ) (have_fmt : Bool) (info : WavInfo)
    → KeepsPromise file_size rest
    → Known have_fmt info
    → Promises file_size (after_chunk rest at next have_fmt info)
unfolding after_chunk
after_chunk-Promises file_size rest at next have_fmt info keeps known =
    elim (Bool-cases (leb next at)) [
      | inl e ↦ carry file_size (finish-Promises file_size have_fmt info) (rw (after_chunk, e) refl)
      | inr e ↦ carry file_size (keeps next have_fmt info known) (rw (after_chunk, e) refl)
    ]

after_format-Promises :
    (file_size : ℕ) (rest : Rest) (at next : ℕ) (r : Bool × WavInfo)
    → KeepsPromise file_size rest
    → (r.0 ≡ true → IsFormat r.1)
    → Promises file_size (after_format rest at next r)
unfolding after_format
after_format-Promises file_size rest at next (true, info) keeps known =
    after_chunk-Promises file_size rest at next true info keeps (λ _. known refl)
after_format-Promises file_size rest at next (false, info) keeps known =
    failure-Promises file_size 2 info

gate_two :
    (a b : Bool) {file_size : ℕ} {r s : ℤ × WavInfo}
    → Promises file_size r
    → Promises file_size s
    → Promises file_size (if a then r else if b then r else s)
gate_two true b p q = p
gate_two false true p q = p
gate_two false false p q = q

module _ (read : ReadFn) (file_size : ℕ) where
  chunk_of-Promises :
      (rest : Rest) (at : ℕ) (chunk : List ℕ) (have_fmt : Bool) (info : WavInfo)
      → (at + 8) % 2 ^ 32 ≤ file_size
      → KeepsPromise file_size rest
      → Known have_fmt info
      → Promises file_size (chunk_of read file_size rest at chunk have_fmt info)
  unfolding chunk_of
  chunk_of-Promises rest at chunk have_fmt info inside keeps known =
      elim (Bool-cases (tag_eq chunk 0 b'f' b'm' b't' b' ')) [
        | inl e ↦
            carry file_size
              (after_format-Promises file_size rest at (next_chunk at chunk)
                (parse_format read ((at + 8) % 2 ^ 32) (le32 chunk 4) info) keeps
                (parse_format-IsFormat read ((at + 8) % 2 ^ 32) (le32 chunk 4) info))
              (rw (chunk_of, e) refl)
        | inr e ↦ elim (Bool-cases (tag_eq chunk 0 b'd' b'a' b't' b'a')) [
          | inl f ↦
              carry file_size
                (parse_data-Promises file_size ((at + 8) % 2 ^ 32) (le32 chunk 4) have_fmt info
                  inside known)
                (rw (chunk_of, e, f) refl)
          | inr f ↦
              carry file_size
                (after_chunk-Promises file_size rest at (next_chunk at chunk) have_fmt info keeps
                  known)
                (rw (chunk_of, e, f) refl)
        ]
      ]

  chunk_step-Promises :
      (rest : Rest) (at : ℕ) (have_fmt : Bool) (info : WavInfo)
      → KeepsPromise file_size rest
      → Known have_fmt info
      → Promises file_size (chunk_step read file_size rest at have_fmt info)
  unfolding chunk_step
  chunk_step-Promises rest at have_fmt info keeps known =
      elim (Bool-cases (leb ((at + 8) % 2 ^ 32) file_size)) [
        | inr e ↦
            carry file_size (finish-Promises file_size have_fmt info) (rw (chunk_step, e) refl)
        | inl e ↦ elim (Bool-cases (length (read at 8) == 8)) [
          | inr f ↦ carry file_size (failure-Promises file_size 0 info) (rw (chunk_step, e, f) refl)
          | inl f ↦
              carry file_size
                (chunk_of-Promises rest at (read at 8) have_fmt info (leb→le _ _ e) keeps known)
                (rw (chunk_step, e, f) refl)
        ]
      ]

  chunks-Promises :
      (fuel : ℕ) → KeepsPromise file_size (λ at have info. chunks read file_size fuel at have info)
  unfolding chunks
  chunks-Promises zero at have_fmt info known = λ h. cc
  chunks-Promises (suc fuel) at have_fmt info known =
      chunk_step-Promises (λ next have info'. chunks read file_size fuel next have info') at
        have_fmt info (chunks-Promises fuel) known

  -- Where `WavParse` returns 1, the format is one that the player converts, of 1 to 8 channels and 8,
  -- 16, 24 or 32 bits, and the samples are one or more whole frames that lie in the file.
  pub wav_parse-IsPlayable :
      (info : WavInfo)
      → (wav_parse read file_size info).0 ≡ pos 1
      → IsPlayable file_size (wav_parse read file_size info).1
  unfolding wav_parse
  wav_parse-IsPlayable info = gate_two _ _ (failure-Promises file_size 1 info) (
      chunks-Promises (2 ^ 32) 12 false (record info { data_bytes = 0; data_offset = 0 })
        (λ h. absurd cc))
