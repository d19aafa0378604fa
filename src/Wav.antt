-- ===== src/Wav.antt =====
-- kernel/wav.c: the header of a WAVE file and the conversion of its samples to 16-bit stereo. The
-- file is the function that `FsRead` is on it, from an offset and a length to the bytes read; the
-- structure that the parser fills is returned beside the status.
pub mod Header
pub mod Fuel
pub mod Ends
mod Tests
use bloom_os.Prelude.{
  ℕ, zero, suc, ◌+◌, ◌-◌, ◌*◌, ◌/◌, ◌%◌, ◌^◌, Bool, true, false, not, ◌&&◌, ◌||◌, List, [], ◌∷◌,
  ◌++◌, ltb, leb, ◌==◌, if◌then◌else◌, length, drop,
}
use bloom_os.Prelude.Bytes.{byte_at, le16, le32}
use bloom_os.Prelude.Int.{ℤ, pos, negsuc}

abbrev pub ReadFn : Type 0
ReadFn = ℕ → ℕ → List ℕ

-- `WAV_INFO`.
pub record WavInfo : Type 0 where
  pub channels : ℕ
  pub bits_per_sample : ℕ
  pub block_align : ℕ
  pub sample_rate : ℕ
  pub data_offset : ℕ
  pub data_bytes : ℕ

abbrev pub wav_err_read : ℤ
wav_err_read = negsuc 0

abbrev pub wav_err_notwav : ℤ
wav_err_notwav = negsuc 1

abbrev pub wav_err_format : ℤ
wav_err_format = negsuc 2

abbrev pub wav_err_nodata : ℤ
wav_err_nodata = negsuc 3

-- No status of `WavParse`: the fuel of the model is used up.
abbrev pub out_of_fuel : ℤ
out_of_fuel = pos 2

pub tag_eq : List ℕ → ℕ → ℕ → ℕ → ℕ → ℕ → Bool
tag_eq p at a b c d =
    byte_at p at == a
    && (byte_at p (at + 1) == b && (byte_at p (at + 2) == c && byte_at p (at + 3) == d))

-- The format chunk: whether it is supported, and the structure after it.
pub format_fields : List ℕ → WavInfo → WavInfo
format_fields fmt info = record info {
  channels = le16 fmt 2;
  sample_rate = le32 fmt 4;
  block_align = le16 fmt 12;
  bits_per_sample = le16 fmt 14;
}

pub supported : WavInfo → Bool
supported info =
    not (info.channels == 0 || ltb 8 info.channels)
    && ((info.bits_per_sample == 8
          || (info.bits_per_sample == 16
              || (info.bits_per_sample == 24 || info.bits_per_sample == 32)))
        && info.block_align == info.channels * (info.bits_per_sample / 8))

pub parse_format : ReadFn → ℕ → ℕ → WavInfo → Bool × WavInfo
unfolding format_fields supported
parse_format read body size info =
    let want = if ltb size 40 then size else 40 in
    let fmt = read body want in
    let tag = if le16 fmt 0 == 0xFFFE && leb 26 want then le16 fmt 24 else le16 fmt 0 in
    if ltb want 16 || not (length fmt == want)
    then (false, info)
    else if not (tag == 1)
    then (false, info)
    else (supported (format_fields fmt info), format_fields fmt info)

-- The size of the samples that lie in the file, whole frames only.
abbrev pub whole_frames : ℕ → ℕ → ℕ → WavInfo → ℕ
whole_frames file_size body size info =
    let cut = if ltb (file_size - body) size then file_size - body else size in
    cut - cut % info.block_align

pub parse_data : ℕ → ℕ → ℕ → Bool → WavInfo → ℤ × WavInfo
parse_data file_size body size have_fmt info =
    if not have_fmt
    then (wav_err_format, info)
    else if whole_frames file_size body size info == 0
    then (wav_err_nodata, info)
    else (
      pos 1,
      record info { data_offset = body; data_bytes = whole_frames file_size body size info },
    )

pub finish_chunks : Bool → WavInfo → ℤ × WavInfo
finish_chunks have_fmt info = (if have_fmt then wav_err_nodata else wav_err_format, info)

-- What the rest of the loop does from an offset on.
abbrev pub Rest : Type 0
Rest = ℕ → Bool → WavInfo → ℤ × WavInfo

-- The end of a round: `if (Next <= Pos) break; Pos = Next;`.
pub after_chunk : Rest → ℕ → ℕ → Bool → WavInfo → ℤ × WavInfo
unfolding finish_chunks
after_chunk rest at next have_fmt info = elim (leb next at) [
  | true ↦ finish_chunks have_fmt info
  | false ↦ rest next have_fmt info
]

pub after_format : Rest → ℕ → ℕ → Bool × WavInfo → ℤ × WavInfo
unfolding after_chunk
after_format rest at next (good, info) = elim good [
  | true ↦ after_chunk rest at next true info
  | false ↦ (wav_err_format, info)
]

-- The next chunk behind the one at `at`; the sums are 32-bit.
abbrev pub next_chunk : ℕ → List ℕ → ℕ
next_chunk at chunk = ((at + 8) % 2 ^ 32 + le32 chunk 4 + le32 chunk 4 % 2) % 2 ^ 32

module _ (read : ReadFn) (file_size : ℕ) where
  -- A round of the loop over the chunks, on the chunk's head.
  pub chunk_of : Rest → ℕ → List ℕ → Bool → WavInfo → ℤ × WavInfo
  unfolding parse_data parse_format finish_chunks tag_eq after_format
  chunk_of rest at chunk have_fmt info = elim (tag_eq chunk 0 b'f' b'm' b't' b' ') [
    | true ↦
        after_format rest at (next_chunk at chunk)
          (parse_format read ((at + 8) % 2 ^ 32) (le32 chunk 4) info)
    | false ↦ elim (tag_eq chunk 0 b'd' b'a' b't' b'a') [
      | true ↦ parse_data file_size ((at + 8) % 2 ^ 32) (le32 chunk 4) have_fmt info
      | false ↦ after_chunk rest at (next_chunk at chunk) have_fmt info
    ]
  ]

  pub chunk_step : Rest → ℕ → Bool → WavInfo → ℤ × WavInfo
  unfolding chunk_of
  chunk_step rest at have_fmt info = elim (leb ((at + 8) % 2 ^ 32) file_size) [
    | false ↦ finish_chunks have_fmt info
    | true ↦ elim (length (read at 8) == 8) [
      | false ↦ (wav_err_read, info)
      | true ↦ chunk_of rest at (read at 8) have_fmt info
    ]
  ]

  -- The loop, on fuel; where the fuel is used up it gives a status that `WavParse` does not have.
  pub chunks : ℕ → ℕ → Bool → WavInfo → ℤ × WavInfo
  unfolding chunk_step
  chunks zero at have_fmt info = (out_of_fuel, info)
  chunks (suc fuel) at have_fmt info =
      chunk_step (λ next have info'. chunks fuel next have info') at have_fmt info

  pub wav_parse : WavInfo → ℤ × WavInfo
  unfolding tag_eq
  wav_parse info =
      let head = read 0 12 in
      if ltb file_size 12 || not (length head == 12)
      then (wav_err_notwav, info)
      else if not (tag_eq head 0 b'R' b'I' b'F' b'F') || not (tag_eq head 8 b'W' b'A' b'V' b'E')
      then (wav_err_notwav, info)
      else chunks (2 ^ 32) 12 false (record info { data_bytes = 0; data_offset = 0 })

-- `DecodeSample`: the 16-bit word of the sample; `(p[0] - 128) << 8` for 8 bits.
pub decode_sample : List ℕ → ℕ → ℕ
decode_sample p bits =
    if bits == 8
    then (byte_at p 0 + 2 ^ 16 - 128) * 2 ^ 8 % 2 ^ 16
    else if bits == 16
    then le16 p 0
    else if bits == 24
    then le16 p 1
    else le16 p 2

-- The loop of `WavConvert`, with the rounds left and the frame.
pub convert_from : WavInfo → List ℕ → ℕ → ℕ → List ℕ
unfolding decode_sample
convert_from info src zero i = []
convert_from info src (suc rounds) i =
    let frame = drop (i * info.block_align % 2 ^ 32) src in
    let left = decode_sample frame info.bits_per_sample in
    let right =
      if ltb 1 info.channels
      then decode_sample (drop (info.bits_per_sample / 8) frame) info.bits_per_sample
      else left in
    left ∷ right ∷ convert_from info src rounds (i + 1)

pub wav_convert : WavInfo → List ℕ → ℕ → List ℕ
wav_convert info src frames = convert_from info src frames 0
