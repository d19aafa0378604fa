-- ===== src/Wav/Tests.antt =====
-- kernel/wav.c: the theorems at a small file.
use bloom_os.Prelude.{ℕ, ◌+◌, ◌^◌, ◌≡◌, ◌≢◌, refl, false, List, [], ◌∷◌, take, drop}
use bloom_os.Prelude.Int.{pos}
use bloom_os.Wav.{
  ReadFn, WavInfo, wav_parse, chunks, chunk_step, chunk_of, after_chunk, after_format,
  finish_chunks, parse_data, parse_format, format_fields, supported, tag_eq, out_of_fuel,
}
use bloom_os.Wav.Header.{IsPlayable, wav_parse-IsPlayable}
use bloom_os.Wav.Ends.{chunks_end}

-- 8-bit mono at 8000 Hz, with three samples.
abbrev file : List ℕ
file =
    b'R' ∷ b'I' ∷ b'F' ∷ b'F' ∷ 39 ∷ 0 ∷ 0 ∷ 0 ∷ b'W' ∷ b'A' ∷ b'V' ∷ b'E' ∷ b'f' ∷ b'm' ∷ b't'
    ∷ b' ' ∷ 16 ∷ 0 ∷ 0 ∷ 0 ∷ 1 ∷ 0 ∷ 1 ∷ 0 ∷ 64 ∷ 31 ∷ 0 ∷ 0 ∷ 64 ∷ 31 ∷ 0 ∷ 0 ∷ 1 ∷ 0 ∷ 8 ∷ 0
    ∷ b'd' ∷ b'a' ∷ b't' ∷ b'a' ∷ 3 ∷ 0 ∷ 0 ∷ 0 ∷ 1 ∷ 2 ∷ 3 ∷ []

abbrev read_file : ReadFn
read_file offset count = take count (drop offset file)

abbrev blank : WavInfo
blank = record {
  channels = 0;
  bits_per_sample = 0;
  block_align = 0;
  sample_rate = 0;
  data_offset = 0;
  data_bytes = 0;
}

accepts_file : (wav_parse read_file 47 blank).0 ≡ pos 1
unfolding wav_parse chunks chunk_step chunk_of after_chunk after_format finish_chunks parse_data
    parse_format format_fields supported tag_eq
accepts_file = refl

wav_parse-IsPlayable_example : IsPlayable 47 (wav_parse read_file 47 blank).1
wav_parse-IsPlayable_example = wav_parse-IsPlayable read_file 47 blank accepts_file

chunks_end_example :
    ((chunks read_file 47 (2 ^ 32) 12 false blank).0 ≢ out_of_fuel)
    × (chunks read_file 47 (2 ^ 32 + 5) 12 false blank
        ≡ chunks read_file 47 (2 ^ 32) 12 false blank)
    × ((wav_parse read_file 47 blank).0 ≢ out_of_fuel)
chunks_end_example = chunks_end read_file 47 5 blank
