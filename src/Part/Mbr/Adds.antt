-- ===== src/Part/Mbr/Adds.antt =====
-- kernel/part.c, `ScanMbr`: the entries that it adds are those that it counts.
use bloom_os.Prelude.{
  ℕ, zero, suc, ◌+◌, ◌*◌, ◌%◌, ◌^◌, ◌≡◌, refl, Bool, true, false, ◌||◌, List, leb, ◌==◌, arith,
  Bool-cases, Option-cases, inl, inr, if◌then◌else◌,
}
use bloom_os.Prelude.Bytes.{byte_at, le32}
use bloom_os.Block.{Table}
use bloom_os.Part.{Scan, add_part, read_native}
use bloom_os.Part.Names.{scheme_mbr}
use bloom_os.Part.Adds.{Adds, Adds-nothing, Adds-trans, add_part-Adds, as_count}
use bloom_os.Part.Mbr.{
  Pass, is_extended, with_type, after, add_entry, add_logical, is_record, scan_chain, mbr_entries,
  scan_mbr, max_ebr_chain,
}

module _ (t : Table) (device ratio : ℕ) (s0 : Scan) where
  abbrev Counts : Pass → Type 0
  Counts pass = Adds device s0 pass.found pass.scan

  after-Adds :
      (logical : ℕ) (pass : Pass) (r : Bool × Scan)
      → Adds device s0 (pass.found + as_count r.0) r.1
      → Counts (after logical pass r)
  after-Adds logical pass (true, s') a = a
  after-Adds logical pass (false, s') a = rw (← same) a
    where
      same : pass.found + 0 ≡ pass.found
      same = omega arith

  add_entry-Adds :
      (number logical kind start count : ℕ) (pass : Pass)
      → Counts pass
      → Counts (add_entry t device ratio number logical kind start count pass)
  unfolding add_entry
  add_entry-Adds number logical kind start count pass a =
      let r =
        add_part t device number (start * ratio % 2 ^ 64) (count * ratio) scheme_mbr
          (with_type kind) pass.scan in
      after-Adds logical pass r (
        Adds-trans device pass.found (as_count r.0) s0 pass.scan r.1 a (
          add_part-Adds t device number (start * ratio % 2 ^ 64) (count * ratio) scheme_mbr
            (with_type kind) pass.scan (λ p. refl)))

  pick : (b : Bool) (x y : Pass) → Counts x → Counts y → Counts (if b then x else y)
  pick true x y p q = p
  pick false x y p q = q

  add_logical-Adds :
      (ebr : ℕ) (s : List ℕ) (pass : Pass)
      → Counts pass
      → Counts (add_logical t device ratio ebr s pass)
  unfolding add_logical
  add_logical-Adds ebr s pass a =
      pick (byte_at s 450 == 0 || le32 s 458 == 0) pass
        (add_entry t device ratio pass.logical (pass.logical + 1) (byte_at s 450) (ebr + le32 s 454)
          (le32 s 458) pass)
        a
        (add_entry-Adds pass.logical (pass.logical + 1) (byte_at s 450) (ebr + le32 s 454)
          (le32 s 458) pass a)

  scan_chain-Adds :
      (n ext_start ebr : ℕ) (pass : Pass)
      → Counts pass
      → Counts (scan_chain t device ratio n ext_start ebr pass)
  unfolding scan_chain
  scan_chain-Adds zero ext_start ebr pass a = a
  scan_chain-Adds (suc n) ext_start ebr pass a =
      elim (Option-cases (is_record t device ratio (read_native t device ebr ratio))) [
        | inl e ↦ rw (scan_chain, e) a
        | inr (s, e) ↦
            let pass' = add_logical t device ratio ebr s pass in
            let more = add_logical-Adds ebr s pass a in
            elim (Bool-cases (
              pass'.full
              || (byte_at s 466 == 0 || (le32 s 470 == 0 || leb (ext_start + le32 s 470) ebr)))) [
                | inl f ↦ rw (scan_chain, e, f) more
                | inr f ↦
                    rw (scan_chain, e, f)
                      (scan_chain-Adds n ext_start (ext_start + le32 s 470) pass' more)
              ]
      ]

  mbr_entries-Adds :
      (n i : ℕ) (mbr : List ℕ) (pass : Pass)
      → Counts pass
      → Counts (mbr_entries t device ratio n i mbr pass)
  unfolding mbr_entries
  mbr_entries-Adds zero i mbr pass a = a
  mbr_entries-Adds (suc n) i mbr pass a =
      let kind = byte_at mbr (446 + i * 16 + 4) in
      let start = le32 mbr (446 + i * 16 + 8) in
      let count = le32 mbr (446 + i * 16 + 12) in
      let chain = scan_chain t device ratio max_ebr_chain start start pass in
      let entry = add_entry t device ratio (i + 1) pass.logical kind start count pass in
      let inner = if is_extended kind then chain else entry in
      let pass' = if kind == 0 || count == 0 then pass else inner in
      let more : Counts pass' = pick (kind == 0 || count == 0) pass inner a (
        pick (is_extended kind) chain entry (scan_chain-Adds max_ebr_chain start start pass a)
          (add_entry-Adds (i + 1) pass.logical kind start count pass a)) in
      elim (Bool-cases pass'.full) [
        | inl f ↦ rw (mbr_entries, f) more
        | inr f ↦ rw (mbr_entries, f) (mbr_entries-Adds n (i + 1) mbr pass' more)
      ]

pub scan_mbr-Adds :
    (t : Table) (device ratio : ℕ) (mbr : List ℕ) (s : Scan)
    → Adds device s (scan_mbr t device ratio mbr s).0 (scan_mbr t device ratio mbr s).1
unfolding scan_mbr
scan_mbr-Adds t device ratio mbr s =
    mbr_entries-Adds t device ratio s 4 0 mbr
      (record { full = false; logical = 5; found = 0; scan = s })
      (Adds-nothing device s s refl refl)
