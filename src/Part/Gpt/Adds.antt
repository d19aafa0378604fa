-- ===== src/Part/Gpt/Adds.antt =====
-- kernel/part.c, `ScanGpt`: the entries that it adds are those that it counts.
use bloom_os.Prelude.{
  ℕ, zero, suc, ◌+◌, ◌-◌, ◌*◌, ◌%◌, ◌^◌, ◌≡◌, refl, Bool, true, false, List, Option, none, some,
  leb, arith, Bool-cases, Option-cases, inl, inr, if◌then◌else◌, drop,
}
use bloom_os.Block.{Table}
use bloom_os.Part.{Scan, add_part, read_native}
use bloom_os.Part.Names.{scheme_gpt}
use bloom_os.Part.Adds.{Adds, Adds-nothing, Adds-trans, add_part-Adds, as_count}
use bloom_os.Part.Gpt.{
  Pass, entry_range, with_guid, add_range, gpt_entries, gpt_sectors, gpt_valid, scan_header,
  scan_gpt,
}

module _ (t : Table) (device ratio : ℕ) (s0 : Scan) where
  abbrev Counts : Pass → Type 0
  Counts pass = Adds device s0 pass.found pass.scan

  counted :
      (ok : Bool) (found : ℕ) (s' : Scan)
      → Adds device s0 (found + as_count ok) s'
      → Counts (
          if ok
          then record { full = false; found = found + 1; scan = s' }
          else record { full = true; found = found; scan = s' })
  counted true found s' a = a
  counted false found s' a = rw (← same) a
    where
      same : found + 0 ≡ found
      same = omega arith

  add_range-Adds :
      (number : ℕ) (range : Option (ℕ × ℕ × List ℕ)) (found : ℕ) (s : Scan)
      → Adds device s0 found s
      → Counts (add_range t device ratio number range found s)
  unfolding add_range
  add_range-Adds number none found s a = a
  add_range-Adds number (some (first, last, guid)) found s a =
      let r =
        add_part t device number (first * ratio % 2 ^ 64)
          ((last - first + 1) % 2 ^ 64 * ratio % 2 ^ 64) scheme_gpt (with_guid guid) s in
      counted r.0 found r.1 (
        Adds-trans device found (as_count r.0) s0 s r.1 a
          (add_part-Adds t device number _ _ scheme_gpt (with_guid guid) s (λ p. refl)))

  module _ (entry_count entry_size : ℕ) where
    gpt_entries-Adds :
        (n e index : ℕ) (table : List ℕ) (found : ℕ) (s : Scan)
        → Adds device s0 found s
        → Counts (gpt_entries t device ratio entry_count entry_size n e index table found s)
    unfolding gpt_entries
    gpt_entries-Adds zero e index table found s a = a
    gpt_entries-Adds (suc n) e index table found s a =
        let pass =
          add_range t device ratio (index + 1) (entry_range (drop (e * entry_size) table)) found
            s in
        let more =
          add_range-Adds (index + 1) (entry_range (drop (e * entry_size) table)) found s a in
        elim (Bool-cases (leb entry_count index)) [
          | inl b ↦ rw (gpt_entries, b) a
          | inr b ↦ elim (Bool-cases pass.full) [
            | inl f ↦ rw (gpt_entries, b, f) more
            | inr f ↦
                rw (gpt_entries, b, f)
                  (gpt_entries-Adds n (e + 1) (index + 1) table pass.found pass.scan more)
          ]
        ]

    gpt_sectors-Adds :
        (n i per_sector entries_lba found : ℕ) (s : Scan)
        → Adds device s0 found s
        → Counts
            (gpt_sectors t device ratio entry_count entry_size n i per_sector entries_lba found s)
    unfolding gpt_sectors
    gpt_sectors-Adds zero i per_sector entries_lba found s a = a
    gpt_sectors-Adds (suc n) i per_sector entries_lba found s a =
        elim (Option-cases (read_native t device ((entries_lba + i) % 2 ^ 64) ratio)) [
          | inl e ↦ rw (gpt_sectors, e) a
          | inr (table, e) ↦
              let pass =
                gpt_entries t device ratio entry_count entry_size per_sector 0 (i * per_sector)
                  table found s in
              let more = gpt_entries-Adds per_sector 0 (i * per_sector) table found s a in
              elim (Bool-cases pass.full) [
                | inl f ↦ rw (gpt_sectors, e, f) more
                | inr f ↦
                    rw (gpt_sectors, e, f)
                      (gpt_sectors-Adds n (i + 1) per_sector entries_lba pass.found pass.scan more)
              ]
        ]

pub scan_gpt-Adds :
    (t : Table) (device ratio : ℕ) (s : Scan)
    → Adds device s (scan_gpt t device ratio s).0 (scan_gpt t device ratio s).1
unfolding scan_gpt scan_header
scan_gpt-Adds t device ratio s =
    let nothing = Adds-nothing device s s refl refl in
    elim (Option-cases (read_native t device 1 ratio)) [
      | inl e ↦ rw (scan_gpt, e) nothing
      | inr (h, e) ↦ elim (Bool-cases (gpt_valid t device ratio h)) [
        | inr v ↦ rw (scan_gpt, e, v) nothing
        | inl v ↦ rw (scan_gpt, e, v) (gpt_sectors-Adds t device ratio s _ _ _ 0 _ _ 0 s nothing)
      ]
    ]
