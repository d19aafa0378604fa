-- ===== src/Part/Device/Frame.antt =====
-- kernel/part.c, `PartScanDevice`: what a scan changes.
use Prim.{tt}
use bloom_os.Prelude.{
  ℕ, ◌≡◌, refl, sym, ap, ◌∙◌, Bool, true, false, not, ◌||◌, List, Option, none, some, leb, ◌==◌,
  arith, Bool-cases, inl, inr, if◌then◌else◌, ◌⊎◌, set, get_or, length, ◌<◌, get_or-set_self,
  append_nil, ◌++◌, [], All,
}
use bloom_os.Prelude.Bytes.{byte_at}
use bloom_os.Prelude.Int.{pos}
use bloom_os.Block.{Table, block_read_from, block_size_512, block_device_count}
use bloom_os.Fat.Boot.{fat_boot_sector_valid}
use bloom_os.Part.{Scan, add_part, max_scanned}
use bloom_os.Part.Names.{Part, scheme_raw}
use bloom_os.Part.Adds.{Adds, Adds-nothing, add_part-Adds, as_count}
use bloom_os.Part.Gpt.{scan_gpt}
use bloom_os.Part.Gpt.Adds.{scan_gpt-Adds}
use bloom_os.Part.Mbr.Adds.{scan_mbr-Adds}
use bloom_os.Part.Device.{
  add_whole, is_protective, ratio_of, note, note_empty, scan_first, sector_for, mark_scanned,
  scan_new, part_scan_device,
}

module _ (t : Table) (device : ℕ) where
  abbrev AddsTo : Scan → ℕ × Scan → Type 0
  AddsTo s r = Adds device s r.0 r.1

  choose :
      (s : Scan) (b : Bool) (x y : ℕ × Scan)
      → AddsTo s x
      → AddsTo s y
      → AddsTo s (if b then x else y)
  choose s true x y p q = p
  choose s false x y p q = q

  note-Adds :
      (s s' : Scan) (n : ℕ) (text : List ℕ)
      → Adds device s n s'
      → Adds device s n (note t device text s')
  note-Adds s s' n text a = record {
    new = a.new;
    parts = a.parts;
    on_device = a.on_device;
    number = a.number;
    marks = a.marks;
  }

  note_empty-Adds : (s : Scan) (r : ℕ × Scan) → AddsTo s r → AddsTo s (note_empty t device r)
  unfolding note_empty
  note_empty-Adds s (found, s') a =
      choose s (found == 0) (found, note t device _ s') (found, s') (note-Adds s s' found _ a) a

  counted :
      (s : Scan) (ok : Bool) (s' : Scan)
      → Adds device s (as_count ok) s'
      → AddsTo s (if ok then (1, s') else (0, s'))
  counted s true s' a = a
  counted s false s' a = a

  add_whole-Adds : (s : Scan) → AddsTo s (add_whole t device s)
  unfolding add_whole
  add_whole-Adds s =
      let r =
        add_part t device 1 0 (block_size_512 t (pos device)) scheme_raw (λ (p : Part). p) s in
      counted s r.0 r.1 (
        add_part-Adds t device 1 0 (block_size_512 t (pos device)) scheme_raw (λ (p : Part). p) s
          (λ p. refl))

  scan_first-Adds : (first : Option (List ℕ)) (s : Scan) → AddsTo s (scan_first t device first s)
  unfolding scan_first
  scan_first-Adds none s = note-Adds s s 0 _ (Adds-nothing device s s refl refl)
  scan_first-Adds (some mbr) s = choose s (fat_boot_sector_valid mbr) _ _ (add_whole-Adds s) (
      choose s (not (byte_at mbr 510 == 0x55) || not (byte_at mbr 511 == 0xAA)) _ _
        (note-Adds s s 0 _ (Adds-nothing device s s refl refl))
        (choose s (is_protective t device mbr) _ _
          (note_empty-Adds s (scan_gpt t device (ratio_of t device) s)
            (scan_gpt-Adds t device (ratio_of t device) s))
          (scan_mbr-Adds t device (ratio_of t device) mbr s)))

-- The outcome of a scan: as many entries as it returns are added behind the old ones, all of the
-- device; only the device may become marked, and only a scan that found something surely marks it.
-- After such a scan another one returns 0 and changes nothing.
pub record Outcome (t : Table) (device : ℕ) (s : Scan) (r : ℕ × Scan) : Type 0 where
  pub new : List Part
  pub parts : r.1.parts ≡ s.parts ++ new
  pub on_device : All (λ p. p.device ≡ device) new
  pub number : length new ≡ r.0
  pub marks : ((r.0 ≡ 0) × (r.1.scanned ≡ s.scanned)) ⊎ (r.1.scanned ≡ set s.scanned device true)
  pub again : 0 < r.0 → part_scan_device t (pos device) r.1 ≡ (0, r.1)

sector_for-same :
    (t : Table) (device : ℕ) (s : Scan)
    → ((sector_for t device s).1.parts ≡ s.parts) × ((sector_for t device s).1.scanned ≡ s.scanned)
unfolding sector_for
sector_for-same t device s = ground arith

refuses_marked :
    (t : Table) (device : ℕ) (s : Scan)
    → get_or s.scanned device false ≡ true
    → part_scan_device t (pos device) s ≡ (0, s)
unfolding part_scan_device
refuses_marked t device s e = ground arith

without_new :
    (t : Table) (device : ℕ) (s s' : Scan)
    → s'.parts ≡ s.parts
    → s'.scanned ≡ s.scanned
    → Outcome t device s (0, s')
without_new t device s s' p m = record {
  new = [];
  parts = p ∙ sym (append_nil s.parts);
  on_device = tt;
  number = refl;
  marks = inl (refl, m);
  again = λ h. absurd (omega arith);
}

scan_new_lem :
    (t : Table) (device : ℕ) (s : Scan)
    → device < length s.scanned
    → Outcome t device s (scan_new t device s)
unfolding scan_new
scan_new_lem t device s inside =
    let same = sector_for-same t device s in
    let s' = (sector_for t device s).1 in
    elim (Bool-cases (sector_for t device s).0) [
      | inr e ↦ rw (scan_new, e) (without_new t device s s' same.0 same.1)
      | inl e ↦
          let marked = mark_scanned t device s' in
          let a = scan_first-Adds t device (block_read_from t (pos device) 0 1) marked in
          let marks : (scan_first t device (block_read_from t (pos device) 0 1) marked).1.scanned
              ≡ set s.scanned device true =
            a.marks ∙ ap (λ l. set l device true) same.1 in
          rw (scan_new, e)
            (record {
              new = a.new;
              parts = a.parts ∙ ap (λ l. l ++ a.new) same.0;
              on_device = a.on_device;
              number = a.number;
              marks = inr marks;
              again = λ _. refuses_marked t device _ (
                  ap (λ l. get_or l device false) marks
                  ∙ get_or-set_self s.scanned device true false inside);
            })
    ]

-- `PartScanDevice` on any device, whatever its sectors hold: the partitions that it returns the
-- number of are added behind the old ones and belong to the device, and no other device is marked.
-- A device that gave partitions is not scanned again: the next call returns 0 and changes nothing.
pub part_scan_device_lem :
    (t : Table) (device : ℕ) (s : Scan)
    → length s.scanned ≡ 256
    → Outcome t device s (part_scan_device t (pos device) s)
unfolding part_scan_device
part_scan_device_lem t device s size =
    elim (Bool-cases (
      leb max_scanned device
      || (leb (block_device_count t) device || get_or s.scanned device false))) [
        | inl e ↦ rw (part_scan_device, e) (without_new t device s s refl refl)
        | inr e ↦
            let inside : device < length s.scanned = ground arith in
            rw (part_scan_device, e) (scan_new_lem t device s inside)
      ]
