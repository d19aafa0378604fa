-- ===== src/Explorer/Folder.antt =====
-- kernel/explorer.c, `LoadDir`: the list that it shows.
use Prim.Native.Nat.{bit_or}
use bloom_os.Prelude.{
  ℕ, ◌<◌, refl, Bool, true, false, not, List, [], none, ◌==◌, if◌then◌else◌, arith, Bool-cases, inl,
  inr,
}
use bloom_os.Prelude.Int.{ℤ, pos, negsuc}
use bloom_os.Fat.Disk.{ReadFn}
use bloom_os.Fs.{Fs, Node, fs_resolve, fs_error_text, fs_volume_count, fs_volume_name}
use bloom_os.Ui.{ui_str_copy, ui_str_append}
use bloom_os.Explorer.{Explorer, sort_entries, item_count, clamp_scroll}
use bloom_os.Prelude.Text.{chars}
use bloom_os.Explorer.Listing.{focus_item, list_callback, list_resolved, show_list, load_dir}
use bloom_os.Explorer.Sort.Order.{IsOrder}
use bloom_os.Explorer.Entries.{sort_entries-IsOrder}
use bloom_os.Explorer.Select.{
  IsListing, IsRoomy, clamp_scroll-IsListing, focus_item-bound, fs_list_kept, list_callback-IsRoomy,
  no_entries-IsRoomy, set_error-IsListing,
}

either-IsListing :
    (b : Bool) (x y : Explorer) → IsListing x → IsListing y → IsListing (if b then x else y)
either-IsListing true x y p q = p
either-IsListing false x y p q = q

module _ (tick : ℕ) (reads : ℕ → ReadFn) (units : List ℕ) (partitions : List (List ℕ)) where
  if_IsListing :
      (b : Bool) (x y : Bool × Explorer × Fs)
      → IsListing x.1
      → IsListing y.1
      → IsListing (if b then x else y).1
  if_IsListing true x y p q = p
  if_IsListing false x y p q = q

  list_resolved-IsRoomy :
      (rows : ℕ) (s : Explorer) (r : ℤ × Node × Fs)
      → IsRoomy rows s
      → IsRoomy rows (list_resolved tick reads units partitions s r).1
  list_resolved-IsRoomy rows s (negsuc k, node, f) h = h
  list_resolved-IsRoomy rows s (pos k, node, f) h = elim (Bool-cases (not (k == 1))) [
    | inl e ↦ rw e h
    | inr e ↦ elim (Bool-cases (not node.is_dir)) [
      | inl d ↦ rw (e, d) h
      | inr d ↦
          rw (e, d)
            (fs_list_kept list_callback (IsRoomy rows) (list_callback-IsRoomy rows) reads units f
              node s h)
    ]
  ]

  show_list-IsListing :
      (focus : List ℕ) (rows : ℕ) (r : ℤ × Explorer × Fs)
      → 0 < rows
      → IsRoomy rows r.1
      → IsListing (show_list tick reads units partitions focus r).1
  unfolding show_list sort_entries IsRoomy item_count
  show_list-IsListing focus rows (status, listed, f) some_row h =
      let sorted = sort_entries listed in
      let s : Explorer = record sorted { selected = focus_item focus sorted } in
      let bound = focus_item-bound focus sorted in
      let good =
        clamp_scroll-IsListing tick s (sort_entries-IsOrder listed) h.1 (omega (arith, h.0))
          (λ e. omega (arith, bound, e)) in
      let failed =
        λ (text : List ℕ). set_error-IsListing tick 102 text (clamp_scroll tick s) good in
      elim status
        as (λ st. IsListing (show_list tick reads units partitions focus (st, listed, f)).1) [
          | negsuc k ↦ failed (fs_error_text (negsuc k))
          | pos k ↦ elim (Bool-cases (not (k == 1))) [
            | inl e ↦ rw e (failed (fs_error_text (pos k)))
            | inr e ↦ rw e (
                either-IsListing (clamp_scroll tick s).truncated _ _
                  (set_error-IsListing tick 103 [] (clamp_scroll tick s) good) good)
          ]
        ]

-- `LoadDir`, whatever the disk holds and however the listing ends, on a screen that shows at least one
-- row: the list has at most 1024 entries, each of them once and in order; if there are items, the place
-- selected is that of one of them, else it is 0; and the list is scrolled so that this place shows.
pub load_dir-IsListing :
    (tick : ℕ) (reads : ℕ → ReadFn) (units : List ℕ) (partitions : List (List ℕ)) (focus : List ℕ)
    (scratch : Node) (s : Explorer) (f : Fs)
    → 0 < s.visible
    → IsListing (load_dir tick reads units partitions focus scratch s f).1
unfolding load_dir item_count IsOrder
load_dir-IsListing tick reads units partitions focus scratch s f some_row =
    let empty : Explorer = record s {
      entries = [];
      truncated = false;
      selected = 0;
      scroll = 0;
      row_dirty = none;
      flags = bit_or s.flags 0x1F;
    } in
    let nothing : IsListing empty = record {
      sorted = (λ k h. absurd (omega arith), λ p h. absurd (omega arith));
      few = omega arith;
      shown = record {
        chosen = λ some_item. some_item;
        empty = λ _. refl;
        above = omega arith;
        below = omega arith;
      };
    } in
    let name = ui_str_copy (fs_volume_name f (pos s.volume)) 808 in
    let input = ui_str_append (ui_str_append name (chars ":") 808) s.dir 808 in
    let r = fs_resolve reads units partitions f input scratch in
    if_IsListing tick reads units partitions (fs_volume_count f == 0) _ _
      (set_error-IsListing tick 100 [] empty nothing)
      (show_list-IsListing tick reads units partitions focus s.visible
        (list_resolved tick reads units partitions empty r) some_row
        (list_resolved-IsRoomy tick reads units partitions s.visible empty r
          (no_entries-IsRoomy s.visible empty refl refl)))
