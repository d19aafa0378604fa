-- ===== src/Explorer/Select.antt =====
-- kernel/explorer.c: what is selected and shown of the entries.
use Prim.Native.Nat.{bit_and}
use bloom_os.Prelude.{
  ℕ, zero, suc, ◌+◌, ◌-◌, ◌≤◌, ◌<◌, ◌≡◌, false, not, ◌&&◌, List, [], ◌∷◌, ◌++◌, ltb, leb, ◌==◌,
  arith, Bool-cases, Option-cases, get_elem?, length-append, inl, inr, length,
}
use bloom_os.Fat.Disk.{ReadFn}
use bloom_os.Fat.File.{Entry}
use bloom_os.Fat.Dir.{Callback}
use bloom_os.Fat.Dir.Lookup.{fat_list_dir_kept}
use bloom_os.Fs.{Fs, Node, fs_list}
use bloom_os.Ui.{ui_str_equal}
use bloom_os.Explorer.{
  FileEntry, Explorer, less_at, item_count, item_entry, set_error, set_message, scroll_to,
  clamp_scroll,
}
use bloom_os.Prelude.Text.{chars}
use bloom_os.Explorer.Listing.{
  find_item_from, find_item_by_name, focus_item, list_callback, max_entries, or_first,
}
use bloom_os.Explorer.Sort.Order.{IsOrder}

-- One of the items is selected, if there is one, and the place selected is among those that are shown.
pub record IsShown (s : Explorer) : Type 0 where
  pub chosen : 0 < item_count s → s.selected < item_count s
  pub empty : item_count s ≡ 0 → s.selected ≡ 0
  pub above : s.scroll ≤ s.selected
  pub below : s.selected < s.scroll + s.visible

pub scroll_to-IsShown :
    (s : Explorer) → s.selected ≤ item_count s - 1 → 0 < s.visible → IsShown (scroll_to s)
unfolding scroll_to item_count
scroll_to-IsShown s h v = record {
  chosen = λ some_item. omega (arith, h);
  empty = λ no_item. omega (arith, h);
  above = ground arith;
  below = ground arith;
}

pub find_item_from-bound :
    (s : Explorer) (name : List ℕ) (n i : ℕ) → or_first (find_item_from s name n i) ≤ i + n - 1
unfolding find_item_from
find_item_from-bound s name zero i = omega arith
find_item_from-bound s name (suc n) i =
    let rest = find_item_from-bound s name n (i + 1) in
    elim (Option-cases (item_entry s i)) [
      | inl e ↦ rw (find_item_from, e) (omega (arith, rest))
      | inr (x, e) ↦ elim (Bool-cases (ui_str_equal x.name name)) [
        | inl same ↦ rw (find_item_from, e, same) (omega arith)
        | inr other ↦ rw (find_item_from, e, other) (omega (arith, rest))
      ]
    ]

pub focus_item-bound : (focus : List ℕ) (s : Explorer) → focus_item focus s ≤ item_count s - 1
unfolding focus_item find_item_by_name
focus_item-bound [] s = ground arith
focus_item-bound (c ∷ focus) s = omega (arith, find_item_from-bound s (c ∷ focus) (item_count s) 0)

pub fs_list_kept :
    {C : Type 0} (callback : Callback C) (P : C → Type 0)
    (keeps : (entry : Entry) (c : C) → P c → P (callback entry c).1) (reads : ℕ → ReadFn)
    (units : List ℕ) (f : Fs) (dir : Node) (c : C)
    → P c
    → P (fs_list callback reads units f dir c).1
unfolding fs_list
fs_list_kept callback P keeps reads units f dir c p =
    elim (Option-cases (get_elem? f.volumes dir.volume)) [
      | inl e ↦ rw (fs_list, e) p
      | inr (v, e) ↦ elim (Bool-cases dir.is_dir) [
        | inr d ↦ rw (fs_list, e, d) p
        | inl d ↦
            rw (fs_list, e, d)
              (fat_list_dir_kept callback P keeps (reads v.device) units dir.entry.cluster v.fat c
                p)
      ]
    ]

-- A list of at most `max_entries` entries on a screen that shows some rows.
unfoldable pub IsRoomy : ℕ → Explorer → Type 0
IsRoomy rows s = (s.visible ≡ rows) × (length s.entries ≤ 1024)

pub added :
    (xs : List FileEntry) (x : FileEntry)
    → leb max_entries (length xs) ≡ false
    → length (xs ++ (x ∷ [])) ≤ 1024
added xs x h = ground (arith, length-append xs (x ∷ []))

pub list_callback-IsRoomy :
    (rows : ℕ) (e : Entry) (s : Explorer) → IsRoomy rows s → IsRoomy rows (list_callback e s).1
unfolding list_callback IsRoomy
list_callback-IsRoomy rows e s h =
    elim (Bool-cases (not (bit_and e.attr 6 == 0) && not s.show_hidden)) [
      | inl a ↦ rw (list_callback, a) h
      | inr a ↦ elim (Bool-cases (leb max_entries (length s.entries))) [
        | inl b ↦ rw (list_callback, a, b) h
        | inr b ↦ rw (list_callback, a, b) (h.0, added s.entries _ b)
      ]
    ]

pub no_entries-IsRoomy :
    (rows : ℕ) (s : Explorer) → s.visible ≡ rows → s.entries ≡ [] → IsRoomy rows s
unfolding IsRoomy
no_entries-IsRoomy rows s v e = (v, rw e (omega arith))

-- A list that is sorted, has at most 1024 entries, and shows the item selected.
pub record IsListing (s : Explorer) : Type 0 where
  pub sorted : IsOrder (less_at s) (length s.entries) s.order
  pub few : length s.entries ≤ 1024
  pub shown : IsShown s

pub set_error-IsListing :
    (tick code : ℕ) (text : List ℕ) (s : Explorer)
    → IsListing s
    → IsListing (set_error tick code text s)
unfolding set_error set_message item_count
set_error-IsListing tick code text s h = record {
  sorted = h.sorted;
  few = h.few;
  shown = record {
    chosen = h.shown.chosen;
    empty = h.shown.empty;
    above = h.shown.above;
    below = h.shown.below;
  };
}

pub scroll_to-IsListing :
    (s : Explorer)
    → IsOrder (less_at s) (length s.entries) s.order
    → length s.entries ≤ 1024
    → 0 < s.visible
    → s.selected ≤ item_count s - 1
    → IsListing (scroll_to s)
unfolding scroll_to
scroll_to-IsListing s o few v h = record { sorted = o; few = few; shown = scroll_to-IsShown s h v }

-- `ClampScroll` changes neither the entries nor their order.
pub clamp_scroll-IsListing :
    (tick : ℕ) (s : Explorer)
    → IsOrder (less_at s) (length s.entries) s.order
    → length s.entries ≤ 1024
    → 0 < s.visible
    → (item_count s ≡ 0 → s.selected ≡ 0)
    → IsListing (clamp_scroll tick s)
unfolding clamp_scroll set_error set_message item_count
clamp_scroll-IsListing tick s o few v empty =
    let lost : Explorer = record (set_error tick 130 (chars "selection index out of range") s) {
      selected = item_count s - 1;
    } in
    elim (Bool-cases (ltb 0 (item_count s) && leb (item_count s) s.selected)) [
      | inl e ↦ rw (clamp_scroll, e) (scroll_to-IsListing lost o few v (omega arith))
      | inr e ↦ rw (clamp_scroll, e) (scroll_to-IsListing s o few v (ground (arith, empty)))
    ]
