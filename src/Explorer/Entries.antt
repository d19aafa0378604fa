-- ===== src/Explorer/Entries.antt =====
-- kernel/explorer.c, `EntryLess` and `SortEntries`: the order of the entries.
use bloom_os.Prelude.{ℕ, ◌≡◌, refl, true, false, List, [], ◌∷◌, arith, length}
use bloom_os.Ui.{ui_compare_names}
use bloom_os.Explorer.{
  FileEntry, Explorer, extension_of, entry_less, less_at, entry_at, sort_entries,
}
use bloom_os.Explorer.Sort.Order.{IsOrder, sort_order-IsOrder}

ui_compare_names-swap :
    (a b : List ℕ)
    → ((ui_compare_names b a).0 ≡ (ui_compare_names a b).1)
      × ((ui_compare_names b a).1 ≡ (ui_compare_names a b).0)
unfolding ui_compare_names
ui_compare_names-swap [] [] = (refl, refl)
ui_compare_names-swap [] (y ∷ b) = (refl, refl)
ui_compare_names-swap (x ∷ a) [] = (refl, refl)
ui_compare_names-swap (x ∷ a) (y ∷ b) =
    let rest = ui_compare_names-swap a b in ground (arith, rest.0, rest.1)

entry_less-asym :
    (mode : ℕ) (a b : FileEntry) → entry_less mode a b ≡ true → entry_less mode b a ≡ false
unfolding entry_less
entry_less-asym mode a b h =
    let names = ui_compare_names-swap a.name b.name in
    let types = ui_compare_names-swap (extension_of a.name) (extension_of b.name) in
    ground (arith, names.0, names.1, types.0, types.1)

-- `SortEntries`: the order has each entry of the folder once, and no entry stands next behind one
-- that it goes before, by `EntryLess`, whichever way of sorting is chosen.
pub sort_entries-IsOrder :
    (s : Explorer) → IsOrder (less_at s) (length s.entries) (sort_entries s).order
unfolding sort_entries
sort_entries-IsOrder s =
    sort_order-IsOrder (less_at s)
      (λ a b h. entry_less-asym s.sort_mode (entry_at s.entries a) (entry_at s.entries b) h)
      (length s.entries)
