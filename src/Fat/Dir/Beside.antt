-- ===== src/Fat/Dir/Beside.antt =====
-- kernel/fat32.c, `FatLookup`: its loop over records beside that of a listing.
use Prim.{tt}
use mathlib.Core.Path.{subst}
use bloom_os.Prelude.{
  ℕ, zero, suc, ◌+◌, ◌*◌, ◌≡◌, refl, sym, ap, Bool, true, false, List, [], ◌∷◌, ◌++◌, Option, none,
  some, Bool-cases, inl, inr, take, drop, All, append_assoc, ◌∙◌,
}
use bloom_os.Fat.File.{Entry}
use bloom_os.Fat.Dir.{
  Callback, LongName, Shown, the_end, hidden, shown, Turn, returned, goes_on, show_record,
  list_records, lookup_callback,
}
use bloom_os.Fat.Dir.Names.{names_equal}
use bloom_os.Fat.Dir.Same.{SameName, names_equal-SameName, SameName-names_equal}
use bloom_os.Fat.Dir.Lookup.{context, list_records_kept}

-- A callback that keeps every entry and never says stop.
abbrev pub collect : Callback (List Entry)
collect entry entries = (false, entries ++ (entry ∷ []))

-- The entry, if there is one, is the first of the entries that has the name; else none has it.
abbrev pub IsFirst : List ℕ → Option Entry → List Entry → Type 0
IsFirst name none entries = All (λ e. ¬ SameName e.name name) entries
IsFirst name (some e) entries =
    SameName e.name name
    × ((before : List Entry) × (after : List Entry) × (entries ≡ before ++ (e ∷ after))
        × All (λ e. ¬ SameName e.name name) before)

module _ (name : List ℕ) where
  abbrev pub Unmatched : List Entry → Type 0
  Unmatched entries = All (λ e. ¬ SameName e.name name) entries

  Unmatched-append :
      (xs : List Entry) (entry : Entry)
      → Unmatched xs
      → ¬ SameName entry.name name
      → Unmatched (xs ++ (entry ∷ []))
  Unmatched-append [] entry u n = (n, tt)
  Unmatched-append (x ∷ xs) entry u n = (u.0, Unmatched-append xs entry u.1 n)

  -- More entries behind the first that has the name.
  pub collect-IsFirst :
      (found entry : Entry) (xs : List Entry)
      → IsFirst name (some found) xs
      → IsFirst name (some found) (collect entry xs).1
  collect-IsFirst found entry xs (same, (before, after, e, u)) = (
    same,
    (
      before,
      after ++ (entry ∷ []),
      ap (λ ys. ys ++ (entry ∷ [])) e ∙ append_assoc before (found ∷ after) (entry ∷ []),
      u,
    ),
  )

  -- How a loop of the look-up goes beside the same loop of the listing.
  unfoldable pub Beside : Turn (Option Entry) → Turn (List Entry) → Type 0
  Beside (goes_on l none) (goes_on l' xs) = (l ≡ l') × Unmatched xs
  Beside (goes_on l none) (returned b xs) = ⊥
  Beside (goes_on l (some e)) t = ⊥
  Beside (returned b none) (returned b' xs) = Unmatched xs
  Beside (returned b none) (goes_on l xs) = ⊥
  Beside (returned b (some e)) t = IsFirst name (some e) (context t)

  -- What the rest of the listing adds leaves the first entry the first.
  abbrev pub KeepsFirst : (LongName → List Entry → List Entry) → Type 0
  KeepsFirst rest =
      (e : Entry) (l : LongName) (xs : List Entry)
      → IsFirst name (some e) xs
      → IsFirst name (some e) (rest l xs)

  record-Beside :
      (s : Shown) (rest : LongName → Option Entry → Turn (Option Entry))
      (rest' : LongName → List Entry → Turn (List Entry)) (xs : List Entry)
      → Unmatched xs
      → ((l : LongName) (ys : List Entry) → Unmatched ys → Beside (rest l none) (rest' l ys))
      → KeepsFirst (λ l ys. context (rest' l ys))
      → Beside
          (elim s as (λ _. Turn (Option Entry)) [
            | the_end ↦ returned true none
            | hidden l ↦ rest l none
            | shown l entry ↦
                elim (lookup_callback name entry none).0 as (λ _. Turn (Option Entry)) [
                  | true ↦ returned true (lookup_callback name entry none).1
                  | false ↦ rest l (lookup_callback name entry none).1
                ]
          ])
          (elim s as (λ _. Turn (List Entry)) [
            | the_end ↦ returned true xs
            | hidden l ↦ rest' l xs
            | shown l entry ↦ rest' l (xs ++ (entry ∷ []))
          ])
  unfolding lookup_callback Beside
  record-Beside the_end rest rest' xs u go keep = u
  record-Beside (hidden l) rest rest' xs u go keep = go l xs u
  record-Beside (shown l entry) rest rest' xs u go keep =
      let called : Bool × Option Entry → Type 0 = λ r.
        Beside
          (elim r.0 as (λ _. Turn (Option Entry)) [ true ↦ returned true r.1 | false ↦ rest l r.1 ])
          (rest' l (xs ++ (entry ∷ []))) in
      elim (Bool-cases (names_equal entry.name name)) [
        | inl e ↦
            let stops : lookup_callback name entry none ≡ (true, some entry) = rw e refl in
            subst called (sym stops) (
              keep entry l (xs ++ (entry ∷ []))
                (names_equal-SameName entry.name name e, (xs, [], refl, u)))
        | inr e ↦
            let goes : lookup_callback name entry none ≡ (false, none) = rw e refl in
            let other : ¬ SameName entry.name name =
              λ same. let h = SameName-names_equal entry.name name same in cc in
            subst called (sym goes) (go l (xs ++ (entry ∷ [])) (Unmatched-append xs entry u other))
      ]

  pub list_records-Beside :
      (n e : ℕ) (buffer : List ℕ) (l : LongName) (xs : List Entry)
      → Unmatched xs
      → Beside
          (list_records (lookup_callback name) n e buffer l none)
          (list_records collect n e buffer l xs)
  unfolding list_records Beside
  list_records-Beside zero e buffer l xs u = (refl, u)
  list_records-Beside (suc n) e buffer l xs u =
      record-Beside (show_record (take 32 (drop (e * 32) buffer)) l)
        (λ l' c. list_records (lookup_callback name) n (e + 1) buffer l' c)
        (λ l' c. list_records collect n (e + 1) buffer l' c) xs u
        (λ l' ys. list_records-Beside n (e + 1) buffer l' ys)
        (λ found l' ys.
          list_records_kept collect (IsFirst name (some found)) (collect-IsFirst found) n (e + 1)
            buffer l' ys)

  pub turn-Beside :
      (t : Turn (Option Entry)) (t' : Turn (List Entry))
      (rest : LongName → Option Entry → Turn (Option Entry))
      (rest' : LongName → List Entry → Turn (List Entry))
      → Beside t t'
      → ((l : LongName) (ys : List Entry) → Unmatched ys → Beside (rest l none) (rest' l ys))
      → KeepsFirst (λ l ys. context (rest' l ys))
      → Beside
          (elim t as (λ _. Turn (Option Entry)) [
            | returned b c ↦ returned b c
            | goes_on l c ↦ rest l c
          ])
          (elim t' as (λ _. Turn (List Entry)) [
            | returned b c ↦ returned b c
            | goes_on l c ↦ rest' l c
          ])
  unfolding Beside
  turn-Beside (goes_on l none) (goes_on l' xs) rest rest' (same, u) go keep =
      subst (λ k. Beside (rest l none) (rest' k xs)) same (go l xs u)
  turn-Beside (goes_on l none) (returned b' xs) rest rest' u go keep = absurd u
  turn-Beside (goes_on l (some e)) t rest rest' u go keep = absurd u
  turn-Beside (returned b none) (goes_on l' xs) rest rest' u go keep = absurd u
  turn-Beside (returned b none) (returned b' xs) rest rest' u go keep = u
  turn-Beside (returned b (some e)) (returned b' xs) rest rest' p go keep = p
  turn-Beside (returned b (some e)) (goes_on l xs) rest rest' p go keep = keep e l xs p
