-- ===== src/Fat/Dir/Same.antt =====
-- kernel/fat32.c, `NamesEqual`: when two names are the same up to the case of their ASCII letters.
use bloom_os.Prelude.{
  ℕ, zero, suc, ◌+◌, ◌<◌, ◌≤◌, ◌≡◌, refl, ap, true, List, [], ◌∷◌, Bool-cases, inl, inr, length,
  get_or, ◌⊎◌, arith, ◌==◌,
}
use bloom_os.Fat.Dir.Names.{names_equal, lower_ascii}

-- The same character, or the same ASCII letter in the other case.
abbrev SameLetter : ℕ → ℕ → Type 0
SameLetter a b =
    (a ≡ b) ⊎ ((b'A' ≤ a) × (a ≤ b'Z') × (b ≡ a + 32)) ⊎ ((b'A' ≤ b) × (b ≤ b'Z') × (a ≡ b + 32))

-- Two names of the same length, with the same letters at every place.
abbrev pub SameName : List ℕ → List ℕ → Type 0
SameName xs ys =
    (length xs ≡ length ys) × ((i : ℕ) → i < length xs → SameLetter (get_or xs i 0) (get_or ys i 0))

lower_ascii-SameLetter : (a b : ℕ) → (lower_ascii a == lower_ascii b) ≡ true → SameLetter a b
unfolding lower_ascii
lower_ascii-SameLetter a b h = ground arith

SameLetter-lower_ascii : (a b : ℕ) → SameLetter a b → (lower_ascii a == lower_ascii b) ≡ true
unfolding lower_ascii
SameLetter-lower_ascii a b h = ground arith

pub names_equal-SameName : (xs ys : List ℕ) → names_equal xs ys ≡ true → SameName xs ys
unfolding names_equal
names_equal-SameName [] [] h = (refl, λ i l. absurd (omega arith))
names_equal-SameName [] (b ∷ ys) h = cc
names_equal-SameName (a ∷ xs) [] h = cc
names_equal-SameName (a ∷ xs) (b ∷ ys) h = elim (Bool-cases (lower_ascii a == lower_ascii b)) [
  | inl e ↦
      let rest = names_equal-SameName xs ys (ground (arith, e, h)) in
      (ap suc rest.0, places rest.1 (lower_ascii-SameLetter a b e))
  | inr e ↦ ground (arith, e, h)
]
  where
    places :
        ((i : ℕ) → i < length xs → SameLetter (get_or xs i 0) (get_or ys i 0))
        → SameLetter a b
        → (i : ℕ) → i < length (a ∷ xs)
        → SameLetter (get_or (a ∷ xs) i 0) (get_or (b ∷ ys) i 0)
    places later first zero l = first
    places later first (suc i) l = later i (omega arith)

pub SameName-names_equal : (xs ys : List ℕ) → SameName xs ys → names_equal xs ys ≡ true
unfolding names_equal
SameName-names_equal [] [] h = refl
SameName-names_equal [] (b ∷ ys) (l, h) = absurd (omega arith)
SameName-names_equal (a ∷ xs) [] (l, h) = absurd (omega arith)
SameName-names_equal (a ∷ xs) (b ∷ ys) (l, h) =
    let rest = SameName-names_equal xs ys (omega arith, λ i k. h (suc i) (omega arith)) in
    rw (SameLetter-lower_ascii a b (h 0 (omega arith)), rest) refl
