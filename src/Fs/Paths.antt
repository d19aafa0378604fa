-- ===== src/Fs/Paths.antt =====
-- kernel/fs.c, `PushComponent`, `SplitInto` and the start of `ParseInput`: the text of paths.
pub mod Split
use bloom_os.Prelude.{
  ℕ, zero, suc, ◌+◌, ◌-◌, Bool, true, false, not, ◌&&◌, ◌||◌, List, [], ◌∷◌, ◌++◌, Option, none,
  some, leb, ◌==◌, if◌then◌else◌, take, length,
}
use bloom_os.Prelude.Monad.{◌>>=◌}
use bloom_os.Fat.Dir.{fat_name_max}

abbrev pub max_components : ℕ
max_components = 128

abbrev pub is_separator : ℕ → Bool
is_separator c = c == b'/' || c == 92

abbrev pub is_dot : List ℕ → Bool
is_dot (a ∷ []) = a == b'.'
is_dot _ = false

abbrev pub is_dot_dot : List ℕ → Bool
is_dot_dot (a ∷ b ∷ []) = a == b'.' && b == b'.'
is_dot_dot _ = false

abbrev pub is_empty : List ℕ → Bool
is_empty [] = true
is_empty (_ ∷ _) = false

abbrev pub drop_last : List (List ℕ) → List (List ℕ)
drop_last [] = []
drop_last (x ∷ []) = []
drop_last (x ∷ y ∷ ys) = x ∷ drop_last (y ∷ ys)

pub push_component : List ℕ → List (List ℕ) → List (List ℕ)
push_component text components =
    if leb max_components (length components)
    then components
    else components ++ (take (fat_name_max - 1) text ∷ [])

-- A round of the loop of `SplitInto`, on the text between two separators.
pub add_component : List ℕ → List (List ℕ) → List (List ℕ)
unfolding push_component
add_component text components =
    if is_empty text || is_dot text
    then components
    else if is_dot_dot text
    then drop_last components
    else push_component text components

-- The loop, with the text since the last separator.
pub split_from : List ℕ → List ℕ → List (List ℕ) → List (List ℕ)
unfolding add_component
split_from [] text components = add_component text components
split_from (c ∷ path) text components =
    if is_separator c
    then split_from path [] (add_component text components)
    else split_from path (text ++ (c ∷ [])) components

pub split_into : List ℕ → List (List ℕ) → List (List ℕ)
unfolding split_from
split_into path components = split_from path [] components

-- The search for a colon in front of the first separator: the text before it and behind it.
pub colon_in : List ℕ → Option (List ℕ × List ℕ)
colon_in [] = none
colon_in (c ∷ input) =
    let rest = colon_in input in
    if is_separator c
    then none
    else if c == b':'
    then some ([], input)
    else (rest >>= λ parts. some (c ∷ parts.0, parts.1))
