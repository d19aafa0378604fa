-- ===== src/Prelude/Text.antt =====
-- The text constants of the source as lists of characters.
use Prim.Native.Nat.{ℕ}
use Prim.Native.Char.{code}
use Prim.Native.String.{String}
use mathlib.Core.List.{List, [], ◌∷◌}

abbrev pub chars : String → List ℕ
chars String.[] = []
chars (String.◌∷◌ c rest) = code c ∷ chars rest
