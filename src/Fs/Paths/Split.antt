-- ===== src/Fs/Paths/Split.antt =====
-- kernel/fs.c, `SplitInto`: the components of a path that was put together from components.
use bloom_os.Prelude.{
  append_nil, append_assoc, take_all, ℕ, suc, ◌+◌, ◌≤◌, ◌<◌, ◌≡◌, refl, sym, ap, ◌∙◌, false, List,
  [], ◌∷◌, ◌++◌, length, length-append, leb, All, arith,
}
use bloom_os.Fs.Paths.{
  is_separator, is_dot, is_dot_dot, is_empty, push_component, add_component, split_from, split_into,
}

abbrev IsPlain : ℕ → Type 0
IsPlain c = is_separator c ≡ false

-- A name that a directory entry may have.
pub record IsComponent (text : List ℕ) : Type 0 where
  pub plain : All IsPlain text
  pub some_text : is_empty text ≡ false
  pub no_dot : is_dot text ≡ false
  pub no_dot_dot : is_dot_dot text ≡ false
  pub short : length text ≤ 255

-- The path with a slash in front of each component, as `FsResolve` builds it.
abbrev pub path_text : List (List ℕ) → List ℕ
path_text [] = []
path_text (c ∷ cs) = b'/' ∷ (c ++ path_text cs)

split_from-append :
    (text rest before : List ℕ) (components : List (List ℕ))
    → All IsPlain text
    → split_from (text ++ rest) before components ≡ split_from rest (before ++ text) components
unfolding split_from
split_from-append [] rest before components plain =
    ap (λ t. split_from rest t components) (sym (append_nil before))
split_from-append (c ∷ text) rest before components plain =
    rw (split_from, plain.0)
      (split_from-append text rest (before ++ (c ∷ [])) components plain.1
        ∙ ap (λ t. split_from rest t components) (append_assoc before (c ∷ []) text))

add_component_pushes :
    (text : List ℕ) (components : List (List ℕ))
    → IsComponent text
    → length components < 128
    → add_component text components ≡ components ++ (text ∷ [])
unfolding add_component push_component
add_component_pushes text components c h =
    let room : leb 128 (length components) ≡ false = ground arith in
    rw (c.some_text, c.no_dot, c.no_dot_dot, room, take_all 255 text c.short) refl

-- Behind a component `text` that is not yet added.
split_rest :
    (text : List ℕ) (cs components : List (List ℕ))
    → IsComponent text
    → All IsComponent cs
    → length components + suc (length cs) ≤ 128
    → split_from (path_text cs) text components ≡ components ++ (text ∷ cs)
unfolding split_from
split_rest text [] components h hs bound = add_component_pushes text components h (omega arith)
split_rest text (c ∷ cs) components h hs bound =
    rw (add_component_pushes text components h (omega arith)) (
      split_from-append c (path_text cs) [] (components ++ (text ∷ [])) hs.0.plain
      ∙ split_rest c cs (components ++ (text ∷ [])) hs.0 hs.1
          (omega (arith, length-append components (text ∷ [])))
      ∙ append_assoc components (text ∷ []) (c ∷ cs))

-- `SplitInto` on the path put together from at most 128 components, each of 1 to 255 characters
-- without a separator and neither `.` nor `..`, gives these components back.
pub split_into-path_text :
    (cs : List (List ℕ)) → All IsComponent cs → length cs ≤ 128 → split_into (path_text cs) [] ≡ cs
unfolding split_into split_from add_component
split_into-path_text [] hs bound = refl
split_into-path_text (c ∷ cs) hs bound =
    split_from-append c (path_text cs) [] [] hs.0.plain ∙ split_rest c cs [] hs.0 hs.1 (omega arith)
