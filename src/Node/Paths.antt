-- ===== src/Node/Paths.antt =====
-- filepath.Clean and filepath.Join, as far as the nodes use them.
pub mod Children
use dockerfuse.Base.{
  ℕ, Bool, true, false, ◌||◌, ◌&&◌, not, List, [], ◌∷◌, ◌++◌, ◌==◌, if◌then◌else◌,
}
use dockerfuse.Base.Text.{Text, str, text_eq, has_prefix}

-- The parts between the slashes: one more than there are slashes.
abbrev pub into_first : ℕ → List Text → List Text
into_first c [] = (c ∷ []) ∷ []
into_first c (w ∷ ws) = (c ∷ w) ∷ ws

unfoldable pub components : Text → List Text
components [] = [] ∷ []
components (c ∷ s) = let rest = components s in if c == b'/' then [] ∷ rest else into_first c rest

-- The part ".." removes the last name, if there is one to remove. Above the root there is nothing.
unfoldable pub up : Bool → List Text → List Text
unfolding text_eq
up rooted [] = if rooted then [] else str ".." ∷ []
up rooted (w ∷ []) = if text_eq w (str "..") then w ∷ str ".." ∷ [] else []
up rooted (w ∷ v ∷ ws) = w ∷ up rooted (v ∷ ws)

unfoldable pub enter : Bool → List Text → Text → List Text
enter rooted names w =
    if text_eq w [] || text_eq w (str ".")
    then names
    else (if text_eq w (str "..") then up rooted names else names ++ (w ∷ []))

unfoldable pub resolve : Bool → List Text → List Text → List Text
resolve rooted names [] = names
resolve rooted names (w ∷ ws) = resolve rooted (enter rooted names w) ws

-- The names with slashes between them.
unfoldable pub slashed : List Text → Text
slashed [] = []
slashed (w ∷ []) = w
slashed (w ∷ v ∷ ws) = w ++ (b'/' ∷ slashed (v ∷ ws))

abbrev pub or_dot : Text → Text
or_dot [] = str "."
or_dot p = p

-- filepath.Clean
unfoldable pub clean : Text → Text
clean p =
    let rooted = has_prefix (str "/") p in
    let rest = slashed (resolve rooted [] (components p)) in
    if rooted then b'/' ∷ rest else or_dot rest

-- filepath.Join of two elements: empty ones are left out.
unfoldable pub join : Text → Text → Text
join [] [] = []
join [] b = clean b
join a b = clean (a ++ (b'/' ∷ b))

-- filepath.Clean(filepath.Join(dir, name))
unfoldable pub child_path : Text → Text → Text
child_path dir name = clean (join dir name)
