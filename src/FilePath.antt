-- ===== src/FilePath.antt =====
-- Paths of the standard library on Unix, and the lexical normalisation of
-- src/tools/path_utils.rs (`normalize_path`, which src/kernel/permissions.rs repeats word for word).
-- A path is a text where the program joins and compares it, and the list of its components where
-- it walks it.
pub mod Normal
use mathlib.Core.List.{reverse, filter_map}
use picobot.Base.{
  Text, Bool, true, false, List, [], ◌∷◌, ◌++◌, Option, none, some, map, codes, split, join,
  text_eq, if◌then◌else◌, ◌&&◌, ◌==◌,
}

-- `std::path::Component`, without the prefixes of Windows
pub data Component : Type 0 where
  root_dir cur_dir parent_dir : Component
  normal : Text → Component

unfoldable pub is_absolute : Text → Bool
is_absolute [] = false
is_absolute (c ∷ s) = c == b'/'

-- The component that one part between two slashes stands for: an empty part and `.` are skipped.
unfoldable pub part : Text → Option Component
unfolding text_eq
part w =
    if text_eq w []
    then none
    else if text_eq w (codes ".")
    then none
    else if text_eq w (codes "..")
    then some parent_dir
    else some (normal w)

unfoldable pub parts : List Text → List Component
unfolding part
parts [] = []
parts (w ∷ ws) = let rest = parts ws in elim (part w) [ none ↦ rest | some c ↦ c ∷ rest ]

-- Only a leading `.` of a relative path is kept.
unfoldable relative_parts : List Text → List Component
unfolding parts
relative_parts [] = []
relative_parts (w ∷ ws) = if text_eq w (codes ".") then cur_dir ∷ parts ws else parts (w ∷ ws)

-- `Path::components`
unfoldable pub components : Text → List Component
unfolding is_absolute relative_parts split
components s =
    if is_absolute s then root_dir ∷ parts (split b'/' s) else relative_parts (split b'/' s)

-- `PathBuf::pop`, on the components in reverse
unfoldable pub pop : List Component → List Component
pop [] = []
pop (root_dir ∷ buf) = root_dir ∷ buf
pop (cur_dir ∷ buf) = buf
pop (parent_dir ∷ buf) = buf
pop (normal n ∷ buf) = buf

-- One round of the loop of `normalize_path`; the buffer is in reverse. Pushing the root, which is
-- an absolute path, replaces the buffer.
unfoldable pub push_component : List Component → Component → List Component
unfolding pop
push_component buf root_dir = root_dir ∷ []
push_component buf cur_dir = buf
push_component buf parent_dir = pop buf
push_component buf (normal n) = normal n ∷ buf

unfoldable pub push_all : List Component → List Component → List Component
unfolding push_component
push_all buf [] = buf
push_all buf (c ∷ cs) = push_all (push_component buf c) cs

unfoldable pub normalize_path : List Component → List Component
unfolding push_all
normalize_path cs = reverse (push_all [] cs)

component_text : Component → Text
component_text root_dir = []
component_text cur_dir = codes "."
component_text parent_dir = codes ".."
component_text (normal n) = n

-- `to_string_lossy` of a buffer that components were pushed to
unfoldable pub render : List Component → Text
unfolding component_text join
render [] = []
render (root_dir ∷ cs) = b'/' ∷ join (codes "/") (map component_text cs)
render cs = join (codes "/") (map component_text cs)

unfoldable pub component_eq : Component → Component → Bool
unfolding text_eq
component_eq root_dir root_dir = true
component_eq cur_dir cur_dir = true
component_eq parent_dir parent_dir = true
component_eq (normal m) (normal n) = text_eq m n
component_eq _ _ = false

-- `Path::starts_with`
unfoldable pub path_starts_with : List Component → List Component → Bool
unfolding component_eq
path_starts_with cs [] = true
path_starts_with [] (b ∷ bs) = false
path_starts_with (c ∷ cs) (b ∷ bs) = component_eq c b && path_starts_with cs bs

-- Whether the last character is a slash; `PathBuf::push` adds one otherwise.
unfoldable ends_with_slash : Text → Bool
ends_with_slash [] = true
ends_with_slash (c ∷ []) = c == b'/'
ends_with_slash (c ∷ d ∷ s) = ends_with_slash (d ∷ s)

-- `Path::join`: an absolute path replaces the base.
unfoldable pub path_join : Text → Text → Text
unfolding is_absolute ends_with_slash
path_join base rel =
    if is_absolute rel
    then rel
    else if ends_with_slash base
    then base ++ rel
    else base ++ b'/' ∷ rel
