-- ===== src/Tools/Files.antt =====
-- src/tools/path_utils.rs and src/tools/filesystem.rs: how a path that the model names is resolved
-- and kept below the jail's root, and the tool that reads and writes files. The file system is a
-- parameter, as the functions of `std::fs` on a state; paths are lists of components.
pub mod Jail
use mathlib.Core.List.{reverse}
use picobot.Base.{
  Text, codes, Bool, true, false, List, [], ◌∷◌, ◌++◌, Option, none, some, map, ◌&&◌, ◌||◌,
  if◌then◌else◌, text_eq, starts_with, ◌⊎◌, inl, inr,
}
use picobot.FilePath.{
  Component, root_dir, cur_dir, parent_dir, normal, components, is_absolute, normalize_path, render,
  path_join, path_starts_with, component_eq,
}
use picobot.Kernel.Permission.{Permission, file_read, file_write, trim_start_matches}
use picobot.Kernel.Tool.{Result, ok, err, ◌>>=◌}
use picobot.Tools.Input.{Input, Done, or_error, str_field, fail}

abbrev pub PathBuf : Type 0
PathBuf = List Component

-- `std::fs` on a state `W`, each error by its text, and `dirs::home_dir`. An operation that fails
-- may have changed the state.
pub record FileSystem (W : Type 0) : Type 0 where
  pub home_dir : Option Text
  pub exists : W → PathBuf → Bool
  pub canonicalize : W → PathBuf → Text ⊎ PathBuf
  pub create_dir_all : W → PathBuf → (Text ⊎ Done) × W
  pub read_to_string : W → PathBuf → Text ⊎ Text
  pub write : W → PathBuf → Text → (Text ⊎ Done) × W

-- What of `ToolContext` the tools on files read.
pub record Dirs : Type 0 where
  pub working_dir : Text
  pub jail_root : Option PathBuf

-- The tool's outputs: `{"content": …}` and `{"status": "ok"}`
pub data Output : Type 0 where
  content_of : Text → Output
  written : Output

-- `PathBuf`'s equality
unfoldable pub path_eq : PathBuf → PathBuf → Bool
unfolding component_eq
path_eq [] [] = true
path_eq (c ∷ p) (d ∷ q) = component_eq c d && path_eq p q
path_eq _ _ = false

module _ {W : Type 0} (fs : FileSystem W) where
  -- The first lines of `resolve_path`
  unfoldable pub expand : Text → Result Text
  unfolding starts_with text_eq trim_start_matches path_join
  expand raw =
      if text_eq raw (codes "~") || starts_with (codes "~/") raw
      then elim fs.home_dir [
        | none ↦ fail (codes "home directory not found")
        | some home ↦ ok (path_join home (trim_start_matches b'/' (trim_start_matches b'~' raw)))
      ]
      else ok raw

  -- The loop of `canonicalize_with_fallback`, on the components of the path in reverse: the nearest
  -- ancestor that exists, if any, and the names below it.
  unfoldable pub climb : W → PathBuf → List Text → PathBuf × List Text
  climb w [] names = ([], names)
  climb w (normal n ∷ above) names =
      let up = climb w above (n ∷ names) in
      if fs.exists w (reverse (normal n ∷ above)) then (normal n ∷ above, names) else up
  climb w (c ∷ above) names = (c ∷ above, names)

  unfoldable pub canonicalize_ancestor : W → PathBuf → PathBuf × List Text → Result PathBuf
  canonicalize_ancestor w path (above, names) =
      if fs.exists w (reverse above)
      then (or_error (fs.canonicalize w (reverse above)) >>= λ canonical.
          ok (canonical ++ map normal names))
      else ok path

  -- `canonicalize_with_fallback`
  unfoldable pub canonicalize_with_fallback : W → PathBuf → Result PathBuf
  unfolding climb canonicalize_ancestor
  canonicalize_with_fallback w path =
      if fs.exists w path
      then or_error (fs.canonicalize w path)
      else canonicalize_ancestor w path (climb w (reverse path) [])

  -- The check of the jail's root at the end of `resolve_path`
  unfoldable pub check_root : PathBuf → Text ⊎ PathBuf → Result PathBuf
  unfolding path_starts_with render
  check_root canonical (inl e) = fail (codes "invalid jail_root: " ++ e)
  check_root canonical (inr jail_root) =
      if path_starts_with canonical jail_root
      then ok canonical
      else fail (codes "path escapes jail_root: " ++ render canonical)

  unfoldable pub check_jail : W → Option PathBuf → PathBuf → Result PathBuf
  unfolding check_root
  check_jail w none canonical = ok canonical
  check_jail w (some root) canonical = check_root canonical (fs.canonicalize w root)

  -- `resolve_path` after the home directory, and the whole of it
  unfoldable pub normalized_path : Dirs → Text → PathBuf
  unfolding is_absolute path_join components normalize_path
  normalized_path dirs expanded =
      normalize_path (
        components (if is_absolute expanded then expanded else path_join dirs.working_dir expanded))

  unfoldable pub resolve_expanded : W → Dirs → Text → Result PathBuf
  unfolding normalized_path canonicalize_with_fallback check_jail
  resolve_expanded w dirs expanded =
      canonicalize_with_fallback w (normalized_path dirs expanded) >>= check_jail w dirs.jail_root

  unfoldable pub resolve_path : W → Dirs → Text → Result PathBuf
  unfolding expand resolve_expanded
  resolve_path w dirs raw = expand raw >>= resolve_expanded w dirs

  -- `FilesystemTool`'s match on the operation
  unfoldable operation_permission : Text → PathBuf → Result (List Permission)
  unfolding text_eq render
  operation_permission operation canonical =
      if text_eq operation (codes "read")
      then ok (file_read (render canonical) ∷ [])
      else if text_eq operation (codes "write")
      then ok (file_write (render canonical) ∷ [])
      else fail (codes "invalid operation")

  -- `FilesystemTool::required_permissions`
  unfoldable pub required_permissions : W → Dirs → Input → Result (List Permission)
  unfolding resolve_path operation_permission
  required_permissions w dirs input =
      str_field input (codes "operation") (codes "missing operation") >>= λ operation.
      str_field input (codes "path") (codes "missing path") >>= λ path.
      resolve_path w dirs path >>= λ canonical. operation_permission operation canonical

  -- `Path::parent`, on a resolved path
  unfoldable parent_of_reversed : PathBuf → Option PathBuf
  parent_of_reversed [] = none
  parent_of_reversed (root_dir ∷ above) = none
  parent_of_reversed (c ∷ above) = some (reverse above)

  -- `if let Some(parent) = … { create_dir_all(parent)?; }`
  unfoldable create_parent : W → Option PathBuf → Result Done × W
  create_parent w none = (ok tt, w)
  create_parent w (some parent) =
      (or_error (fs.create_dir_all w parent).0, (fs.create_dir_all w parent).1)

  -- The end of the write: the path is resolved again, and must not have changed.
  unfoldable write_checked : W → Dirs → Text → PathBuf → Text → Result Done × W
  unfolding resolve_path path_eq
  write_checked w dirs path canonical content = elim (resolve_path w dirs path) [
    | err e ↦ (err e, w)
    | ok re_resolved ↦
        if path_eq re_resolved canonical
        then (or_error (fs.write w re_resolved content).0, (fs.write w re_resolved content).1)
        else (fail (codes "path changed after directory creation"), w)
  ]

  unfoldable write_after : Dirs → Text → PathBuf → Text → Result Done × W → Result Done × W
  unfolding write_checked
  write_after dirs path canonical content (err e, w) = (err e, w)
  write_after dirs path canonical content (ok u, w) = write_checked w dirs path canonical content

  -- The branch `"write"`
  unfoldable write_file : W → Dirs → Text → PathBuf → Option Text → Result Done × W
  unfolding write_after create_parent parent_of_reversed
  write_file w dirs path canonical none = (fail (codes "missing content"), w)
  write_file w dirs path canonical (some content) =
      write_after dirs path canonical content
        (create_parent w (parent_of_reversed (reverse canonical)))

  unfoldable pub perform : W → Dirs → Text → Text → Option Text → PathBuf → Result Output × W
  unfolding write_file text_eq
  perform w dirs operation path content canonical =
      if text_eq operation (codes "read")
      then (or_error (fs.read_to_string w canonical) >>= λ text. ok (content_of text), w)
      else if text_eq operation (codes "write")
      then (
        (write_file w dirs path canonical content).0 >>= λ u. ok written,
        (write_file w dirs path canonical content).1,
      )
      else (fail (codes "invalid operation"), w)

  -- What `FilesystemTool::execute` reads of its input, and the path resolved
  unfoldable pub read_request : W → Dirs → Input → Result (Text × (Text × PathBuf))
  unfolding resolve_path
  read_request w dirs input =
      str_field input (codes "operation") (codes "missing operation") >>= λ operation.
      str_field input (codes "path") (codes "missing path") >>= λ path.
      resolve_path w dirs path >>= λ canonical. ok (operation, (path, canonical))

  unfoldable pub perform_request :
      W → Dirs → Input → Result (Text × (Text × PathBuf)) → Result Output × W
  unfolding perform
  perform_request w dirs input (err e) = (err e, w)
  perform_request w dirs input (ok (operation, (path, canonical))) =
      perform w dirs operation path (input.str (codes "content")) canonical

  -- `FilesystemTool::execute`
  unfoldable pub execute : W → Dirs → Input → Result Output × W
  unfolding perform_request read_request
  execute w dirs input = perform_request w dirs input (read_request w dirs input)
