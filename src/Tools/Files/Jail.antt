-- ===== src/Tools/Files/Jail.antt =====
-- Where a resolved path lies, and what the tool on files writes.
use mathlib.Core.List.{reverse}
use picobot.Base.{
  Text, List, [], ◌∷◌, ◌++◌, some, map, ◌≡◌, All, Bool-cases, inl, inr, subst, if◌then◌else◌,
}
use picobot.FilePath.{
  root_dir, cur_dir, parent_dir, normal, components, is_absolute, path_join, path_starts_with,
}
use picobot.FilePath.Normal.{IsName, IsNormal, normalize_path-IsNormal, path_starts_with_iff}
use picobot.Kernel.Tool.{ok}
use picobot.Tools.Input.{or_error}
use picobot.Tools.Promises.{Holds, Holds-bind, Holds-or_error, trivial}
use picobot.Tools.Files.{
  PathBuf, FileSystem, Dirs, expand, climb, canonicalize_ancestor, canonicalize_with_fallback,
  check_root, check_jail, resolve_path, resolve_expanded, normalized_path,
}

-- The root, and names.
abbrev pub IsCanonical : PathBuf → Type 0
IsCanonical (root_dir ∷ names) = All IsName names
IsCanonical _ = ⊥

All-names : (names : List Text) → All IsName (map normal names)
All-names [] = tt
All-names (n ∷ names) = (tt, All-names names)

All-append : (p q : PathBuf) → All IsName p → All IsName q → All IsName (p ++ q)
All-append [] q h g = g
All-append (c ∷ p) q h g = (h.0, All-append p q h.1 g)

All-tail : (p q : PathBuf) → All IsName (p ++ q) → All IsName q
All-tail [] q h = h
All-tail (c ∷ p) q h = All-tail p q h.1

append-IsNormal :
    (p : PathBuf) (names : List Text) → IsCanonical p → IsNormal (p ++ map normal names)
append-IsNormal [] names h = absurd h
append-IsNormal (root_dir ∷ p) names h = All-append p (map normal names) h (All-names names)
append-IsNormal (cur_dir ∷ p) names h = absurd h
append-IsNormal (parent_dir ∷ p) names h = absurd h
append-IsNormal (normal n ∷ p) names h = absurd h

IsNormal-of_IsCanonical : (p : PathBuf) → IsCanonical p → IsNormal p
IsNormal-of_IsCanonical [] h = absurd h
IsNormal-of_IsCanonical (root_dir ∷ p) h = h
IsNormal-of_IsCanonical (cur_dir ∷ p) h = absurd h
IsNormal-of_IsCanonical (parent_dir ∷ p) h = absurd h
IsNormal-of_IsCanonical (normal n ∷ p) h = absurd h

rest_of_IsNormal :
    (root rest : PathBuf) → IsCanonical root → IsNormal (root ++ rest) → All IsName rest
rest_of_IsNormal [] rest h g = absurd h
rest_of_IsNormal (root_dir ∷ p) rest h g = All-tail p rest g
rest_of_IsNormal (cur_dir ∷ p) rest h g = absurd h
rest_of_IsNormal (parent_dir ∷ p) rest h g = absurd h
rest_of_IsNormal (normal n ∷ p) rest h g = absurd h

module _ {W : Type 0} (fs : FileSystem W) (w : W)
    (canonicalize-IsCanonical : (p q : PathBuf) → fs.canonicalize w p ≡ inr q → IsCanonical q) where
  canonicalize_ancestor-IsNormal :
      (path : PathBuf) (c : PathBuf × List Text)
      → IsNormal path
      → Holds IsNormal (canonicalize_ancestor fs w path c)
  unfolding canonicalize_ancestor
  canonicalize_ancestor-IsNormal path (above, names) h =
      elim (Bool-cases (fs.exists w (reverse above))) [
        | inl e ↦ rw (e) (
            Holds-bind IsCanonical IsNormal (or_error (fs.canonicalize w (reverse above)))
              (λ canonical. ok (canonical ++ map normal names))
              (Holds-or_error _ (λ q g. canonicalize-IsCanonical (reverse above) q g))
              (λ q g. append-IsNormal q names g))
        | inr e ↦ rw (e) h
      ]

  canonicalize_with_fallback-IsNormal :
      (path : PathBuf) → IsNormal path → Holds IsNormal (canonicalize_with_fallback fs w path)
  unfolding canonicalize_with_fallback
  canonicalize_with_fallback-IsNormal path h = elim (Bool-cases (fs.exists w path)) [
    | inl e ↦ rw (e) (
        Holds-or_error (fs.canonicalize w path)
          (λ q g. IsNormal-of_IsCanonical q (canonicalize-IsCanonical path q g)))
    | inr e ↦ rw (e) (canonicalize_ancestor-IsNormal path (climb fs w (reverse path) []) h)
  ]

  -- A path below the root, by names only.
  abbrev pub IsBelow : PathBuf → PathBuf → Type 0
  IsBelow root p = (rest : PathBuf) × ((p ≡ root ++ rest) × All IsName rest)

  check_root-IsBelow :
      (root p : PathBuf)
      → IsCanonical root
      → IsNormal p
      → Holds (IsBelow root) (check_root fs p (inr root))
  unfolding check_root
  check_root-IsBelow root p c h = elim (Bool-cases (path_starts_with p root)) [
    | inl g ↦ rw (g) (
        let (rest, q) = (path_starts_with_iff p root).0 g in
        (rest, (q, rest_of_IsNormal root rest c (subst IsNormal q h))))
    | inr g ↦ rw (g) tt
  ]

  check_jail-IsBelow :
      (jail root p : PathBuf)
      → fs.canonicalize w jail ≡ inr root
      → IsNormal p
      → Holds (IsBelow root) (check_jail fs w (some jail) p)
  unfolding check_jail
  check_jail-IsBelow jail root p e h =
      rw (e) (check_root-IsBelow root p (canonicalize-IsCanonical jail root e) h)

  resolve_expanded-Holds :
      (dirs : Dirs) (jail root : PathBuf) (expanded : Text)
      → dirs.jail_root ≡ some jail
      → fs.canonicalize w jail ≡ inr root
      → Holds (IsBelow root) (resolve_expanded fs w dirs expanded)
  unfolding resolve_expanded normalized_path
  resolve_expanded-Holds dirs jail root expanded d e = rw (d) (
      Holds-bind IsNormal (IsBelow root)
        (canonicalize_with_fallback fs w (normalized_path fs dirs expanded))
        (check_jail fs w (some jail))
        (canonicalize_with_fallback-IsNormal (normalized_path fs dirs expanded) (
          normalize_path-IsNormal (
            components
              (if is_absolute expanded then expanded else path_join dirs.working_dir expanded))))
        (λ p h. check_jail-IsBelow jail root p e h))

  resolve_path-Holds :
      (dirs : Dirs) (jail root : PathBuf) (raw : Text)
      → dirs.jail_root ≡ some jail
      → fs.canonicalize w jail ≡ inr root
      → Holds (IsBelow root) (resolve_path fs w dirs raw)
  unfolding resolve_path
  resolve_path-Holds dirs jail root raw d e =
      Holds-bind (λ expanded. Unit) (IsBelow root) (expand fs raw) (resolve_expanded fs w dirs)
        (trivial (expand fs raw)) (λ expanded u. resolve_expanded-Holds dirs jail root expanded d e)

  -- With a jail whose root canonicalises, every path that resolves is written as that root followed
  -- by names, with no `.` and no `..`, whatever text the model sent; which of these names are symbolic
  -- links, and where they lead, is not said. What `canonicalize` returns is an absolute path of names.
  pub resolve_path-IsBelow :
      (dirs : Dirs) (jail root : PathBuf) (raw : Text) (p : PathBuf)
      → dirs.jail_root ≡ some jail
      → fs.canonicalize w jail ≡ inr root
      → resolve_path fs w dirs raw ≡ ok p
      → IsBelow root p
  resolve_path-IsBelow dirs jail root raw p d e r =
      subst (Holds (IsBelow root)) r (resolve_path-Holds dirs jail root raw d e)
