-- ===== src/Channels/Whatsapp/Cleanup.antt =====
-- What the removal of old media does to the tree that `download_media` makes.
use picobot.Base.{
  Text, ℕ, ◌==◌, Bool, true, false, List, [], ◌∷◌, Option, some, ◌&&◌, All, if◌then◌else◌,
  saturating_mul, ◌≡◌, refl, ap, ◌∙◌, Bool-cases, inl, inr,
}
use picobot.Channels.Whatsapp.{
  FileSystem, should_delete, clean_entries, clean_path, clean_all, cleanup_expired_media,
}

-- In a state, a file is not removed by `remove_file` if it is a directory, and a directory not by
-- `remove_dir` if it holds something: both fail.
pub record IsPosix {World : Type 0} (fs : FileSystem World) (world : World) : Type 0 where
  pub keeps_directory :
      (path : Text) → fs.is_dir path world ≡ some true → fs.remove_file path world ≡ world
  pub keeps_full :
      (path entry : Text) (entries : List Text)
      → fs.read_dir path world ≡ some (entry ∷ entries)
      → fs.remove_dir path world ≡ world

if_kept : {World : Type 0} {v w : World} (b : Bool) → v ≡ w → (if b then v else w) ≡ w
if_kept true e = e
if_kept false e = refl

module _ {World : Type 0} (fs : FileSystem World) (world : World) (posix : IsPosix fs world) where
  -- A directory that holds directories, one at least.
  abbrev IsUserFolder : Text → Type 0
  IsUserFolder path =
      (fs.is_dir path world ≡ some true)
      × ((entry : Text) × ((entries : List Text) × ((fs.read_dir path world
                ≡ some (entry ∷ entries))
              × All (λ p. fs.is_dir p world ≡ some true) (entry ∷ entries))))

  clean_entries-kept :
      (cutoff : Option ℕ) (paths : List Text) (remove : Bool)
      → All (λ p. fs.is_dir p world ≡ some true) paths
      → (clean_entries fs cutoff paths remove world).1 ≡ world
  unfolding clean_entries
  clean_entries-kept cutoff [] remove h = refl
  clean_entries-kept cutoff (path ∷ paths) remove h =
      let delete = should_delete fs path cutoff world in
      ap (λ w. (clean_entries fs cutoff paths (delete && remove) w).1)
        (if_kept delete (posix.keeps_directory path h.0))
      ∙ clean_entries-kept cutoff paths (delete && remove) h.1

  clean_path-kept :
      (cutoff : Option ℕ) (path : Text)
      → IsUserFolder path
      → clean_path fs cutoff path (fs.is_dir path world) world ≡ world
  clean_path-kept cutoff path (d, (entry, (entries, (r, h)))) =
      rw (d, r)
        (ap
            (λ w.
              if (clean_entries fs cutoff (entry ∷ entries) true world).0
              then fs.remove_dir path w
              else w)
            (clean_entries-kept cutoff (entry ∷ entries) true h)
          ∙ if_kept (clean_entries fs cutoff (entry ∷ entries) true world).0
              (posix.keeps_full path entry entries r))

  clean_all-kept :
      (cutoff : Option ℕ) (paths : List Text)
      → All IsUserFolder paths
      → clean_all fs cutoff paths world ≡ world
  unfolding clean_all
  clean_all-kept cutoff [] h = refl
  clean_all-kept cutoff (path ∷ paths) h =
      rw (clean_path-kept cutoff path h.0) (clean_all-kept cutoff paths h.1)

  -- Where every entry of the media root is a user's folder that holds directories only, one for each
  -- file as `download_media` makes them, the removal of old media removes nothing, however old the
  -- files are, if removing a directory as a file fails and removing one that holds something does.
  pub cleanup_expired_media-keeps :
      (root : Text) (retention_hours now : ℕ) (paths : List Text)
      → fs.read_dir root world ≡ some paths
      → All IsUserFolder paths
      → cleanup_expired_media fs root retention_hours now world ≡ world
  unfolding cleanup_expired_media
  cleanup_expired_media-keeps root retention_hours now paths r h =
      elim (Bool-cases (saturating_mul retention_hours 3600 == 0)) [
        | inl e ↦ rw (e) refl
        | inr e ↦ rw (e, r) (clean_all-kept _ paths h)
      ]
