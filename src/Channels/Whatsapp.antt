-- ===== src/Channels/Whatsapp.antt =====
-- src/channels/whatsapp.rs: who may write to the channel, where the files that they send are kept
-- and who may read them, and their removal. The client of WhatsApp, identifiers and the file system
-- are parameters; the handling of a message repeats that of a chat over the API and is left out.
pub mod Senders
pub mod Cleanup
use mathlib.Core.List.{reverse}
use picobot.Base.{
  Text, codes, ℕ, ◌-◌, ◌*◌, ◌==◌, Bool, true, false, List, [], ◌∷◌, ◌++◌, Option, none, some, map,
  not, ◌&&◌, ◌||◌, any, ltb, leb, text_eq, trim, is_empty, if◌then◌else◌, to_ascii_lowercase,
  saturating_mul, is_ascii_lowercase, is_ascii_uppercase, is_ascii_digit,
}
use picobot.FilePath.{Component, normal, components, path_join}
use picobot.Kernel.Permission.{Permission, file_read}
use picobot.Kernel.Capability.{CapabilitySet, insert}
use picobot.Kernel.Invoke.{Profile}

-- `whatsapp_allowed_senders`
abbrev allowed_senders : Option (List Text) → Option (List Text)
allowed_senders none = none
allowed_senders (some []) = none
allowed_senders (some (a ∷ senders)) = some (a ∷ senders)

-- `normalize_whatsapp_id`
unfoldable pub normalize_whatsapp_id : Text → Text
normalize_whatsapp_id [] = []
normalize_whatsapp_id (c ∷ s) = if c == b':' || c == b'@' then [] else c ∷ normalize_whatsapp_id s

-- `is_allowed_sender`
unfoldable pub is_allowed_sender : Text → List Text → Bool
unfolding any text_eq normalize_whatsapp_id
is_allowed_sender sender allowed =
    if any (λ a. text_eq a sender) allowed
    then true
    else any (λ a. text_eq (normalize_whatsapp_id a) (normalize_whatsapp_id sender)) allowed

-- The filter of `run_whatsapp_loop`
unfoldable admits : Option (List Text) → Text → Bool
unfolding is_allowed_sender
admits none from = true
admits (some allowed) from = is_allowed_sender from allowed

-- `whatsapp_user_folder`
abbrev pub is_plain : ℕ → Bool
is_plain c =
    is_ascii_lowercase c || is_ascii_uppercase c || is_ascii_digit c || c == b'-' || c == b'_'

unfoldable pub whatsapp_user_folder : Text → Text
unfolding normalize_whatsapp_id
whatsapp_user_folder user_id =
    map (λ c. if is_plain c then c else b'_') (normalize_whatsapp_id user_id)

-- `Path::file_name`
abbrev name_of : List Component → Option Text
name_of [] = none
name_of (normal n ∷ cs) = some n
name_of (c ∷ cs) = none

unfoldable file_name : Text → Option Text
unfolding components
file_name path = name_of (reverse (components path))

abbrev not_blank : Option Text → Option Text
not_blank none = none
not_blank (some name) = if is_empty (trim name) then none else some name

-- `sanitize_filename`
unfoldable sanitize_filename : Text → Option Text
unfolding file_name trim is_empty
sanitize_filename value = not_blank (file_name value)

-- `MediaAttachment`, as far as permissions read it
pub record MediaAttachment : Type 0 where
  pub local_path : Text
  pub thumbnail_path : Option Text

-- What is read of an attachment: the file, and the thumbnail if there is one
unfoldable attachment_paths : List MediaAttachment → List Text
attachment_paths [] = []
attachment_paths (a ∷ attachments) =
    let rest = attachment_paths attachments in
    elim a.thumbnail_path [
      | none ↦ a.local_path ∷ rest
      | some thumbnail ↦ a.local_path ∷ thumbnail ∷ rest
    ]

abbrev add_reads : List Text → CapabilitySet → CapabilitySet
add_reads [] set = set
add_reads (path ∷ paths) set = add_reads paths (insert set (file_read path))

-- `with_media_permissions`, on the profile; the root is canonical if it could be made so
unfoldable with_media_permissions : Text → Text → List MediaAttachment → Profile → Profile
unfolding insert attachment_paths whatsapp_user_folder path_join
with_media_permissions root user_id attachments profile =
    let paths =
      (path_join root (whatsapp_user_folder user_id) ++ codes "/**")
      ∷ attachment_paths attachments in
    record profile {
      pre_authorized = add_reads paths profile.pre_authorized;
      max_allowed = add_reads paths profile.max_allowed;
    }

-- `std::fs` on a state: what a directory holds, whether an entry is a directory, when a path was
-- modified, and the removals, which leave the state where they fail.
pub record FileSystem (World : Type 0) : Type 0 where
  pub read_dir : Text → World → Option (List Text)
  pub is_dir : Text → World → Option Bool
  pub modified : Text → World → Option ℕ
  pub remove_file : Text → World → World
  pub remove_dir : Text → World → World

module _ {World : Type 0} (fs : FileSystem World) where
  -- `should_delete`
  unfoldable pub should_delete : Text → Option ℕ → World → Bool
  should_delete path none world = false
  should_delete path (some cutoff) world = elim (fs.modified path world) [
    | none ↦ false
    | some time ↦ ltb time cutoff
  ]

  -- The loop over the entries of a directory; whether the directory is to be removed, and the state
  unfoldable pub clean_entries : Option ℕ → List Text → Bool → World → Bool × World
  unfolding should_delete
  clean_entries cutoff [] remove world = (remove, world)
  clean_entries cutoff (path ∷ paths) remove world =
      let delete = should_delete path cutoff world in
      clean_entries cutoff paths (delete && remove)
        (if delete then fs.remove_file path world else world)

  abbrev clean_dir : Option ℕ → Text → Option (List Text) → World → World
  clean_dir cutoff path none world = world
  clean_dir cutoff path (some entries) world =
      let out = clean_entries cutoff entries true world in
      if out.0 then fs.remove_dir path out.1 else out.1

  abbrev clean_path : Option ℕ → Text → Option Bool → World → World
  clean_path cutoff path none world = world
  clean_path cutoff path (some true) world = clean_dir cutoff path (fs.read_dir path world) world
  clean_path cutoff path (some false) world =
      if should_delete path cutoff world then fs.remove_file path world else world

  unfoldable pub clean_all : Option ℕ → List Text → World → World
  unfolding clean_entries
  clean_all cutoff [] world = world
  clean_all cutoff (path ∷ paths) world =
      clean_all cutoff paths (clean_path cutoff path (fs.is_dir path world) world)

  abbrev clean_root : Option ℕ → Option (List Text) → World → World
  clean_root cutoff none world = world
  clean_root cutoff (some entries) world = clean_all cutoff entries world

  -- `cleanup_expired_media`; `none` is a time before the clock's first
  unfoldable pub cleanup_expired_media : Text → ℕ → ℕ → World → World
  unfolding clean_all
  cleanup_expired_media root retention_hours now world =
      let retention = saturating_mul retention_hours 3600 in
      if retention == 0
      then world
      else clean_root (if leb retention now then some (now - retention) else none)
          (fs.read_dir root world) world
