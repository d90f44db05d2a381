-- ===== src/Examples/Whatsapp.antt =====
-- A list of senders and a tree of media, and the theorems applied to them.
use picobot.Base.{
  Text, codes, Bool, true, false, [], ◌∷◌, some, text_eq, if◌then◌else◌, ◌≡◌, refl, Bool-cases, inl,
  inr, arith,
}
use picobot.Channels.Whatsapp.{FileSystem, is_allowed_sender, cleanup_expired_media}
use picobot.Channels.Whatsapp.Cleanup.{IsPosix, cleanup_expired_media-keeps}

-- A second device of a number on the list.
is_admitted : is_allowed_sender (codes "49170:2@s.net") (codes "49170@s.net" ∷ []) ≡ true
unfolding is_allowed_sender
is_admitted = refl

abbrev media : Text
media = codes "/media/7"

-- A root with the folder of one user, in which there is the directory of one file. The state is
-- whether that directory is there.
abbrev tree : FileSystem Bool
tree = record {
  read_dir = λ path there.
      if text_eq path media
      then some []
      else if text_eq path (codes "/media")
      then some (if there then media ∷ [] else [])
      else some (codes "/media" ∷ []);
  is_dir = λ path there. some true;
  modified = λ path there. some 5;
  remove_file = λ path there. there;
  remove_dir = λ path there. if text_eq path media then false else there;
}

tree-IsPosix : IsPosix tree true
tree-IsPosix = record {
  keeps_directory = λ path h. refl;
  keeps_full = λ path entry entries h. elim (Bool-cases (text_eq path media)) [
    | inl e ↦ ground arith
    | inr e ↦ rw (e) refl
  ];
}

cleanup_expired_media-keeps_example : cleanup_expired_media tree (codes "/") 24 1000000 true ≡ true
unfolding text_eq
cleanup_expired_media-keeps_example =
    cleanup_expired_media-keeps tree true tree-IsPosix (codes "/") 24 1000000 (codes "/media" ∷ [])
      refl ((refl, (media, ([], (refl, (refl, tt))))), tt)
