-- ===== src/Channels/Whatsapp/Senders.antt =====
-- Who may write to the channel, and where the files that they send lie.
use picobot.Base.{
  Text, true, List, [], ◌∷◌, map, any, all, text_eq, eq_of_text_eq, text_eq_refl, if◌then◌else◌,
  ◌≡◌, refl, sym, ap, Bool-cases, inl, inr, arith,
}
use picobot.Channels.Whatsapp.{
  normalize_whatsapp_id, is_allowed_sender, is_plain, whatsapp_user_folder,
}

any_weaker :
    (sender : Text) (allowed : List Text)
    → any (λ a. text_eq a sender) allowed ≡ true
    → any (λ a. text_eq (normalize_whatsapp_id a) (normalize_whatsapp_id sender)) allowed ≡ true
unfolding any
any_weaker sender [] h = cc
any_weaker sender (a ∷ allowed) h = elim (Bool-cases (text_eq a sender)) [
  | inl e ↦
      rw
        (
          ap normalize_whatsapp_id (eq_of_text_eq a sender e),
          text_eq_refl (normalize_whatsapp_id sender),
        )
        refl
  | inr e ↦ rw (any_weaker sender allowed (ground arith)) (ground arith)
]

-- Whether a sender is let in depends on the identifier before the first `:` or `@` only, of the
-- sender and of those on the list: a number on the list lets in all its devices.
pub is_allowed_sender-any :
    (sender : Text) (allowed : List Text)
    → is_allowed_sender sender allowed
      ≡ any (λ a. text_eq (normalize_whatsapp_id a) (normalize_whatsapp_id sender)) allowed
unfolding is_allowed_sender
is_allowed_sender-any sender allowed = elim (Bool-cases (any (λ a. text_eq a sender) allowed)) [
  | inl e ↦ rw (e) (sym (any_weaker sender allowed e))
  | inr e ↦ rw (e) refl
]

all_plain : (s : Text) → all is_plain (map (λ c. if is_plain c then c else b'_') s) ≡ true
unfolding all
all_plain [] = refl
all_plain (c ∷ s) = elim (Bool-cases (is_plain c)) [
  | inl e ↦ rw (e) (rw (e) (all_plain s))
  | inr e ↦ rw (e) (all_plain s)
]

-- The folder of a user is made of letters, digits, `-` and `_`, whatever the user's identifier.
whatsapp_user_folder-plain : (user_id : Text) → all is_plain (whatsapp_user_folder user_id) ≡ true
unfolding whatsapp_user_folder
whatsapp_user_folder-plain user_id = all_plain (normalize_whatsapp_id user_id)
