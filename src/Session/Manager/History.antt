-- ===== src/Session/Manager/History.antt =====
-- What `get_messages` returns of a session whose messages were stored in their order.
use picobot.Base.{
  Text, ℕ, zero, suc, ◌-◌, ◌≤◌, ◌<◌, List, [], ◌∷◌, ◌++◌, take, drop, length, All, length-append,
  leb, ◌≡◌, refl, ap, ◌∙◌, arith, Bool-cases, inl, inr,
}
use picobot.Session.Memory.{StoredMessage}
use picobot.Session.Manager.{
  Tables, insert_desc, order_desc, insert_asc, sort_by_key, messages_of, get_messages,
}

-- A message is older than others.
abbrev pub IsBefore : StoredMessage → List StoredMessage → Type 0
IsBefore m ms = All (λ n. m.seq_order < n.seq_order) ms

-- The order numbers rise.
abbrev pub IsAscending : List StoredMessage → Type 0
IsAscending [] = Unit
IsAscending (m ∷ ms) = IsBefore m ms × IsAscending ms

abbrev rev : List StoredMessage → List StoredMessage
rev [] = []
rev (m ∷ ms) = rev ms ++ m ∷ []

pub IsBefore-append :
    (m : StoredMessage) (xs ys : List StoredMessage)
    → IsBefore m xs
    → IsBefore m ys
    → IsBefore m (xs ++ ys)
IsBefore-append m [] ys h k = k
IsBefore-append m (x ∷ xs) ys h k = (h.0, IsBefore-append m xs ys h.1 k)

IsBefore-rev : (m : StoredMessage) (xs : List StoredMessage) → IsBefore m xs → IsBefore m (rev xs)
IsBefore-rev m [] h = h
IsBefore-rev m (x ∷ xs) h = IsBefore-append m (rev xs) (x ∷ []) (IsBefore-rev m xs h.1) (h.0, tt)

IsAscending-drop : (n : ℕ) (ms : List StoredMessage) → IsAscending ms → IsAscending (drop n ms)
IsAscending-drop zero ms h = h
IsAscending-drop (suc n) [] h = h
IsAscending-drop (suc n) (m ∷ ms) h = IsAscending-drop n ms h.1

-- Ordering backwards reverses, and sorting restores.
insert_desc-last :
    (m : StoredMessage) (ms : List StoredMessage) → IsBefore m ms → insert_desc m ms ≡ ms ++ m ∷ []
unfolding insert_desc
insert_desc-last m [] h = refl
insert_desc-last m (n ∷ ms) h = ground (arith, insert_desc-last m ms h.1)

order_desc-rev : (ms : List StoredMessage) → IsAscending ms → order_desc ms ≡ rev ms
unfolding order_desc
order_desc-rev [] h = refl
order_desc-rev (m ∷ ms) h =
    ap (insert_desc m) (order_desc-rev ms h.1) ∙ insert_desc-last m (rev ms) (IsBefore-rev m ms h.0)

sort_by_key-snoc :
    (m : StoredMessage) (ms : List StoredMessage)
    → IsBefore m ms
    → sort_by_key (ms ++ m ∷ []) ≡ m ∷ sort_by_key ms
unfolding sort_by_key insert_asc
sort_by_key-snoc m [] h = refl
sort_by_key-snoc m (n ∷ ms) h = ap (insert_asc n) (sort_by_key-snoc m ms h.1) ∙ ground (arith, h.0)

sort_by_key-rev : (ms : List StoredMessage) → IsAscending ms → sort_by_key (rev ms) ≡ ms
unfolding sort_by_key
sort_by_key-rev [] h = refl
sort_by_key-rev (m ∷ ms) h =
    sort_by_key-snoc m (rev ms) (IsBefore-rev m ms h.0) ∙ ap (λ t. m ∷ t) (sort_by_key-rev ms h.1)

-- The first of the reversed list are the last.
length-rev : (ms : List StoredMessage) → length (rev ms) ≡ length ms
length-rev [] = refl
length-rev (m ∷ ms) = omega (arith, length-append {0} (rev ms) (m ∷ []), length-rev ms)

take_within : (n : ℕ) (xs ys : List StoredMessage) → n ≤ length xs → take n (xs ++ ys) ≡ take n xs
take_within zero xs ys h = refl
take_within (suc n) [] ys h = absurd (omega arith)
take_within (suc n) (x ∷ xs) ys h = ap (λ t. x ∷ t) (take_within n xs ys (omega arith))

take_all : (n : ℕ) (xs : List StoredMessage) → length xs ≤ n → take n xs ≡ xs
take_all zero [] h = refl
take_all zero (x ∷ xs) h = absurd (omega arith)
take_all (suc n) [] h = refl
take_all (suc n) (x ∷ xs) h = ap (λ t. x ∷ t) (take_all n xs (omega arith))

pub drop_by : (k j : ℕ) (xs : List StoredMessage) → k ≡ j → drop k xs ≡ drop j xs
drop_by k j xs e = ap (λ i. drop i xs) e

take-rev : (n : ℕ) (ms : List StoredMessage) → take n (rev ms) ≡ rev (drop (length ms - n) ms)
take-rev zero [] = refl
take-rev (suc n) [] = ap rev (drop_by 0 (0 - suc n) [] (omega arith))
take-rev n (m ∷ ms) = elim (Bool-cases (leb n (length ms))) [
  | inl e ↦
      take_within n (rev ms) (m ∷ []) (ground (arith, length-rev ms))
      ∙ take-rev n ms
      ∙ ap rev (drop_by (suc (length ms - n)) (suc (length ms) - n) (m ∷ ms) (ground arith))
  | inr e ↦
      take_all n (rev (m ∷ ms)) (ground (arith, length-rev (m ∷ ms)))
      ∙ ap rev (drop_by 0 (suc (length ms) - n) (m ∷ ms) (ground arith))
]

-- Of a session whose messages were stored with rising order numbers, `get_messages` returns the
-- last ones, as many as the limit allows, in the order in which they were stored.
pub get_messages-latest :
    (session_id : Text) (limit : ℕ) (tables : Tables)
    → IsAscending (messages_of session_id tables.messages)
    → get_messages session_id limit tables
      ≡ drop
          (length (messages_of session_id tables.messages) - limit)
          (messages_of session_id tables.messages)
unfolding get_messages
get_messages-latest session_id limit tables h =
    let ms = messages_of session_id tables.messages in
    let k = length ms - limit in
    ap (λ t. sort_by_key (take limit t)) (order_desc-rev ms h)
    ∙ ap sort_by_key (take-rev limit ms)
    ∙ sort_by_key-rev (drop k ms) (IsAscending-drop k ms h)
