-- ===== src/FilePath/Normal.antt =====
-- What `normalize_path` leaves of a path.
use mathlib.Core.List.{reverse, reverse-cons, reverse-reverse, append_assoc}
use picobot.Base.{
  Text, ◌↔◌, true, List, [], ◌∷◌, ◌++◌, ◌≡◌, refl, sym, ap, ◌∙◌, arith, All, eq_of_text_eq,
  text_eq_refl,
}
use picobot.FilePath.{
  Component, root_dir, cur_dir, parent_dir, normal, pop, push_component, push_all, normalize_path,
  component_eq, path_starts_with,
}

-- A named component.
abbrev pub IsName : Component → Type 0
IsName (normal n) = Unit
IsName _ = ⊥

-- Names only, below the root if there is one: the buffer of `normalize_path`, in reverse.
abbrev IsBuffer : List Component → Type 0
IsBuffer [] = Unit
IsBuffer (root_dir ∷ []) = Unit
IsBuffer (normal n ∷ buf) = IsBuffer buf
IsBuffer _ = ⊥

-- The same of a path in order: the root first or not at all, then names.
abbrev pub IsNormal : List Component → Type 0
IsNormal (root_dir ∷ cs) = All IsName cs
IsNormal cs = All IsName cs

pop-IsBuffer : (buf : List Component) → IsBuffer buf → IsBuffer (pop buf)
unfolding pop
pop-IsBuffer [] h = tt
pop-IsBuffer (root_dir ∷ buf) h = h
pop-IsBuffer (cur_dir ∷ buf) h = absurd h
pop-IsBuffer (parent_dir ∷ buf) h = absurd h
pop-IsBuffer (normal n ∷ buf) h = h

push_all-IsBuffer : (buf cs : List Component) → IsBuffer buf → IsBuffer (push_all buf cs)
unfolding push_all push_component
push_all-IsBuffer buf [] h = h
push_all-IsBuffer buf (root_dir ∷ cs) h = push_all-IsBuffer (root_dir ∷ []) cs tt
push_all-IsBuffer buf (cur_dir ∷ cs) h = push_all-IsBuffer buf cs h
push_all-IsBuffer buf (parent_dir ∷ cs) h = push_all-IsBuffer (pop buf) cs (pop-IsBuffer buf h)
push_all-IsBuffer buf (normal n ∷ cs) h = push_all-IsBuffer (normal n ∷ buf) cs h

All-append-IsName :
    (cs : List Component) (n : Text) → All IsName cs → All IsName (cs ++ normal n ∷ [])
All-append-IsName [] n h = (tt, tt)
All-append-IsName (c ∷ cs) n h = (h.0, All-append-IsName cs n h.1)

IsNormal-append_name :
    (cs : List Component) (n : Text) → IsNormal cs → IsNormal (cs ++ normal n ∷ [])
IsNormal-append_name [] n h = (tt, tt)
IsNormal-append_name (root_dir ∷ cs) n h = All-append-IsName cs n h
IsNormal-append_name (cur_dir ∷ cs) n h = absurd h.0
IsNormal-append_name (parent_dir ∷ cs) n h = absurd h.0
IsNormal-append_name (normal m ∷ cs) n h = (tt, All-append-IsName cs n h.1)

reverse-IsNormal : (buf : List Component) → IsBuffer buf → IsNormal (reverse buf)
reverse-IsNormal [] h = tt
reverse-IsNormal (root_dir ∷ []) h = tt
reverse-IsNormal (root_dir ∷ c ∷ buf) h = absurd h
reverse-IsNormal (cur_dir ∷ buf) h = absurd h
reverse-IsNormal (parent_dir ∷ buf) h = absurd h
reverse-IsNormal (normal n ∷ buf) h =
    rw (reverse-cons (normal n) buf) (IsNormal-append_name (reverse buf) n (reverse-IsNormal buf h))

-- Whatever the path, what is left of it are names only, with the root in front or not: no `.` and
-- no `..` survives the normalisation.
pub normalize_path-IsNormal : (cs : List Component) → IsNormal (normalize_path cs)
unfolding normalize_path
normalize_path-IsNormal cs =
    reverse-IsNormal (push_all [] cs) (unfold normalize_path in push_all-IsBuffer [] cs tt)

push_all-names : (buf cs : List Component) → All IsName cs → push_all buf cs ≡ reverse cs ++ buf
unfolding push_all push_component
push_all-names buf [] h = refl
push_all-names buf (root_dir ∷ cs) h = absurd h.0
push_all-names buf (cur_dir ∷ cs) h = absurd h.0
push_all-names buf (parent_dir ∷ cs) h = absurd h.0
push_all-names buf (normal n ∷ cs) h =
    simp (push_all-names (normal n ∷ buf) cs h.1, reverse-cons, append_assoc)

push_all-IsNormal : (cs : List Component) → IsNormal cs → push_all [] cs ≡ reverse cs
unfolding push_all push_component
push_all-IsNormal [] h = refl
push_all-IsNormal (root_dir ∷ cs) h =
    push_all-names (root_dir ∷ []) cs h ∙ sym (reverse-cons root_dir cs)
push_all-IsNormal (cur_dir ∷ cs) h = absurd h.0
push_all-IsNormal (parent_dir ∷ cs) h = absurd h.0
push_all-IsNormal (normal n ∷ cs) h =
    push_all-names (normal n ∷ []) cs h.1 ∙ sym (reverse-cons (normal n) cs)

-- A path of names, below the root or not, stays as it is.
normalize_path-fixes : (cs : List Component) → IsNormal cs → normalize_path cs ≡ cs
unfolding normalize_path
normalize_path-fixes cs h = rw (push_all-IsNormal cs h) (reverse-reverse cs)

push_all-append :
    (buf cs ds : List Component) → push_all buf (cs ++ ds) ≡ push_all (push_all buf cs) ds
unfolding push_all
push_all-append buf [] ds = refl
push_all-append buf (c ∷ cs) ds = push_all-append (push_component buf c) cs ds

-- Normalising twice is normalising once, and a name with `..` behind it cancels wherever it stands.
normalize_path_idem :
    (cs ds : List Component) (n : Text)
    → (normalize_path (normalize_path cs) ≡ normalize_path cs)
      × (normalize_path (cs ++ normal n ∷ parent_dir ∷ ds) ≡ normalize_path (cs ++ ds))
      × (normalize_path (cs ++ cur_dir ∷ ds) ≡ normalize_path (cs ++ ds))
unfolding normalize_path
normalize_path_idem cs ds n = (
  unfold normalize_path in
      normalize_path-fixes (reverse (push_all [] cs)) (normalize_path-IsNormal cs),
  rw (push_all-append [] cs (normal n ∷ parent_dir ∷ ds), push_all-append [] cs ds),
  rw (push_all-append [] cs (cur_dir ∷ ds), push_all-append [] cs ds),
)

component_eq_refl : (c : Component) → component_eq c c ≡ true
unfolding component_eq
component_eq_refl root_dir = refl
component_eq_refl cur_dir = refl
component_eq_refl parent_dir = refl
component_eq_refl (normal n) = text_eq_refl n

eq_of_component_eq : (c d : Component) → component_eq c d ≡ true → c ≡ d
unfolding component_eq
eq_of_component_eq root_dir root_dir h = refl
eq_of_component_eq cur_dir cur_dir h = refl
eq_of_component_eq parent_dir parent_dir h = refl
eq_of_component_eq (normal m) (normal n) h = ap normal (eq_of_text_eq m n h)
eq_of_component_eq _ _ h = cc

prefix_of_path_starts_with :
    (cs bs : List Component)
    → path_starts_with cs bs ≡ true
    → (rest : List Component) × (cs ≡ bs ++ rest)
unfolding path_starts_with
prefix_of_path_starts_with cs [] h = (cs, refl)
prefix_of_path_starts_with [] (b ∷ bs) h = cc
prefix_of_path_starts_with (c ∷ cs) (b ∷ bs) h =
    let both : (component_eq c b ≡ true) × (path_starts_with cs bs ≡ true) = ground arith in
    let (rest, e) = prefix_of_path_starts_with cs bs both.1 in
    (rest, cc (eq_of_component_eq c b both.0, e))

path_starts_with-append : (bs rest : List Component) → path_starts_with (bs ++ rest) bs ≡ true
unfolding path_starts_with
path_starts_with-append [] [] = refl
path_starts_with-append [] (c ∷ rest) = refl
path_starts_with-append (b ∷ bs) rest =
    ground (arith, component_eq_refl b, path_starts_with-append bs rest)

-- `starts_with` holds exactly for the extensions of the base by components.
pub path_starts_with_iff :
    (cs bs : List Component)
    → (path_starts_with cs bs ≡ true) ↔ ((rest : List Component) × (cs ≡ bs ++ rest))
path_starts_with_iff cs bs =
    (prefix_of_path_starts_with cs bs, λ (rest, e). rw e (path_starts_with-append bs rest))
