-- ===== src/Session/Memories/Table.antt =====
-- The table of memories, as a client sees it: a map from users and keys to contents.
use mathlib.Core.Path.{fun_ext}
use picobot.Base.{
  Text, codes, true, false, List, [], ◌∷◌, Option, none, some, keep, not, ◌&&◌, if◌then◌else◌,
  text_eq, text_eq_comm, ◌≡◌, refl, Bool-cases, if_same, if_none, if_twice, if_swap, inl, inr,
  arith, sym, ◌∙◌, ap, text_eq_left,
}
use picobot.Kernel.Capability.{ToolContext}
use picobot.Kernel.Tool.{Result, ok, err, ◌>>=◌}
use picobot.Tools.Input.{Input, str_field}
use picobot.Session.Memories.{
  Memory, Memories, is_at, upsert, save_memory, delete_memory, list_memories, Request, list_all,
  save, delete, perform, perform_request, execute, read_request, request_of,
}

-- The content stored under a key of a user.
unfoldable pub lookup : Memories → Text → Text → Option Text
lookup [] user_id key = none
lookup (row ∷ rows) user_id key =
    if is_at user_id key row then some row.content else lookup rows user_id key

abbrev View : Type 0
View = Text → Text → Option Text

-- What a request does to the map.
unfoldable pub effect : Text → Request → View → View
effect user_id list_all view u k = view u k
effect user_id (save key content) view u k =
    if text_eq user_id u && text_eq key k then some content else view u k
effect user_id (delete key) view u k = if text_eq user_id u && text_eq key k then none else view u k

-- The same place.
same_place :
    (row : Memory) (a k b l : Text)
    → is_at a k row ≡ true
    → is_at b l row ≡ (text_eq a b && text_eq k l)
same_place row a k b l h =
    let both : (text_eq row.user_id a ≡ true) × (text_eq row.key k ≡ true) = ground arith in
    rw (text_eq_left row.user_id a b both.0, text_eq_left row.key k l both.1) refl

other_place :
    (row : Memory) (a k b l : Text)
    → is_at a k row ≡ true
    → is_at b l row ≡ false
    → (text_eq b a && text_eq l k) ≡ false
other_place row a k b l h g =
    rw (text_eq_comm b a, text_eq_comm l k) (sym (same_place row a k b l h) ∙ g)

lookup-upsert :
    (new : Memory) (rows : Memories) (u k : Text)
    → lookup (upsert new rows) u k ≡ (if is_at u k new then some new.content else lookup rows u k)
unfolding lookup upsert
lookup-upsert new [] u k = refl
lookup-upsert new (row ∷ rows) u k = elim (Bool-cases (is_at new.user_id new.key row)) [
  | inl e ↦
      rw (e, same_place row new.user_id new.key u k e)
        (if_twice (text_eq new.user_id u && text_eq new.key k) (some new.content) (lookup rows u k)
          (some row.content))
  | inr e ↦
      rw (e, lookup-upsert new rows u k)
        (if_swap (is_at u k new) (is_at u k row) (some new.content) (lookup rows u k)
          (some row.content) (λ h. other_place row u k new.user_id new.key h e))
]

lookup-keep :
    (a b : Text) (rows : Memories) (u k : Text)
    → lookup (keep (λ row. not (is_at a b row)) rows) u k
      ≡ (if text_eq a u && text_eq b k then none else lookup rows u k)
unfolding lookup keep
lookup-keep a b [] u k = sym (if_same _ none)
lookup-keep a b (row ∷ rows) u k = elim (Bool-cases (is_at a b row)) [
  | inl e ↦
      rw (e, lookup-keep a b rows u k, same_place row a b u k e)
        (if_none (text_eq a u && text_eq b k) (some row.content) (lookup rows u k))
  | inr e ↦
      rw (e, lookup-keep a b rows u k)
        (if_swap (text_eq a u && text_eq b k) (is_at u k row) none (lookup rows u k)
          (some row.content) (λ h. other_place row u k a b h e))
]

module _ (order : Memories → Memories) (now : Text) (ctx : ToolContext) where
  perform-effect :
      (user_id : Text) (request : Request) (rows : Memories) (u k : Text)
      → lookup (perform order now ctx user_id request rows).1 u k
        ≡ effect user_id request (lookup rows) u k
  unfolding perform effect list_memories save_memory delete_memory
  perform-effect user_id list_all rows u k = refl
  perform-effect user_id (save key content) rows u k = lookup-upsert _ rows u k
  perform-effect user_id (delete key) rows u k = lookup-keep user_id key rows u k

-- A call of the tool: the time of its clock, its context and its input.
pub record Call : Type 0 where
  pub now : Text
  pub ctx : ToolContext
  pub input : Input

abbrev pub call_effect : Result (Text × Request) → View → View
call_effect (err e) view u k = view u k
call_effect (ok (user_id, request)) view u k = effect user_id request view u k

-- The calls one after another, on the table and on the map.
unfoldable pub run : (Memories → Memories) → List Call → Memories → Memories
unfolding execute
run order [] rows = rows
run order (call ∷ calls) rows = run order calls (execute order call.now call.ctx call.input rows).1

unfoldable pub replay : List Call → View → View
unfolding read_request
replay [] view u k = view u k
replay (call ∷ calls) view u k =
    replay calls (call_effect (read_request call.ctx call.input) view) u k

request_lem :
    (order : Memories → Memories) (call : Call) (r : Result (Text × Request)) (rows : Memories)
    (u k : Text)
    → lookup (perform_request order call.now call.ctx r rows).1 u k
      ≡ call_effect r (lookup rows) u k
unfolding perform_request
request_lem order call (err e) rows u k = refl
request_lem order call (ok (user_id, request)) rows u k =
    perform-effect order call.now call.ctx user_id request rows u k

view_of :
    (order : Memories → Memories) (call : Call) (rows : Memories)
    → lookup (execute order call.now call.ctx call.input rows).1
      ≡ call_effect (read_request call.ctx call.input) (lookup rows)
unfolding execute
view_of order call rows =
    fun_ext (λ u. fun_ext (λ k. request_lem order call (read_request call.ctx call.input) rows u k))

-- Whatever calls are made, with whatever inputs, the table reads as a map on which a valid save
-- writes the content under the caller's key, a valid delete removes it, and nothing else does
-- anything; the order in which rows are listed plays no part.
pub run-replay :
    (order : Memories → Memories) (calls : List Call) (rows : Memories) (u k : Text)
    → lookup (run order calls rows) u k ≡ replay calls (lookup rows) u k
unfolding run replay
run-replay order [] rows u k = refl
run-replay order (call ∷ calls) rows u k =
    rw (← view_of order call rows)
      (run-replay order calls (execute order call.now call.ctx call.input rows).1 u k)

module _ (a b : Text) (different : text_eq a b ≡ false) where
  effect-other : (request : Request) (view : View) (k : Text) → effect a request view b k ≡ view b k
  unfolding effect
  effect-other list_all view k = refl
  effect-other (save key content) view k = rw (different) refl
  effect-other (delete key) view k = rw (different) refl

  arguments-other :
      (r : Result Request) (view : View) (k : Text)
      → call_effect (r >>= λ request. ok (a, request)) view b k ≡ view b k
  arguments-other (err e) view k = refl
  arguments-other (ok request) view k = effect-other request view k

  action-other :
      (input : Input) (action : Result Text) (view : View) (k : Text)
      → call_effect
          (action >>= λ name. request_of input name >>= λ request. ok (a, request))
          view
          b
          k
        ≡ view b k
  action-other input (err e) view k = refl
  action-other input (ok name) view k = arguments-other (request_of input name) view k

  -- A call in the context of one user, whatever its input, leaves what is stored for another user
  -- as it was.
  pub execute-other :
      (order : Memories → Memories) (call : Call) (rows : Memories) (k : Text)
      → call.ctx.user_id ≡ some a
      → lookup (execute order call.now call.ctx call.input rows).1 b k ≡ lookup rows b k
  unfolding read_request
  execute-other order call rows k h =
      ap (λ view. view b k) (view_of order call rows)
      ∙ rw (h) (
          action-other call.input (str_field call.input (codes "action") (codes "missing action"))
            (lookup rows) k)
