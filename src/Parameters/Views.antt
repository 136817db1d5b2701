-- ===== src/Parameters/Views.antt =====
-- src/context/parameters.rs: parameters as a map from keys to values.
use rustful.Base.{
  subst, ◌≡◌, refl, ◌∙◌, ap, ap₂, Bool, Option, none, some, List, [], ◌∷◌, Bytes, bytes_discrete,
  ite, is_none, not, IsMap, get-insert, get-remove, insert-IsMap, remove-IsMap,
}
use rustful.Text.{MaybeUtf8}
use rustful.Http.{Parameters}
use rustful.Parameters.{get_raw, contains_key, insert, remove, extend, get_mut, update_at}

-- The abstract map, with what its operations answer and what they leave.
abbrev pub Viewed : Type 0
Viewed = Bytes → Option MaybeUtf8

unfoldable pub changed : Viewed → Bytes → Option MaybeUtf8 → Viewed
changed view key value j = ite (bytes_discrete key j) value (view j)

-- A call on parameters, and what it answers.
pub data Call : Type 0 where
  look_up has take_away : Bytes → Call
  put_in : Bytes → MaybeUtf8 → Call
  put_all : List (Bytes × MaybeUtf8) → Call
  change : Bytes → (MaybeUtf8 → MaybeUtf8) → Call

pub data Reply : Type 0 where
  value : Option MaybeUtf8 → Reply
  truth : Bool → Reply
  nothing : Reply

abbrev pub call : Call → Parameters → Reply × Parameters
call (look_up key) p = (value (get_raw p key), p)
call (has key) p = (truth (contains_key p key), p)
call (take_away key) p = (value (remove p key).0, (remove p key).1)
call (put_in key v) p = (value (insert p key v).0, (insert p key v).1)
call (put_all entries) p = (nothing, extend p entries)
call (change key k) p = (nothing, get_mut p key k)

abbrev pub changed_all : Viewed → List (Bytes × MaybeUtf8) → Viewed
changed_all view [] = view
changed_all view ((key, v) ∷ entries) = changed_all (changed view key (some v)) entries

abbrev pub changed_by : Viewed → Option MaybeUtf8 → Bytes → (MaybeUtf8 → MaybeUtf8) → Viewed
changed_by view none key k = view
changed_by view (some v) key k = changed view key (some (k v))

abbrev pub abstract_call : Call → Viewed → Reply × Viewed
abstract_call (look_up key) view = (value (view key), view)
abstract_call (has key) view = (truth (not (is_none (view key))), view)
abstract_call (take_away key) view = (value (view key), changed view key none)
abstract_call (put_in key v) view = (value (view key), changed view key (some v))
abstract_call (put_all entries) view = (nothing, changed_all view entries)
abstract_call (change key k) view = (nothing, changed_by view (view key) key k)

-- a sequence of calls: all replies and what is left
abbrev pub calls : List Call → Parameters → List Reply × Parameters
calls [] p = ([], p)
calls (c ∷ cs) p = let (r, p') = call c p in let (rs, p'') = calls cs p' in (r ∷ rs, p'')

abbrev pub abstract_calls : List Call → Viewed → List Reply × Viewed
abstract_calls [] view = ([], view)
abstract_calls (c ∷ cs) view =
    let (r, view') = abstract_call c view in
    let (rs, view'') = abstract_calls cs view' in (r ∷ rs, view'')

-- the parameters hold what the view says
pub record Shows (p : Parameters) (view : Viewed) : Type 0 where
  pub unique : IsMap bytes_discrete p
  pub shown : (key : Bytes) → get_raw p key ≡ view key

insert-Shows :
    (p : Parameters) (view : Viewed) (key : Bytes) (v : MaybeUtf8)
    → Shows p view
    → Shows (insert p key v).1 (changed view key (some v))
unfolding insert get_raw changed
insert-Shows p view key v s = record {
  unique = insert-IsMap bytes_discrete p key v s.unique;
  shown = λ j.
      get-insert bytes_discrete p key j v
      ∙ ap (λ o. ite (bytes_discrete key j) (some v) o) (s.shown j);
}

remove-Shows :
    (p : Parameters) (view : Viewed) (key : Bytes)
    → Shows p view
    → Shows (remove p key).1 (changed view key none)
unfolding remove get_raw changed
remove-Shows p view key s = record {
  unique = remove-IsMap bytes_discrete p key s.unique;
  shown = λ j.
      get-remove bytes_discrete p key j s.unique
      ∙ ap (λ o. ite (bytes_discrete key j) none o) (s.shown j);
}

extend-Shows :
    (entries : List (Bytes × MaybeUtf8)) (p : Parameters) (view : Viewed)
    → Shows p view
    → Shows (extend p entries) (changed_all view entries)
unfolding extend insert
extend-Shows [] p view s = s
extend-Shows ((key, v) ∷ entries) p view s =
    extend-Shows entries (insert p key v).1 (changed view key (some v))
      (insert-Shows p view key v s)

update_at-Shows :
    (o : Option MaybeUtf8) (p : Parameters) (view : Viewed) (key : Bytes)
    (k : MaybeUtf8 → MaybeUtf8)
    → Shows p view
    → Shows (update_at p o key k) (changed_by view o key k)
unfolding update_at insert
update_at-Shows none p view key k s = s
update_at-Shows (some v) p view key k s = insert-Shows p view key (k v) s

get_mut-Shows :
    (p : Parameters) (view : Viewed) (key : Bytes) (k : MaybeUtf8 → MaybeUtf8)
    → Shows p view
    → Shows (get_mut p key k) (changed_by view (view key) key k)
unfolding get_mut get_raw
get_mut-Shows p view key k s =
    subst (λ o. Shows (get_mut p key k) (changed_by view o key k)) (s.shown key)
      (update_at-Shows (get_raw p key) p view key k s)

call-Shows :
    (c : Call) (p : Parameters) (view : Viewed)
    → Shows p view
    → ((call c p).0 ≡ (abstract_call c view).0) × Shows (call c p).1 (abstract_call c view).1
call-Shows (look_up key) p view s = (ap value (s.shown key), s)
call-Shows (has key) p view s =
    (unfold contains_key in unfold get_raw in ap (λ o. truth (not (is_none o))) (s.shown key), s)
call-Shows (take_away key) p view s =
    (unfold remove in unfold get_raw in ap value (s.shown key), remove-Shows p view key s)
call-Shows (put_in key v) p view s =
    (unfold insert in unfold get_raw in ap value (s.shown key), insert-Shows p view key v s)
call-Shows (put_all entries) p view s = (refl, extend-Shows entries p view s)
call-Shows (change key k) p view s = (refl, get_mut-Shows p view key k s)

-- Whatever is called on parameters in which no key comes twice, all answers and what the parameters hold in
-- the end are those of a map from keys to values, and still no key comes twice.
pub calls-Shows :
    (cs : List Call) (p : Parameters) (view : Viewed)
    → Shows p view
    → ((calls cs p).0 ≡ (abstract_calls cs view).0)
      × Shows (calls cs p).1 (abstract_calls cs view).1
calls-Shows [] p view s = (refl, s)
calls-Shows (c ∷ cs) p view s =
    let (r, s') = call-Shows c p view s in
    let (rs, s'') = calls-Shows cs (call c p).1 (abstract_call c view).1 s' in
    (ap₂ (λ x xs. x ∷ xs) r rs, s'')
