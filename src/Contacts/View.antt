-- ===== src/Contacts/View.antt =====
-- The contacts of the handler as the window sees them (contacts/src): what the window's entries are
-- after the messages in the handler's queue.
use terminal_teams.Prelude.{
  >>=-eq-some, >>=-some, Bool, Bytes, List, Option, Option-cases, [], ap, arith, false, get_elem?,
  get_elem?-lt, inl, inr, leb, length, none, refl, set, some, suc, sym, true, zero, ℕ, ◌&&◌, ◌++◌,
  ◌+◌, ◌>>=◌, ◌∙◌, ◌∷◌, ◌≡◌,
}
use terminal_teams.Contacts.State.{State, active, same_state}
use terminal_teams.Contacts.Message.{Message, state_of, heartbeat, goodbye, unknown}
use terminal_teams.Contacts.Handler.{Entry}
use terminal_teams.Contacts.Window as Window
use terminal_teams.Contacts.Window.{set_state, update_entries}

-- The entries of the window after a list of messages.
unfoldable pub replay : List Window.Entry → List Message → Option (List Window.Entry)
replay entries [] = some entries
replay entries (state_of state identity nickname ∷ ms) =
    update_entries entries state identity nickname >>= λ entries'. replay entries' ms
replay entries (heartbeat ∷ ms) = replay entries ms
replay entries (goodbye ∷ ms) = none
replay entries (unknown n ∷ ms) = none

-- What the window should show of the handler's contacts, the first of which has the id `id`.
abbrev pub view_from : ℕ → List Entry → List Window.Entry
view_from id [] = []
view_from id (e ∷ es) =
    record { identity = id; state = e.state; nickname = e.nickname } ∷ view_from (suc id) es

abbrev pub view : List Entry → List Window.Entry
view = view_from 0

length-view_from : (id : ℕ) (es : List Entry) → length (view_from id es) ≡ length es
length-view_from id [] = refl
length-view_from id (e ∷ es) = ap suc (length-view_from (suc id) es)

view_from-append :
    (id : ℕ) (es : List Entry) (e : Entry) (last : ℕ)
    → id + length es ≡ last
    → view_from id (es ++ e ∷ [])
      ≡ view_from id es ++ record { identity = last; state = e.state; nickname = e.nickname } ∷ []
view_from-append id [] e last h = let h' : id ≡ last = omega arith in rw h'
view_from-append id (x ∷ es) e last h =
    ap (◌∷◌ (record { identity = id; state = x.state; nickname = x.nickname }))
      (view_from-append (suc id) es e last (omega arith))

set_state-suc :
    (x : Window.Entry) (xs : List Window.Entry) (i : ℕ) (s : State)
    → set_state (x ∷ xs) (suc i) s ≡ (set_state xs i s >>= λ ys. some (x ∷ ys))
unfolding set_state
set_state-suc x xs i s = elim (Option-cases (get_elem? xs i)) [
  | inl e ↦ rw e refl
  | inr (y, e) ↦ rw e refl
]

-- A contact that is not renamed changes the view in its state alone.
set_state-view_from :
    (first : ℕ) (es : List Entry) (i : ℕ) (e e' : Entry)
    → get_elem? es i ≡ some e
    → e'.nickname ≡ e.nickname
    → set_state (view_from first es) i e'.state ≡ some (view_from first (set es i e'))
unfolding set_state
set_state-view_from first [] i e e' found same_name = cc
set_state-view_from first (x ∷ es) zero e e' found same_name = ground arith
set_state-view_from first (x ∷ es) (suc i) e e' found same_name = rw (
  set_state-suc (record { identity = first; state = x.state; nickname = x.nickname })
      (view_from (suc first) es) i e'.state,
  set_state-view_from (suc first) es i e e' found same_name,
)

pub view_from-set :
    (first : ℕ) (es : List Entry) (i : ℕ) (e e' : Entry)
    → get_elem? es i ≡ some e
    → e'.nickname ≡ e.nickname
    → e'.state ≡ e.state
    → view_from first (set es i e') ≡ view_from first es
view_from-set first [] i e e' found same_name kept = refl
view_from-set first (x ∷ es) zero e e' found same_name kept = ground arith
view_from-set first (x ∷ es) (suc i) e e' found same_name kept =
    ap (◌∷◌ (record { identity = first; state = x.state; nickname = x.nickname }))
      (view_from-set (suc first) es i e e' found same_name kept)

pub replay-append :
    (entries : List Window.Entry) (ms : List Message) (state : State) (identity : ℕ)
    (nickname : Bytes) (seen : List Window.Entry)
    → replay entries ms ≡ some seen
    → replay entries (ms ++ state_of state identity nickname ∷ [])
      ≡ update_entries seen state identity nickname
unfolding replay
replay-append entries [] state identity nickname seen e =
    let same_entries : entries ≡ seen = cc in
    rw same_entries (>>=-some (update_entries seen state identity nickname))
replay-append entries (state_of s i n ∷ ms) state identity nickname seen e =
    let (entries', first, rest) =
      >>=-eq-some (update_entries entries s i n) (λ es. replay es ms) e in
    rw first (replay-append entries' ms state identity nickname seen rest)
replay-append entries (heartbeat ∷ ms) state identity nickname seen e =
    replay-append entries ms state identity nickname seen e
replay-append entries (goodbye ∷ ms) state identity nickname seen e = cc
replay-append entries (unknown n ∷ ms) state identity nickname seen e = cc

-- The message that announces a new contact, and one about a contact that there is.
pub update_entries-new :
    (es : List Entry) (e : Entry)
    → e.state ≡ active
    → update_entries (view es) active (length es) e.nickname ≡ some (view (es ++ e ∷ []))
unfolding update_entries same_state
update_entries-new es e fresh =
    let past : leb (length (view es)) (length es) ≡ true = ground (arith, length-view_from 0 es) in
    rw past (
      ap some (
        ap (λ s. view es ++ record { identity = length es; state = s; nickname = e.nickname } ∷ [])
          (sym fresh)
        ∙ sym (view_from-append 0 es e (length es) (omega arith))))

pub update_entries-known :
    (es : List Entry) (i : ℕ) (e e' : Entry)
    → get_elem? es i ≡ some e
    → e'.nickname ≡ e.nickname
    → update_entries (view es) e'.state i e'.nickname ≡ some (view (set es i e'))
unfolding update_entries
update_entries-known es i e e' found same_name =
    let inside : leb (length (view es)) i ≡ false =
      ground (arith, length-view_from 0 es, get_elem?-lt es i e found) in
    rw (inside, and-false (same_state e'.state active))
      (set_state-view_from 0 es i e e' found same_name)
  where
    and-false : (b : Bool) → (b && false) ≡ false
    and-false b = ground arith
