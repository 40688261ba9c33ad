-- ===== src/Contacts/Invariant.antt =====
-- What holds of the contacts handler between two operations (contacts/src/TTContactsHandler.cpp), and
-- that `send`, `receive`, `activate` and `deactivate` keep it.
use terminal_teams.Prelude.{
  Bool, Bool-cases, Bytes, List, Option, [], ap, arith, false, get_elem?, if◌then◌else◌, inl, inr,
  length, length-set, none, not, refl, same, set, some, suc, sym, true, zero, ℕ, ◌++◌, ◌<◌, ◌==◌,
  ◌||◌, ◌∙◌, ◌∷◌, ◌≡◌, ◌⊎◌,
}
use terminal_teams.Contacts.State.{State, same_state, is_selected}
use terminal_teams.Contacts.Message.{state_of, state_message, data_max_length}
use terminal_teams.Contacts.Handler.{
  Entry, Handler, Outcome, init, push_message, push_state, update,
}
use terminal_teams.Contacts.Window as Window
use terminal_teams.Contacts.View.{replay, view, view_from-set, replay-append, update_entries-known}

-- The text fits the buffer of a message.
abbrev pub IsShort : Entry → Type 0
IsShort e = length e.nickname < data_max_length

abbrev pub is_at : Option ℕ → ℕ → Bool
is_at none i = false
is_at (some c) i = c == i

-- Every id in the map is that of a contact.
abbrev pub Known : ℕ → List (Bytes × ℕ) → Type 0
Known n [] = Unit {0}
Known n ((key, id) ∷ rest) = (id < n) × Known n rest

-- `entries` are those of the window before it reads what is queued. A handler that was stopped drops
-- messages, so what the window shows, and which contact is selected, is said of a live one.
pub record Inv (entries : List Window.Entry) (h : Handler) : Type 0 where
  pub short : (i : ℕ) (e : Entry) → get_elem? h.contacts i ≡ some e → IsShort e
  pub in_range : (c : ℕ) → h.current_contact ≡ some c → c < length h.contacts
  pub known : Known (length h.contacts) h.identity_map
  pub selection :
      h.stopped ≡ false
      → (i : ℕ) (e : Entry) → get_elem? h.contacts i ≡ some e
      → is_selected e.state ≡ is_at h.current_contact i
  pub mirrored : h.stopped ≡ false → replay entries h.queued ≡ some (view h.contacts)

-- The operation has a defined result, and `P` holds of the handler after it.
abbrev pub After : (Handler → Type 0) → Outcome → Type 0
After P none = ⊥
After P (some r) = P r.0

pub init-Inv : Inv [] init
unfolding init replay
init-Inv = record {
  short = λ i e found. cc;
  in_range = λ c e. cc;
  known = tt;
  selection = λ live i e found. cc;
  mirrored = λ live. refl;
}

-- A contact `id` becomes `e'`, under its name, and the window is told of a new state.
unfoldable pub touched : Handler → ℕ → State → Entry → Handler
touched h id previous e' = record h {
  contacts = set h.contacts id e';
  queued =
      if same_state previous e'.state || h.stopped
      then h.queued
      else h.queued ++ state_of e'.state id e'.nickname ∷ [];
}

pub push_state-eq :
    (h : Handler) (id : ℕ) (e : Entry)
    → IsShort e
    → push_state h id e ≡ some (push_message h (state_of e.state id e.nickname))
unfolding push_state state_message
push_state-eq h id e short = ground arith

pub update-eq :
    (h : Handler) (id : ℕ) (previous : State) (e' : Entry)
    → IsShort e'
    → update h id previous e'
      ≡ some (touched h id previous e', same_state previous e'.state || not h.stopped)
unfolding update touched push_message
update-eq h id previous e' short =
    ground (arith, push_state-eq (record h { contacts = set h.contacts id e' }) id e' short)

-- An element of a list after a write.
pub get_elem?-set-cases :
    (es : List Entry) (i j : ℕ) (e' : Entry) (x : Entry)
    → get_elem? (set es i e') j ≡ some x
    → ((i ≡ j) × (x ≡ e')) ⊎ (get_elem? es j ≡ some x)
get_elem?-set-cases [] i j e' x h = inr h
get_elem?-set-cases (y ∷ ys) zero zero e' x h = inl (refl, cc)
get_elem?-set-cases (y ∷ ys) zero (suc j) e' x h = inr h
get_elem?-set-cases (y ∷ ys) (suc i) zero e' x h = inr h
get_elem?-set-cases (y ∷ ys) (suc i) (suc j) e' x h = elim (get_elem?-set-cases ys i j e' x h) [
  | inl (at, same_entry) ↦ inl (ap suc at, same_entry)
  | inr old ↦ inr old
]

state-of-same_state : (a b : State) → same_state a b ≡ true → a ≡ b
unfolding same_state
state-of-same_state a b h = ground arith

module _ (entries : List Window.Entry) (h : Handler) (v : Inv entries h) (id : ℕ) (e e' : Entry)
    (found : get_elem? h.contacts id ≡ some e) (same_name : e'.nickname ≡ e.nickname) where
  touched-IsShort : (i : ℕ) (x : Entry) → get_elem? (set h.contacts id e') i ≡ some x → IsShort x
  touched-IsShort i x at = elim (get_elem?-set-cases h.contacts id i e' x at) [
    | inl (_, new) ↦ rw (new, same_name) (v.short id e found)
    | inr old ↦ v.short i x old
  ]

  touched-mirrored :
      h.stopped ≡ false
      → replay entries (touched h id e.state e').queued ≡ some (view (set h.contacts id e'))
  unfolding touched
  touched-mirrored live = elim (Bool-cases (same_state e.state e'.state)) [
    | inl same ↦ rw same (
        v.mirrored live
        ∙ ap some (
            sym (
              view_from-set 0 h.contacts id e e' found same_name
                (sym (state-of-same_state e.state e'.state same)))))
    | inr differs ↦
        rw (differs, live)
          (replay-append entries h.queued e'.state id e'.nickname (view h.contacts)
              (v.mirrored live)
            ∙ update_entries-known h.contacts id e e' found same_name)
  ]

  -- The selected contact is another one after the change only if the state says so.
  pub touched-Inv :
      is_selected e'.state ≡ is_selected e.state → Inv entries (touched h id e.state e')
  unfolding touched
  touched-Inv keeps = record {
    short = touched-IsShort;
    in_range = λ c cur. omega (arith, v.in_range c cur, length-set h.contacts id e');
    known = rw (length-set h.contacts id e') v.known;
    selection = λ live i x at. elim (get_elem?-set-cases h.contacts id i e' x at) [
      | inl (same_id, new) ↦ rw (new, ← same_id) (keeps ∙ v.selection live id e found)
      | inr old ↦ v.selection live i x old
    ];
    mirrored = touched-mirrored;
  }

-- What the operations on contacts that there are leave alone.
pub record Frame (h h' : Handler) : Type 0 where
  pub same_size : length h'.contacts ≡ length h.contacts
  pub same_current : h'.current_contact ≡ h.current_contact
  pub same_stopped : h'.stopped ≡ h.stopped
  pub same_map : h'.identity_map ≡ h.identity_map

pub Frame-refl : (h : Handler) → Frame h h
Frame-refl h = record {
  same_size = refl;
  same_current = refl;
  same_stopped = refl;
  same_map = refl;
}

pub touched-Frame :
    (h : Handler) (id : ℕ) (previous : State) (e' : Entry) → Frame h (touched h id previous e')
unfolding touched
touched-Frame h id previous e' = record {
  same_size = length-set h.contacts id e';
  same_current = refl;
  same_stopped = refl;
  same_map = refl;
}
