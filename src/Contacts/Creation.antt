-- ===== src/Contacts/Creation.antt =====
-- `create` of contacts/src/TTContactsHandler.cpp, and the identities that it makes known.
use terminal_teams.Prelude.{
  Bytes, List, Option, [], ap, arith, false, get_elem?, if◌then◌else◌, inl, inr, length,
  length-append, none, not, refl, same_refl, some, suc, sym, zero, ℕ, ◌++◌, ◌<◌, ◌∙◌, ◌∷◌, ◌≡◌, ◌≤◌,
  ◌⊎◌,
}
use terminal_teams.Contacts.State.{active, is_selected}
use terminal_teams.Contacts.Message.{state_of, state_message, data_max_length}
use terminal_teams.Contacts.Handler.{
  Entry, Handler, push_message, create, new_entry, find_identity, get_by_identity,
}
use terminal_teams.Contacts.Window as Window
use terminal_teams.Contacts.View.{view, replay-append, update_entries-new}
use terminal_teams.Contacts.Invariant.{Inv, Known, is_at}

-- The handler after a creation, but for the message.
pub created : Handler → Bytes → Bytes → Bytes → Handler
created h nickname identity address = record h {
  contacts = h.contacts ++ new_entry nickname identity address ∷ [];
  identity_map = (identity, length h.contacts) ∷ h.identity_map;
  queued =
      if h.stopped then h.queued else h.queued ++ state_of active (length h.contacts) nickname ∷ [];
}

pub create-eq :
    (h : Handler) (nickname identity address : Bytes)
    → length nickname < data_max_length
    → create h nickname identity address ≡ some (created h nickname identity address, not h.stopped)
unfolding create created push_message state_message
create-eq h nickname identity address short = ground arith

get_elem?-append-cases :
    (es : List Entry) (e : Entry) (i : ℕ) (x : Entry)
    → get_elem? (es ++ e ∷ []) i ≡ some x
    → ((x ≡ e) × (i ≡ length es)) ⊎ (get_elem? es i ≡ some x)
get_elem?-append-cases [] e zero x h = inl (cc, refl)
get_elem?-append-cases [] e (suc i) x h = inr h
get_elem?-append-cases (y ∷ ys) e zero x h = inr h
get_elem?-append-cases (y ∷ ys) e (suc i) x h = elim (get_elem?-append-cases ys e i x h) [
  | inl (new, at) ↦ inl (new, ap suc at)
  | inr old ↦ inr old
]

Known-mono : (m n : ℕ) (ids : List (Bytes × ℕ)) → m ≤ n → Known m ids → Known n ids
Known-mono m n [] h k = tt
Known-mono m n ((key, id) ∷ rest) h k = (omega arith, Known-mono m n rest h k.1)

is_at-past : (cur : Option ℕ) (n : ℕ) → ((c : ℕ) → cur ≡ some c → c < n) → is_at cur n ≡ false
is_at-past none n h = refl
is_at-past (some c) n h = ground (arith, h c refl)

pub find_identity_self :
    (identity : Bytes) (id : ℕ) (rest : List (Bytes × ℕ))
    → find_identity ((identity, id) ∷ rest) identity ≡ some id
unfolding find_identity
find_identity_self identity id rest = rw (same_refl identity) refl

-- A contact whose nickname fits is created, keeping the invariant, and the call succeeds on a live
-- handler. It gets the next id, and its identity leads to that id.
pub create-Inv :
    (entries : List Window.Entry) (h : Handler) (nickname identity address : Bytes)
    → length nickname < data_max_length
    → Inv entries h
    → (h' : Handler) × (create h nickname identity address ≡ some (h', not h.stopped))
      × Inv entries h'
      × (length h'.contacts ≡ suc (length h.contacts))
      × (h'.current_contact ≡ h.current_contact)
      × (h'.stopped ≡ h.stopped)
      × (get_by_identity h' identity ≡ some (length h.contacts))
unfolding created is_selected new_entry get_by_identity
create-Inv entries h nickname identity address short v = (
  created h nickname identity address,
  create-eq h nickname identity address short,
  record {
    short = λ i x at. elim (get_elem?-append-cases h.contacts e i x at) [
      | inl (new, _) ↦ rw new short
      | inr old ↦ v.short i x old
    ];
    in_range = λ c cur. omega (arith, v.in_range c cur, size);
    known = (omega (arith, size), Known-mono _ _ h.identity_map (omega (arith, size)) v.known);
    selection = λ live i x at. elim (get_elem?-append-cases h.contacts e i x at) [
      | inl (new, last) ↦
          rw (new, last) (sym (is_at-past h.current_contact (length h.contacts) v.in_range))
      | inr old ↦ v.selection live i x old
    ];
    mirrored = λ live. rw live (
        replay-append entries h.queued active (length h.contacts) nickname (view h.contacts)
          (v.mirrored live)
        ∙ update_entries-new h.contacts e refl);
  },
  size,
  refl,
  refl,
  found,
)
  where
    e : Entry
    e = new_entry nickname identity address

    size : length (h.contacts ++ e ∷ []) ≡ suc (length h.contacts)
    size = omega (arith, length-append h.contacts (e ∷ []))

    found :
        find_identity ((identity, length h.contacts) ∷ h.identity_map) identity
        ≡ some (length h.contacts)
    found = find_identity_self identity (length h.contacts) h.identity_map

-- A nickname that does not fit makes the call undefined: it would be written past its buffer.
pub create-long :
    (h : Handler) (nickname identity address : Bytes)
    → data_max_length ≤ length nickname
    → create h nickname identity address ≡ none
unfolding create state_message
create-long h nickname identity address long = ground arith
