-- ===== src/Contacts/Selection.antt =====
-- `select` of contacts/src/TTContactsHandler.cpp.
use native.Mathlib.Decide.{ℕ_discrete}
use terminal_teams.Prelude.{
  List, Option, Option-cases, [], ap, arith, false, get_elem?, get_elem?-lt, get_elem?-set_ne,
  get_elem?-set_self, get_elem?-some, if◌then◌else◌, inl, inr, leb, length, length-set, none, not,
  refl, set, some, sym, true, ℕ, ◌++◌, ◌<◌, ◌>>=◌, ◌∙◌, ◌∷◌, ◌≡◌, ◌≢◌,
}
use terminal_teams.Contacts.State.{
  active, inactive, selected_active, selected_inactive, unread_msg_active, unread_msg_inactive,
  pending_msg_inactive, selected_pending_msg_inactive, State, is_selected, on_select, on_unselect,
}
use terminal_teams.Contacts.Message.{state_of}
use terminal_teams.Contacts.Handler.{
  Entry, Handler, Outcome, push_message, push_state, unselect, enter, select,
}
use terminal_teams.Contacts.Window as Window
use terminal_teams.Contacts.View.{view, replay-append, update_entries-known}
use terminal_teams.Contacts.Invariant.{Inv, IsShort, is_at, push_state-eq, get_elem?-set-cases}

-- A contact becomes `e'`, the window is told of it, and the current contact is `cur`.
pub pushed : Handler → Option ℕ → ℕ → Entry → Handler
pushed h cur id e' = record h {
  current_contact = cur;
  contacts = set h.contacts id e';
  queued = if h.stopped then h.queued else h.queued ++ state_of e'.state id e'.nickname ∷ [];
}

pushed-Inv :
    (entries : List Window.Entry) (h : Handler) (v : Inv entries h) (cur : Option ℕ) (id : ℕ)
    (e e' : Entry)
    → get_elem? h.contacts id ≡ some e
    → e'.nickname ≡ e.nickname
    → ((c : ℕ) → cur ≡ some c → c < length h.contacts)
    → (h.stopped ≡ false → is_selected e'.state ≡ is_at cur id)
    → (h.stopped ≡ false
        → (i : ℕ) (x : Entry) → i ≢ id
        → get_elem? h.contacts i ≡ some x
        → is_selected x.state ≡ is_at cur i)
    → Inv entries (pushed h cur id e')
unfolding pushed
pushed-Inv entries h v cur id e e' found same_name range here others = record {
  short = λ i x at. elim (get_elem?-set-cases h.contacts id i e' x at) [
    | inl (_, new) ↦ rw (new, same_name) (v.short id e found)
    | inr old ↦ v.short i x old
  ];
  in_range = λ c eq. omega (arith, range c eq, length-set h.contacts id e');
  known = rw (length-set h.contacts id e') v.known;
  selection = λ live i x at. elim (ℕ_discrete i id) [
    | yes same_id ↦
        let self = get_elem?-set_self h.contacts id e' (get_elem?-lt h.contacts id e found) in
        let at_id : get_elem? (set h.contacts id e') id ≡ some x = (rw same_id at at) in
        let new : x ≡ e' = cc in rw (new, same_id) (here live)
    | no other ↦
        others live i x other (sym (get_elem?-set_ne h.contacts id i e' (λ q. other (sym q))) ∙ at)
  ];
  mirrored = λ live. rw live (
      replay-append entries h.queued e'.state id e'.nickname (view h.contacts) (v.mirrored live)
      ∙ update_entries-known h.contacts id e e' found same_name);
}

push-pushed :
    (h : Handler) (cur : Option ℕ) (id : ℕ) (e' : Entry)
    → IsShort e'
    → push_state (record h { current_contact = cur; contacts = set h.contacts id e' }) id e'
      ≡ some (pushed h cur id e', not h.stopped)
unfolding pushed push_message
push-pushed h cur id e' short = ground (
  arith,
  push_state-eq (record h { current_contact = cur; contacts = set h.contacts id e' }) id e' short,
)

-- The entry with another state.
abbrev turned : Entry → State → Entry
turned e s = record e { state = s }

unselect-eq :
    (h : Handler) (c : ℕ) (e : Entry) (s : State)
    → get_elem? h.contacts c ≡ some e
    → IsShort e
    → on_unselect e.state ≡ some s
    → unselect h c ≡ some (pushed h h.current_contact c (turned e s), not h.stopped)
unfolding unselect
unselect-eq h c e s found short to =
    rw found (rw (to, ◌>>=◌) (push-pushed h h.current_contact c (turned e s) short))

enter-eq :
    (h : Handler) (id : ℕ) (e : Entry) (s : State)
    → get_elem? h.contacts id ≡ some e
    → IsShort e
    → on_select e.state ≡ some s
    → enter h id ≡ some (pushed h (some id) id (turned e s), not h.stopped)
unfolding enter
enter-eq h id e s found short to =
    rw found (rw (to, ◌>>=◌) (push-pushed h (some id) id (turned e s) short))

on_unselect-total :
    (s : State)
    → is_selected s ≡ true
    → (t : State) × (on_unselect s ≡ some t) × (is_selected t ≡ false)
unfolding is_selected on_unselect
on_unselect-total selected_active h = (active, refl, refl)
on_unselect-total selected_inactive h = (inactive, refl, refl)
on_unselect-total selected_pending_msg_inactive h = (pending_msg_inactive, refl, refl)
on_unselect-total _ h = cc

on_select-total :
    (s : State)
    → is_selected s ≡ false
    → (t : State) × (on_select s ≡ some t) × (is_selected t ≡ true)
unfolding is_selected on_select
on_select-total active h = (selected_active, refl, refl)
on_select-total inactive h = (selected_inactive, refl, refl)
on_select-total unread_msg_active h = (selected_active, refl, refl)
on_select-total unread_msg_inactive h = (selected_inactive, refl, refl)
on_select-total pending_msg_inactive h = (selected_pending_msg_inactive, refl, refl)
on_select-total _ h = cc

-- The handler while no contact is selected: as it is between the two halves.
abbrev cleared : Handler → Handler
cleared h = record h { current_contact = none }

dead : {A : Type 0} (h : Handler) → h.stopped ≡ true → h.stopped ≡ false → A
dead h stopped live = cc

-- The second half, on a live handler where no contact is selected.
enter-live :
    (entries : List Window.Entry) (h : Handler) (id : ℕ)
    → Inv entries (cleared h)
    → h.stopped ≡ false
    → id < length h.contacts
    → (h' : Handler) × (enter h id ≡ some (h', true))
      × Inv entries h'
      × (h'.current_contact ≡ some id)
      × (h'.stopped ≡ false)
      × (length h'.contacts ≡ length h.contacts)
unfolding pushed
enter-live entries h id v live range =
    let (e, found) = get_elem?-some h.contacts id range in
    let (s, to, on) = on_select-total e.state (v.selection live id e found) in
    (
      pushed h (some id) id (turned e s),
      enter-eq h id e s found (v.short id e found) to ∙ rw live refl,
      pushed-Inv entries (cleared h) v (some id) id e (turned e s) found refl (λ c eq. ground arith)
          (λ _. on ∙ ground arith) (λ live i x other at. v.selection live i x at ∙ ground arith),
      refl,
      live,
      length-set h.contacts id (turned e s),
    )

-- The first half, on a live handler.
unselect-live :
    (entries : List Window.Entry) (h : Handler) (c : ℕ)
    → Inv entries h
    → h.stopped ≡ false
    → h.current_contact ≡ some c
    → (h' : Handler) × (unselect h c ≡ some (h', true))
      × Inv entries (cleared h')
      × (h'.stopped ≡ false)
      × (length h'.contacts ≡ length h.contacts)
unfolding pushed
unselect-live entries h c v live cur =
    let (e, found) = get_elem?-some h.contacts c (v.in_range c cur) in
    let (s, to, off) =
      on_unselect-total e.state (v.selection live c e found ∙ rw cur (ground arith)) in
    (
      pushed h h.current_contact c (turned e s),
      unselect-eq h c e s found (v.short c e found) to ∙ rw live refl,
      pushed-Inv entries h v none c e (turned e s) found refl (λ c eq. cc) (λ _. off)
          (λ live i x other at. v.selection live i x at ∙ rw cur (ground arith)),
      live,
      length-set h.contacts c (turned e s),
    )

-- `select` after its test of the range, by the current contact.
abbrev halves : Handler → ℕ → Option ℕ → Outcome
halves h id cur = elim cur [
  | none ↦ enter h id
  | some c ↦ unselect h c >>= λ r. elim r.1 [ true ↦ enter r.0 id | false ↦ some r ]
]

select-halves :
    (h : Handler) (id : ℕ) (cur : Option ℕ)
    → id < length h.contacts
    → h.current_contact ≡ cur
    → select h id ≡ halves (record h { previous_contact = h.current_contact }) id cur
unfolding select
select-halves h id cur range eq =
    let inside : leb (length h.contacts) id ≡ false = ground arith in
    rw inside (ap (halves (record h { previous_contact = h.current_contact }) id) eq)

previous-Inv :
    (entries : List Window.Entry) (h : Handler) (previous : Option ℕ)
    → Inv entries h
    → Inv entries (record h { previous_contact = previous })
previous-Inv entries h previous v = record {
  short = v.short;
  in_range = v.in_range;
  known = v.known;
  selection = v.selection;
  mirrored = v.mirrored;
}

cleared-Inv :
    (entries : List Window.Entry) (h : Handler)
    → h.current_contact ≡ none
    → Inv entries h
    → Inv entries (cleared h)
cleared-Inv entries h cur v = record {
  short = v.short;
  in_range = λ c eq. cc;
  known = v.known;
  selection = λ live i x at. v.selection live i x at ∙ rw cur refl;
  mirrored = v.mirrored;
}

-- On a live handler the selection of any contact that there is succeeds, also of the one that is
-- current. That contact then is the current one, and the invariant is kept: it alone is selected.
pub select-live :
    (entries : List Window.Entry) (h : Handler) (id : ℕ)
    → Inv entries h
    → h.stopped ≡ false
    → id < length h.contacts
    → (h' : Handler) × (select h id ≡ some (h', true))
      × Inv entries h'
      × (h'.current_contact ≡ some id)
      × (h'.stopped ≡ false)
      × (length h'.contacts ≡ length h.contacts)
select-live entries h id v live range = elim (Option-cases h.current_contact) [
  | inl cur ↦
      let (h', eq, v', cur', live', size') =
        enter-live entries h0 id (cleared-Inv entries h0 cur v0) live range in
      (h', select-halves h id none range cur ∙ eq, v', cur', live', size')
  | inr (c, cur) ↦
      let (h1, first, v1, live1, size1) = unselect-live entries h0 c v0 live cur in
      let (h', second, v', cur', live', size') =
        enter-live entries h1 id v1 live1 (omega (arith, size1)) in
      (h', select-halves h id (some c) range cur ∙ rw first second, v', cur', live', size' ∙ size1)
]
  where
    h0 : Handler
    h0 = record h { previous_contact = h.current_contact }

    v0 : Inv entries h0
    v0 = previous-Inv entries h h.current_contact v
