-- ===== src/Contacts/Success.antt =====
-- When `send` and `activate` of the contacts handler (contacts/src/TTContactsHandler.cpp) succeed.
use mathlib.Core.Path.{subst}
use terminal_teams.Prelude.{
  Bool, Bytes, List, Option, [], ap, arith, false, get_elem?, get_elem?-set_self, get_elem?-some,
  length, none, not, refl, set, some, suc, true, zero, ℕ, ◌<◌, ◌||◌, ◌∙◌, ◌∷◌, ◌≡◌,
}
use terminal_teams.Contacts.State.{
  State, active, inactive, selected_active, selected_inactive, unread_msg_active,
  unread_msg_inactive, pending_msg_inactive, selected_pending_msg_inactive, is_selected, same_state,
  on_send, on_receive, on_activate, on_deactivate, is_inactive,
}
use terminal_teams.Contacts.Handler.{Entry, Handler, send, activate, deactivate, receive}
use terminal_teams.Contacts.Window as Window
use terminal_teams.Contacts.Invariant.{Inv, After, is_at, touched, update-eq}
use terminal_teams.Contacts.Operations.{
  Kept, change, sent, moved, send-change, activate-change, deactivate-change, changes-Inv,
  change-update, change-refused, received, receive-change,
}

or-live : (a stopped : Bool) → stopped ≡ false → (a || not stopped) ≡ true
or-live a stopped h = ground arith

at-itself : (id : ℕ) → is_at (some id) id ≡ true
at-itself id = ground arith

change-succeeds :
    (next : State → Option State) (with_state : Entry → State → Entry) (entries : List Window.Entry)
    (h : Handler) (id : ℕ) (e : Entry) (s : State)
    → Inv entries h
    → h.stopped ≡ false
    → get_elem? h.contacts id ≡ some e
    → next e.state ≡ some s
    → (with_state e s).nickname ≡ e.nickname
    → change next with_state h id ≡ some (touched h id e.state (with_state e s), true)
change-succeeds next with_state entries h id e s v live found to name =
    change-update next with_state h id e s found to
    ∙ update-eq h id e.state (with_state e s) (rw name (v.short id e found))
    ∙ ap (λ (b : Bool). some (touched h id e.state (with_state e s), b))
        (or-live (same_state e.state (with_state e s).state) h.stopped live)

on_send-selected : (s : State) → is_selected s ≡ true → (t : State) × (on_send s ≡ some t)
unfolding is_selected on_send
on_send-selected active h = cc
on_send-selected inactive h = cc
on_send-selected selected_active h = (selected_active, refl)
on_send-selected selected_inactive h = (selected_pending_msg_inactive, refl)
on_send-selected unread_msg_active h = cc
on_send-selected unread_msg_inactive h = cc
on_send-selected pending_msg_inactive h = cc
on_send-selected selected_pending_msg_inactive h = (selected_pending_msg_inactive, refl)

on_send-is_inactive : (s t : State) → on_send s ≡ some t → is_inactive t ≡ is_inactive s
unfolding on_send is_inactive
on_send-is_inactive s t e = ground arith

-- The identity of the first contact, which is the node itself.
abbrev pub identity_of : List Entry → Bytes
identity_of [] = []
identity_of (e ∷ es) = e.identity

identity_of-set :
    (es : List Entry) (id : ℕ) (e e' : Entry)
    → get_elem? es id ≡ some e
    → e'.identity ≡ e.identity
    → identity_of (set es id e') ≡ identity_of es
identity_of-set [] id e e' found same_identity = refl
identity_of-set (x ∷ xs) zero e e' found same_identity = ground arith
identity_of-set (x ∷ xs) (suc id) e e' found same_identity = refl

-- The contact keeps its address, and counts as active or inactive as before.
pub send-address :
    (entries : List Window.Entry) (h : Handler) (id : ℕ) (e : Entry)
    → Inv entries h
    → h.stopped ≡ false
    → h.current_contact ≡ some id
    → get_elem? h.contacts id ≡ some e
    → (h' : Handler) × (e' : Entry) × (send h id ≡ some (h', true))
      × (get_elem? h'.contacts id ≡ some e')
      × (e'.ip_address_and_port ≡ e.ip_address_and_port)
      × (h'.current_contact ≡ some id)
      × (is_inactive e'.state ≡ is_inactive e.state)
      × (identity_of h'.contacts ≡ identity_of h.contacts)
unfolding touched
send-address entries h id e v live cur found =
    let to =
      on_send-selected e.state
        (v.selection live id e found ∙ ap (λ (o : Option ℕ). is_at o id) cur ∙ at-itself id) in
    (
      touched h id e.state (sent e to.0),
      sent e to.0,
      send-change h id ∙ change-succeeds on_send sent entries h id e to.0 v live found to.1 refl,
      get_elem?-set_self h.contacts id (sent e to.0) (v.in_range id cur),
      refl,
      cur,
      on_send-is_inactive e.state to.0 to.1,
      identity_of-set h.contacts id e (sent e to.0) found refl,
    )

on_activate-any : (s : State) → (t : State) × (on_activate s ≡ some t)
unfolding on_activate
on_activate-any active = (active, refl)
on_activate-any inactive = (active, refl)
on_activate-any selected_active = (selected_active, refl)
on_activate-any selected_inactive = (selected_active, refl)
on_activate-any unread_msg_active = (unread_msg_active, refl)
on_activate-any unread_msg_inactive = (unread_msg_active, refl)
on_activate-any pending_msg_inactive = (active, refl)
on_activate-any selected_pending_msg_inactive = (selected_active, refl)

-- A message to the current contact of a live handler is counted: the call succeeds.
pub send-live :
    (entries : List Window.Entry) (h : Handler) (id : ℕ)
    → Inv entries h
    → h.stopped ≡ false
    → h.current_contact ≡ some id
    → (h' : Handler) × (send h id ≡ some (h', true)) × Kept entries h h'
send-live entries h id v live cur =
    let at = get_elem?-some h.contacts id (v.in_range id cur) in
    let to =
      on_send-selected at.0.state
        (v.selection live id at.0 at.1 ∙ ap (λ (o : Option ℕ). is_at o id) cur ∙ at-itself id) in
    let done =
      send-change h id
      ∙ change-succeeds on_send sent entries h id at.0 to.0 v live at.1 to.1 refl in
    (
      touched h id at.0.state (sent at.0 to.0),
      done,
      subst (After (Kept entries h)) done (changes-Inv entries h id v).0,
    )

-- Every contact of a live handler can be activated.
pub activate-live :
    (entries : List Window.Entry) (h : Handler) (id : ℕ)
    → Inv entries h
    → h.stopped ≡ false
    → id < length h.contacts
    → (h' : Handler) × (activate h id ≡ some (h', true)) × Kept entries h h'
activate-live entries h id v live lt =
    let at = get_elem?-some h.contacts id lt in
    let to = on_activate-any at.0.state in
    let done =
      activate-change h id
      ∙ change-succeeds on_activate moved entries h id at.0 to.0 v live at.1 to.1 refl in
    (
      touched h id at.0.state (moved at.0 to.0),
      done,
      subst (After (Kept entries h)) done (changes-Inv entries h id v).2,
    )

on_deactivate-any : (s : State) → (t : State) × (on_deactivate s ≡ some t)
unfolding on_deactivate
on_deactivate-any active = (inactive, refl)
on_deactivate-any inactive = (inactive, refl)
on_deactivate-any selected_active = (selected_inactive, refl)
on_deactivate-any selected_inactive = (selected_inactive, refl)
on_deactivate-any unread_msg_active = (unread_msg_inactive, refl)
on_deactivate-any unread_msg_inactive = (unread_msg_inactive, refl)
on_deactivate-any pending_msg_inactive = (pending_msg_inactive, refl)
on_deactivate-any selected_pending_msg_inactive = (selected_pending_msg_inactive, refl)

-- And every one can be deactivated.
pub deactivate-live :
    (entries : List Window.Entry) (h : Handler) (id : ℕ)
    → Inv entries h
    → h.stopped ≡ false
    → id < length h.contacts
    → (h' : Handler) × (deactivate h id ≡ some (h', true)) × Kept entries h h'
deactivate-live entries h id v live lt =
    let at = get_elem?-some h.contacts id lt in
    let to = on_deactivate-any at.0.state in
    let done =
      deactivate-change h id
      ∙ change-succeeds on_deactivate moved entries h id at.0 to.0 v live at.1 to.1 refl in
    (
      touched h id at.0.state (moved at.0 to.0),
      done,
      subst (After (Kept entries h)) done (changes-Inv entries h id v).3,
    )

on_receive-active : (s : State) → is_inactive s ≡ false → (t : State) × (on_receive s ≡ some t)
unfolding is_inactive on_receive
on_receive-active active h = (unread_msg_active, refl)
on_receive-active inactive h = cc
on_receive-active selected_active h = (selected_active, refl)
on_receive-active selected_inactive h = cc
on_receive-active unread_msg_active h = (unread_msg_active, refl)
on_receive-active unread_msg_inactive h = cc
on_receive-active pending_msg_inactive h = cc
on_receive-active selected_pending_msg_inactive h = cc

-- A message from a contact that is active is counted.
pub receive-live :
    (entries : List Window.Entry) (h : Handler) (id : ℕ) (e : Entry)
    → Inv entries h
    → h.stopped ≡ false
    → get_elem? h.contacts id ≡ some e
    → is_inactive e.state ≡ false
    → (h' : Handler) × (receive h id ≡ some (h', true)) × Kept entries h h'
receive-live entries h id e v live found here =
    let to = on_receive-active e.state here in
    let done =
      receive-change h id
      ∙ change-succeeds on_receive received entries h id e to.0 v live found to.1 refl in
    (
      touched h id e.state (received e to.0),
      done,
      subst (After (Kept entries h)) done (changes-Inv entries h id v).1,
    )

on_receive-inactive : (s : State) → is_inactive s ≡ true → on_receive s ≡ none
unfolding is_inactive on_receive
on_receive-inactive s h = ground arith

-- A message from a contact that is inactive is refused.
pub receive-inactive :
    (h : Handler) (id : ℕ) (e : Entry)
    → get_elem? h.contacts id ≡ some e
    → is_inactive e.state ≡ true
    → receive h id ≡ some (h, false)
receive-inactive h id e found away =
    receive-change h id
    ∙ change-refused on_receive received h id e found (on_receive-inactive e.state away)
