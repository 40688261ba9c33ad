-- ===== src/Contacts/Operations.antt =====
-- `send`, `receive`, `activate` and `deactivate` of contacts/src/TTContactsHandler.cpp as instances of
-- one scheme, and what they keep.
use mathlib.Core.Path.{subst}
use terminal_teams.Prelude.{
  List, Option, Option-cases, ap, arith, false, get_elem?, inl, inr, none, refl, some, sym, ℕ, ◌∙◌,
  ◌≡◌,
}
use terminal_teams.Contacts.State.{
  State, is_selected, on_send, on_receive, on_activate, on_deactivate,
}
use terminal_teams.Contacts.Handler.{
  Entry, Handler, Outcome, update, send, receive, activate, deactivate, increment,
}
use terminal_teams.Contacts.Window as Window
use terminal_teams.Contacts.Invariant.{
  Inv, After, touched-Inv, touched-Frame, Frame, Frame-refl, update-eq,
}

-- A change of one contact: `next` gives its new state or refuses, `with_state` the new entry.
pub change : (State → Option State) → (Entry → State → Entry) → Handler → ℕ → Outcome
change next with_state h id = elim (get_elem? h.contacts id) [
  | none ↦ some (h, false)
  | some e ↦ elim (next e.state) [
    | none ↦ some (h, false)
    | some s ↦ update h id e.state (with_state e s)
  ]
]

abbrev pub sent : Entry → State → Entry
sent e s = record e { state = s; sent_messages = increment e.sent_messages }

abbrev pub received : Entry → State → Entry
received e s = record e { state = s; received_messages = increment e.received_messages }

abbrev pub moved : Entry → State → Entry
moved e s = record e { state = s }

pub send-change : (h : Handler) (id : ℕ) → send h id ≡ change on_send sent h id
unfolding send change
send-change h id = refl

pub receive-change : (h : Handler) (id : ℕ) → receive h id ≡ change on_receive received h id
unfolding receive change
receive-change h id = refl

pub activate-change : (h : Handler) (id : ℕ) → activate h id ≡ change on_activate moved h id
unfolding activate change
activate-change h id = refl

pub deactivate-change : (h : Handler) (id : ℕ) → deactivate h id ≡ change on_deactivate moved h id
unfolding deactivate change
deactivate-change h id = refl

module _ (next : State → Option State) (with_state : Entry → State → Entry) (h : Handler)
    (id : ℕ) where
  change-missing : get_elem? h.contacts id ≡ none → change next with_state h id ≡ some (h, false)
  unfolding change
  change-missing missing = rw (missing, change) refl

  pub change-refused :
      (e : Entry)
      → get_elem? h.contacts id ≡ some e
      → next e.state ≡ none
      → change next with_state h id ≡ some (h, false)
  unfolding change
  change-refused e found no_state = rw (found, change) (rw no_state refl)

  pub change-update :
      (e : Entry) (s : State)
      → get_elem? h.contacts id ≡ some e
      → next e.state ≡ some s
      → change next with_state h id ≡ update h id e.state (with_state e s)
  unfolding change
  change-update e s found to = rw (found, change) (rw to refl)

-- The invariant after an operation, and what the operation left alone.
abbrev pub Kept : List Window.Entry → Handler → Handler → Type 0
Kept entries h h' = Inv entries h' × Frame h h'

-- A rule that keeps the selection, and an entry that keeps its name, keep the invariant.
change-Inv :
    (next : State → Option State) (with_state : Entry → State → Entry) (entries : List Window.Entry)
    (h : Handler) (id : ℕ)
    → ((s t : State) → next s ≡ some t → is_selected t ≡ is_selected s)
    → ((e : Entry) (s : State)
        → ((with_state e s).state ≡ s) × ((with_state e s).nickname ≡ e.nickname))
    → Inv entries h
    → After (Kept entries h) (change next with_state h id)
change-Inv next with_state entries h id keeps fields v =
    elim (Option-cases (get_elem? h.contacts id)) [
      | inl missing ↦
          subst (After (Kept entries h)) (sym (change-missing next with_state h id missing))
            (v, Frame-refl h)
      | inr (e, found) ↦ elim (Option-cases (next e.state)) [
        | inl no_state ↦
            subst (After (Kept entries h))
              (sym (change-refused next with_state h id e found no_state)) (v, Frame-refl h)
        | inr (s, to) ↦
            let e' = with_state e s in
            subst (After (Kept entries h))
              (sym (
                change-update next with_state h id e s found to
                ∙ update-eq h id e.state e' (rw ((fields e s).1) (v.short id e found))))
              (
                touched-Inv entries h v id e e' found (fields e s).1
                    (ap is_selected (fields e s).0 ∙ keeps e.state s to),
                touched-Frame h id e.state e',
              )
      ]
    ]

on_send-is_selected : (s t : State) → on_send s ≡ some t → is_selected t ≡ is_selected s
unfolding on_send is_selected
on_send-is_selected s t h = ground arith

on_receive-is_selected : (s t : State) → on_receive s ≡ some t → is_selected t ≡ is_selected s
unfolding on_receive is_selected
on_receive-is_selected s t h = ground arith

on_activate-is_selected : (s t : State) → on_activate s ≡ some t → is_selected t ≡ is_selected s
unfolding on_activate is_selected
on_activate-is_selected s t h = ground arith

on_deactivate-is_selected : (s t : State) → on_deactivate s ≡ some t → is_selected t ≡ is_selected s
unfolding on_deactivate is_selected
on_deactivate-is_selected s t h = ground arith

-- Each of the four operations has a defined result on every id and keeps the invariant. It changes
-- neither the number of contacts, nor the current contact, nor the map of identities.
pub changes-Inv :
    (entries : List Window.Entry) (h : Handler) (id : ℕ)
    → Inv entries h
    → After (Kept entries h) (send h id)
      × After (Kept entries h) (receive h id)
      × After (Kept entries h) (activate h id)
      × After (Kept entries h) (deactivate h id)
changes-Inv entries h id v = (
  subst (After (Kept entries h)) (sym (send-change h id))
      (change-Inv on_send sent entries h id on_send-is_selected (λ e s. (refl, refl)) v),
  subst (After (Kept entries h)) (sym (receive-change h id))
      (change-Inv on_receive received entries h id on_receive-is_selected (λ e s. (refl, refl)) v),
  subst (After (Kept entries h)) (sym (activate-change h id))
      (change-Inv on_activate moved entries h id on_activate-is_selected (λ e s. (refl, refl)) v),
  subst (After (Kept entries h)) (sym (deactivate-change h id)) (
      change-Inv on_deactivate moved entries h id on_deactivate-is_selected (λ e s. (refl, refl))
        v),
)
