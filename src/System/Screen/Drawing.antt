-- ===== src/System/Screen/Drawing.antt =====
-- The contacts window (contacts/src/TTContacts.cpp) draws its entries, and takes the messages that its entries
-- can take.
use terminal_teams.Prelude.{
  >>=-eq-some, Bytes, List, Option-cases, [], ap, codes, get_elem?, inl, inr, refl, some, true,
  ◌++◌, ◌∙◌, ◌∷◌, ◌≡◌, ◌⊎◌,
}
use terminal_teams.Contacts.Message.{Message, state_of, heartbeat, goodbye, unknown}
use terminal_teams.Contacts.State.{
  State, active, inactive, selected_active, selected_inactive, unread_msg_active,
  unread_msg_inactive, pending_msg_inactive, selected_pending_msg_inactive, state_code,
}
use terminal_teams.Contacts.Window.{
  Window, Entry, Output, clear_screen, text, endl, decimal, handle, refresh, print_entries,
  statuses, update_entries,
}
use terminal_teams.Contacts.View.{replay}
use terminal_teams.System.Screen.{IsShown}

abbrev pub Shows : Window → Type 0
Shows w = (w.entries ≡ []) ⊎ IsShown w

status-total : (s : State) → (t : Bytes) × (get_elem? statuses (state_code s) ≡ some t)
unfolding state_code
status-total active = (_, refl)
status-total inactive = (_, refl)
status-total selected_active = (_, refl)
status-total selected_inactive = (_, refl)
status-total unread_msg_active = (_, refl)
status-total unread_msg_inactive = (_, refl)
status-total pending_msg_inactive = (_, refl)
status-total selected_pending_msg_inactive = (_, refl)

print_entries-total : (es : List Entry) → (out : List Output) × (print_entries es ≡ some out)
unfolding print_entries
print_entries-total [] = ([], refl)
print_entries-total (e ∷ es) =
    let status = status-total e.state in
    let rest = print_entries-total es in
    (
      text (codes "#")
          ∷ text (decimal 20 e.identity)
          ∷ text (codes " ")
          ∷ text e.nickname
          ∷ text (codes " ")
          ∷ text status.0
          ∷ endl
          ∷ rest.0,
      rw (status.1, rest.1) refl,
    )

refresh-IsShown :
    (w : Window)
    → (w' : Window) × (refresh w ≡ some (w', true))
      × IsShown w'
      × (w'.entries ≡ w.entries)
      × (w'.stopped ≡ w.stopped)
unfolding refresh
refresh-IsShown w =
    let printed = print_entries-total w.entries in
    (
      record w { screen = w.screen ++ clear_screen ∷ printed.0 },
      rw (printed.1, refresh) refl,
      (w.screen, printed.0, printed.1, refl),
      refl,
      refl,
    )

-- A message that the entries can take is handled with success.
pub handle-head :
    (w : Window) (m : Message) (ms : List Message) (final : List Entry)
    → Shows w
    → replay w.entries (m ∷ ms) ≡ some final
    → (w' : Window) × (handle w m ≡ some (w', true))
      × Shows w'
      × (replay w'.entries ms ≡ some final)
      × (w'.stopped ≡ w.stopped)
unfolding handle replay
handle-head w heartbeat ms final shown e = (w, refl, shown, e, refl)
handle-head w goodbye ms final shown e = absurd cc
handle-head w (unknown n) ms final shown e = absurd cc
handle-head w (state_of state identity nickname) ms final shown e =
    let (entries, first, rest) =
      >>=-eq-some (update_entries w.entries state identity nickname) (λ es. replay es ms) e in
    let drawn = refresh-IsShown (record w { entries = entries }) in
    (
      drawn.0,
      rw (first, handle) drawn.1,
      inr drawn.2,
      ap (λ (es : List Entry). replay es ms) drawn.3 ∙ rest,
      drawn.4,
    )

pub replay-heartbeat :
    (es : List Entry) (ms : List Message) → replay es (ms ++ heartbeat ∷ []) ≡ replay es ms
unfolding replay
replay-heartbeat es [] = refl
replay-heartbeat es (heartbeat ∷ ms) = replay-heartbeat es ms
replay-heartbeat es (goodbye ∷ ms) = refl
replay-heartbeat es (unknown n ∷ ms) = refl
replay-heartbeat es (state_of state identity nickname ∷ ms) =
    elim (Option-cases (update_entries es state identity nickname)) [
      | inl missing ↦ rw missing refl
      | inr (es', found) ↦ rw found (replay-heartbeat es' ms)
    ]
