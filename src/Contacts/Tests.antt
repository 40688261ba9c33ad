-- ===== src/Contacts/Tests.antt =====
-- Instances of what is proved of the contacts (contacts/src).
use terminal_teams.Prelude.{
  Bool, Option, [], arith, codes, false, length, none, not, refl, some, suc, true, ◌∷◌, ◌≡◌,
}
use mathlib.Core.Path.{subst}
use terminal_teams.Contacts.State.{active, selected_active, on_select}
use terminal_teams.Contacts.Message.{state_of, state_message}
use terminal_teams.Contacts.Handler.{
  Entry, Handler, init, create, select, send, receive, activate, deactivate, new_entry,
  push_message, get_by_identity, enter, push_state,
}
use terminal_teams.Contacts.Invariant.{Inv, After, init-Inv}
use terminal_teams.Contacts.Operations.{Kept, changes-Inv}
use terminal_teams.Contacts.Creation.{create-Inv}
use terminal_teams.Contacts.Selection.{select-live}

abbrev ann : Entry
ann = record {
  nickname = codes "ann";
  identity = codes "id-a";
  ip_address_and_port = codes "10.0.0.1:80";
  sent_messages = 0;
  received_messages = 0;
  state = active;
}

-- The handler with one contact, before and after its selection.
abbrev one : Handler
one = record {
  stopped = false;
  current_contact = none;
  previous_contact = none;
  contacts = ann ∷ [];
  identity_map = (codes "id-a", 0) ∷ [];
  queued = state_of active 0 (codes "ann") ∷ [];
}

abbrev chosen : Handler
chosen = record one {
  current_contact = some 0;
  contacts = record ann { state = selected_active } ∷ [];
  queued = state_of active 0 (codes "ann") ∷ state_of selected_active 0 (codes "ann") ∷ [];
}

create-one : create init (codes "ann") (codes "id-a") (codes "10.0.0.1:80") ≡ some (one, true)
unfolding create init state_message push_message new_entry
create-one = refl

create-Inv_example :
    (h' : Handler) × (create init (codes "ann") (codes "id-a") (codes "10.0.0.1:80")
      ≡ some (h', not init.stopped))
    × Inv [] h'
    × (length h'.contacts ≡ suc (length init.contacts))
    × (h'.current_contact ≡ init.current_contact)
    × (h'.stopped ≡ init.stopped)
    × (get_by_identity h' (codes "id-a") ≡ some (length init.contacts))
create-Inv_example =
    create-Inv [] init (codes "ann") (codes "id-a") (codes "10.0.0.1:80") (omega arith) init-Inv

live_unique :
    (o : Option (Handler × Bool)) (h h' : Handler) (b b' : Bool)
    → o ≡ some (h, b)
    → o ≡ some (h', b')
    → h ≡ h'
live_unique o h h' b b' e e' = cc

one-Inv : Inv [] one
one-Inv =
    let made = create-Inv_example in
    subst (Inv [])
      (live_unique (create init (codes "ann") (codes "id-a") (codes "10.0.0.1:80")) made.0 one
        (not init.stopped) true made.1 create-one)
      made.2

select-one : select one 0 ≡ some (chosen, true)
unfolding select enter push_state state_message push_message on_select
select-one = refl

select-live_example :
    (h' : Handler) × (select one 0 ≡ some (h', true))
    × Inv [] h'
    × (h'.current_contact ≡ some 0)
    × (h'.stopped ≡ false)
    × (length h'.contacts ≡ length one.contacts)
select-live_example = select-live [] one 0 one-Inv refl (omega arith)

chosen-Inv : Inv [] chosen
chosen-Inv =
    let made = select-live_example in
    subst (Inv []) (live_unique (select one 0) made.0 chosen true true made.1 select-one) made.2

changes-Inv_example :
    After (Kept [] chosen) (send chosen 0)
    × After (Kept [] chosen) (receive chosen 0)
    × After (Kept [] chosen) (activate chosen 0)
    × After (Kept [] chosen) (deactivate chosen 0)
changes-Inv_example = changes-Inv [] chosen 0 chosen-Inv
