-- ===== src/Contacts/Window.antt =====
-- contacts/src/TTContacts.cpp and TTContactsEntry.hpp: the window process. `none` is an access out of
-- bounds. The output stream is the list of its calls, and does not throw.
use terminal_teams.Prelude.{
  Bool, Bytes, List, Option, [], codes, false, get_elem?, if◌then◌else◌, leb, length, ltb, set,
  some, suc, true, zero, ℕ, ◌%◌, ◌&&◌, ◌++◌, ◌+◌, ◌/◌, ◌>>=◌, ◌∷◌,
}
use terminal_teams.Contacts.State.{State, active, state_code, same_state}
use terminal_teams.Contacts.Message.{Message, state_of, heartbeat, goodbye, unknown}

pub data Output : Type 0 where
  clear_screen endl : Output
  text : Bytes → Output

pub record Entry : Type 0 where
  pub identity : ℕ
  pub state : State
  pub nickname : Bytes

pub record Window : Type 0 where
  pub stopped : Bool
  pub entries : List Entry
  pub screen : List Output

unfoldable pub init : Window
init = record { stopped = false; entries = []; screen = [] }

-- `std::to_string`; a number below 2 ^ 64 has at most 20 digits.
unfoldable pub decimal : ℕ → ℕ → Bytes
decimal zero n = []
decimal (suc fuel) n =
    let rest = decimal fuel (n / 10) in (if ltb n 10 then [] else rest) ++ (b'0' + n % 10) ∷ []

-- The table `statuses`, at `static_cast<size_t>(state)`.
abbrev pub statuses : List Bytes
statuses =
    codes ""
    ∷ codes "?"
    ∷ codes "<"
    ∷ codes "<?"
    ∷ codes "@"
    ∷ codes "@?"
    ∷ codes "!?"
    ∷ codes "<!?"
    ∷ []

unfoldable pub print_entries : List Entry → Option (List Output)
unfolding decimal state_code
print_entries [] = some []
print_entries (e ∷ es) = get_elem? statuses (state_code e.state) >>= λ status.
    print_entries es >>= λ rest. some (
      text (codes "#")
      ∷ text (decimal 20 e.identity)
      ∷ text (codes " ")
      ∷ text e.nickname
      ∷ text (codes " ")
      ∷ text status
      ∷ endl
      ∷ rest)

unfoldable pub refresh : Window → Option (Window × Bool)
unfolding print_entries
refresh w = print_entries w.entries >>= λ out.
    some (record w { screen = w.screen ++ clear_screen ∷ out }, true)

-- `mEntries[identity].state = state`.
unfoldable pub set_state : List Entry → ℕ → State → Option (List Entry)
set_state entries identity state =
    get_elem? entries identity >>= λ e. some (set entries identity (record e { state = state }))

-- The entries after a message about a contact.
unfoldable pub update_entries : List Entry → State → ℕ → Bytes → Option (List Entry)
update_entries entries state identity nickname =
    if same_state state active && leb (length entries) identity
    then some (entries ++ record { identity = identity; state = state; nickname = nickname } ∷ [])
    else set_state entries identity state

unfoldable pub handle : Window → Message → Option (Window × Bool)
handle w (state_of state identity nickname) =
    update_entries w.entries state identity nickname >>= λ entries.
    refresh (record w { entries = entries })
handle w heartbeat = some (w, true)
handle w goodbye = some (w, false)
handle w (unknown n) = some (w, false)

-- `run` over the messages that the shared memory delivers; the list ends where it is not alive or
-- `receive` fails.
unfoldable pub run : Window → List Message → Option Window
run w [] = some (record w { stopped = true })
run w (m ∷ ms) =
    if w.stopped
    then some w
    else (handle w m >>= λ r. elim r.1 [
      | true ↦ run r.0 ms
      | false ↦ some (record r.0 { stopped = true })
    ])
