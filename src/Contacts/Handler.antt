-- ===== src/Contacts/Handler.antt =====
-- contacts/src/TTContactsHandler.cpp and TTContactsHandlerEntry.hpp. An operation holds its mutex to
-- its end, so it is one function of the state; `none` is undefined behaviour.
use terminal_teams.Prelude.{
  Bool, Bytes, List, Option, [], false, get_elem?, if◌then◌else◌, leb, length, none, not, same, set,
  some, true, ℕ, ◌%◌, ◌++◌, ◌+◌, ◌>>=◌, ◌^◌, ◌∷◌,
}
use terminal_teams.Contacts.State.{
  State, active, same_state, on_send, on_receive, on_activate, on_deactivate, on_select,
  on_unselect,
}
use terminal_teams.Contacts.Message.{Message, heartbeat, goodbye, state_message}

pub record Entry : Type 0 where
  pub nickname : Bytes
  pub identity : Bytes
  pub ip_address_and_port : Bytes
  pub sent_messages : ℕ
  pub received_messages : ℕ
  pub state : State

-- The members of TTContactsHandler that its operations read or write.
pub record Handler : Type 0 where
  pub stopped : Bool
  pub current_contact : Option ℕ
  pub previous_contact : Option ℕ
  pub contacts : List Entry
  pub identity_map : List (Bytes × ℕ)
  pub queued : List Message

unfoldable pub init : Handler
init = record {
  stopped = false;
  current_contact = none;
  previous_contact = none;
  contacts = [];
  identity_map = [];
  queued = [];
}

unfoldable pub stop : Handler → Handler
stop h = record h { stopped = true }

-- `size_t` counters wrap.
abbrev pub increment : ℕ → ℕ
increment n = (n + 1) % 2 ^ 64

-- The private `send(message)`.
unfoldable pub push_message : Handler → Message → Handler × Bool
push_message h m =
    if h.stopped then (h, false) else (record h { queued = h.queued ++ m ∷ [] }, true)

-- The last entry with the key wins: an assignment `map[key] = value` puts a new one in front.
unfoldable pub find_identity : List (Bytes × ℕ) → Bytes → Option ℕ
find_identity [] identity = none
find_identity ((key, id) ∷ rest) identity =
    if same key identity then some id else find_identity rest identity

abbrev pub Outcome : Type 0
Outcome = Option (Handler × Bool)

-- The four lines that make a contact's message, and the `send` of it.
unfoldable pub push_state : Handler → ℕ → Entry → Outcome
push_state h id e = state_message e.state id e.nickname >>= λ m. some (push_message h m)

unfoldable pub new_entry : Bytes → Bytes → Bytes → Entry
new_entry nickname identity ip_address_and_port = record {
  nickname = nickname;
  identity = identity;
  ip_address_and_port = ip_address_and_port;
  sent_messages = 0;
  received_messages = 0;
  state = active;
}

unfoldable pub create : Handler → Bytes → Bytes → Bytes → Outcome
create h nickname identity ip_address_and_port =
    state_message active (length h.contacts) nickname >>= λ m. some (
      push_message
        (record h {
          contacts = h.contacts ++ new_entry nickname identity ip_address_and_port ∷ [];
          identity_map = (identity, length h.contacts) ∷ h.identity_map;
        })
        m)

-- The common end of `send`, `receive`, `activate` and `deactivate`: the entry is written, and the
-- window is told of its state where that is new.
unfoldable pub update : Handler → ℕ → State → Entry → Outcome
update h id previous e =
    let h' = record h { contacts = set h.contacts id e } in
    if same_state previous e.state then some (h', true) else push_state h' id e

unfoldable pub send : Handler → ℕ → Outcome
send h id = elim (get_elem? h.contacts id) [
  | none ↦ some (h, false)
  | some e ↦ elim (on_send e.state) [
    | none ↦ some (h, false)
    | some s ↦
        update h id e.state (record e { state = s; sent_messages = increment e.sent_messages })
  ]
]

unfoldable pub receive : Handler → ℕ → Outcome
receive h id = elim (get_elem? h.contacts id) [
  | none ↦ some (h, false)
  | some e ↦ elim (on_receive e.state) [
    | none ↦ some (h, false)
    | some s ↦
        update h id e.state
          (record e { state = s; received_messages = increment e.received_messages })
  ]
]

unfoldable pub activate : Handler → ℕ → Outcome
activate h id = elim (get_elem? h.contacts id) [
  | none ↦ some (h, false)
  | some e ↦ elim (on_activate e.state) [
    | none ↦ some (h, false)
    | some s ↦ update h id e.state (record e { state = s })
  ]
]

unfoldable pub deactivate : Handler → ℕ → Outcome
deactivate h id = elim (get_elem? h.contacts id) [
  | none ↦ some (h, false)
  | some e ↦ elim (on_deactivate e.state) [
    | none ↦ some (h, false)
    | some s ↦ update h id e.state (record e { state = s })
  ]
]

-- The half of `select` that leaves the previous contact, the id of which is not checked.
unfoldable pub unselect : Handler → ℕ → Outcome
unselect h previous = get_elem? h.contacts previous >>= λ e. elim (on_unselect e.state) [
  | none ↦ some (h, false)
  | some s ↦
      let e' = record e { state = s } in
      push_state (record h { contacts = set h.contacts previous e' }) previous e'
]

-- The half that enters the new one; the state of a contact is read after the first half.
unfoldable pub enter : Handler → ℕ → Outcome
enter h id = get_elem? h.contacts id >>= λ e. elim (on_select e.state) [
  | none ↦ some (record h { current_contact = some id }, false)
  | some s ↦
      let e' = record e { state = s } in
      push_state (record h { current_contact = some id; contacts = set h.contacts id e' }) id e'
]

unfoldable pub select : Handler → ℕ → Outcome
select h id =
    if leb (length h.contacts) id
    then some (h, false)
    else (let h' = record h { previous_contact = h.current_contact } in
        elim h.current_contact [
          | none ↦ enter h' id
          | some c ↦ unselect h' c >>= λ r. elim r.1 [ true ↦ enter r.0 id | false ↦ some r ]
        ])

unfoldable pub get : Handler → ℕ → Option Entry
get h id = get_elem? h.contacts id

unfoldable pub get_by_identity : Handler → Bytes → Option ℕ
get_by_identity h identity = find_identity h.identity_map identity

unfoldable pub current : Handler → Option ℕ
current h = h.current_contact

unfoldable pub size : Handler → ℕ
size h = length h.contacts

-- One round of the loop of `heartbeat`.
unfoldable pub send_heartbeat : Handler → Handler × Bool
unfolding push_message
send_heartbeat h = push_message h heartbeat

-- The loop of `main` over the messages taken from the queue. The shared memory is the list of the
-- messages that the window has consumed, and `accept` says whether it takes one. A stop sends
-- goodbye, a failed send does not.
unfoldable pub forward : (Message → Bool) → Bool → List Message → List Message → List Message × Bool
forward accept stopped sent [] = (sent, true)
forward accept stopped sent (m ∷ ms) =
    let rest = forward accept stopped (sent ++ m ∷ []) ms in
    if stopped
    then ((if accept goodbye then sent ++ goodbye ∷ [] else sent), false)
    else if accept m
    then rest
    else (sent, false)

-- One round of `main`: the queue is taken whole, unless the handler is stopped. The loop ends with a
-- stop.
unfoldable pub main_round :
    (Message → Bool) → Handler → List Message → Handler × (List Message × Bool)
unfolding forward
main_round accept h sent =
    if h.stopped
    then (h, ((if accept goodbye then sent ++ goodbye ∷ [] else sent), false))
    else (let written = forward accept false sent h.queued in
        (record h { queued = []; stopped = not written.1 }, written))
