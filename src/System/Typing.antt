-- ===== src/System/Typing.antt =====
-- From a line of the user to the engine (textbox/src, engine/src/TTEngine.cpp): the callbacks of the text box
-- receiver, which the constructor of TTEngine binds to `mailbox` and `selection`.
pub mod Sending
pub mod Lines
pub mod Arriving
pub mod Crossing
pub mod Tests
use terminal_teams.Prelude.{
  Bool, Bytes, List, Option, [], false, get_elem?, same, some, ℕ, ◌>>=◌, ◌∷◌, ◌≡◌, ◌≢◌,
}
use terminal_teams.Contacts.Handler
use terminal_teams.Contacts.Window as Window
use terminal_teams.Chat.Message.{Entry, sender}
use terminal_teams.Chat.Handler as ChatHandler
use terminal_teams.Contacts.State.{is_inactive}
use terminal_teams.Contacts.Success.{identity_of}
use terminal_teams.Engine.Message.{Network, create_stub}
use terminal_teams.Engine.Timer.{create_timer, expire}
use terminal_teams.Engine.Node.{Node, Neighbor}
use terminal_teams.Engine.Chat.{add_pending}
use terminal_teams.Engine.Control.{mailbox, selection}
use terminal_teams.TextBox.Handler.{Callback, message_sent, contact_selected}
use terminal_teams.TextBox.Lines.{messages}
use terminal_teams.TextBox.Message as TextBoxMessage

-- The callbacks, as the engine answers them. `threshold` and `now` are those of all of them.
unfoldable pub respond : Network → ℕ → ℕ → Node → List Callback → Option Node
respond net threshold now n [] = some n
respond net threshold now n (message_sent m ∷ later) =
    mailbox net threshold now n m >>= λ n'. respond net threshold now n' later
respond net threshold now n (contact_selected id ∷ later) =
    selection now n id >>= λ n'. respond net threshold now n' later

abbrev pub sent_entry : ℕ → Bytes → Entry
sent_entry now m = record { type = sender; timestamp = now; text = m }

-- What the engine keeps of the messages of a line.
abbrev pub sent_entries : ℕ → List TextBoxMessage.Message → List Entry
sent_entries now [] = []
sent_entries now (m ∷ ms) = sent_entry now m.text ∷ sent_entries now ms

abbrev pub pieces : List TextBoxMessage.Message → List Bytes
pieces [] = []
pieces (m ∷ ms) = m.text ∷ pieces ms

-- The address of a contact, whether it counts as inactive, and the identity of the node.
pub record Line : Type 0 where
  pub address : Bytes
  pub away : Bool
  pub me : Bytes

-- The current contact is `id`, and not the node itself; `storage` are the entries of its conversation.
pub record Speaks (id : ℕ) (line : Line) (storage : List Entry) (n : Node) : Type 0 where
  pub current : n.contacts.current_contact ≡ some id
  pub entry : Handler.Entry
  pub found : get_elem? n.contacts.contacts id ≡ some entry
  pub far : same entry.ip_address_and_port n.own_address ≡ false
  pub at : entry.ip_address_and_port ≡ line.address
  pub state : is_inactive entry.state ≡ line.away
  pub named : identity_of n.contacts.contacts ≡ line.me
  pub stored : get_elem? n.chat.messages id ≡ some storage

-- The other conversations are as before.
abbrev pub SameOthers : ℕ → Node → Node → Type 0
SameOthers id n n' =
    (other : ℕ) → id ≢ other → get_elem? n'.chat.messages other ≡ get_elem? n.chat.messages other

abbrev pub fresh_neighbor : Network → ℕ → ℕ → Bytes → Neighbor
fresh_neighbor net threshold now address = record {
  stub = create_stub net address;
  timer = expire (create_timer threshold now);
  pending_messages = [];
}

-- Messages that are added one after the other.
abbrev pub add_all : ℕ → Neighbor → List Bytes → List (ℕ × Neighbor) → List (ℕ × Neighbor)
add_all id fresh [] nbs = nbs
add_all id fresh (m ∷ ms) nbs = add_all id fresh ms (add_pending id m fresh nbs)
