-- ===== src/System/Screen.antt =====
-- The engine with the contacts window (engine/src, contacts/src): the engine's operations, the two threads
-- of TTContactsHandler, and the window process, in any order.
pub mod Drawing
pub mod Steps
pub mod Listing
use terminal_teams.Prelude.{
  Bool, Bytes, List, [], false, length, some, true, ℕ, ◌++◌, ◌<◌, ◌∷◌, ◌≡◌,
}
use terminal_teams.Contacts.Message.{Message, goodbye, data_max_length}
use terminal_teams.Contacts.Handler
use terminal_teams.Contacts.Handler.{send_heartbeat}
use terminal_teams.Contacts.Window as Window
use terminal_teams.Contacts.Window.{Window, Output, clear_screen, handle, print_entries}
use terminal_teams.Engine.Node.{Node}
use terminal_teams.Engine.Control.{start}
use terminal_teams.Engine.Running.Reach.{Step}

-- `carried` are the messages that the handler's main thread took from the queue and has not sent. A message
-- in shared memory is handed over one at a time.
pub record System : Type 0 where
  pub node : Node
  pub carried : List Message
  pub window : Window

abbrev pub start_with : Node → System
start_with n = record { node = n; carried = []; window = Window.init }

abbrev pub with_queue : Node → List Message → Node
with_queue n q = record n { contacts = record (n.contacts) { queued = q } }

-- `run` of the window goes on after a message, or it stops.
abbrev pub after_message : Window → Bool → Window
after_message w true = w
after_message w false = record w { stopped = true }

-- `works` is an operation of the engine, `beats` the heartbeat thread, `takes` and `shows` the main thread,
-- the latter with the window that receives the message, and `leaves` its end once the handler is stopped.
pub data Turn (s : System) : System → Type 0 where
  works : (n : Node) → Step s.node n → Turn s (record s { node = n })
  beats :
      (h : Handler.Handler) (done : Bool)
      → send_heartbeat s.node.contacts ≡ (h, done)
      → Turn s (record s { node = record (s.node) { contacts = h } })
  takes :
      s.node.contacts.stopped ≡ false
      → s.carried ≡ []
      → Turn s (record s { node = with_queue s.node []; carried = s.node.contacts.queued })
  shows :
      (m : Message) (ms : List Message) (w : Window) (goes_on : Bool)
      → s.node.contacts.stopped ≡ false
      → s.window.stopped ≡ false
      → s.carried ≡ m ∷ ms
      → handle s.window m ≡ some (w, goes_on)
      → Turn s (record s { carried = ms; window = after_message w goes_on })
  leaves :
      (w : Window) (goes_on : Bool)
      → s.node.contacts.stopped ≡ true
      → s.window.stopped ≡ false
      → handle s.window goodbye ≡ some (w, goes_on)
      → Turn s (record s { carried = []; window = after_message w goes_on })

pub data Reach : System → Type 0 where
  begin :
      (threshold now : ℕ) (nickname identity address : Bytes) (neighbors : List Bytes) {n : Node}
      → length nickname < data_max_length
      → start threshold now nickname identity address neighbors ≡ some n
      → Reach (start_with n)
  later : {s s' : System} → Reach s → Turn s s' → Reach s'

-- The last picture on the screen is that of the entries.
abbrev pub IsShown : Window → Type 0
IsShown w =
    (before : List Output) × (out : List Output) × (print_entries w.entries ≡ some out)
    × (w.screen ≡ before ++ clear_screen ∷ out)

-- The turn is one of the main thread, alone or with the window.
abbrev pub IsHandover : {s s' : System} → Turn s s' → Type 0
IsHandover (works n step) = ⊥
IsHandover (beats h done e) = ⊥
IsHandover (takes going emptied) = Unit {0}
IsHandover (shows m ms w goes_on going open_window at e) = Unit {0}
IsHandover (leaves w goes_on over open_window e) = ⊥

-- Such turns, one after the other.
pub data Turns : System → System → Type 0 where
  stay : {s : System} → Turns s s
  turn : {s s' s'' : System} → (one : Turn s s') → IsHandover one → Turns s' s'' → Turns s s''
