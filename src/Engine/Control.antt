-- ===== src/Engine/Control.antt =====
-- engine/src/TTEngine.cpp: the first contact, the callbacks of the text box, and the stop of every
-- part once one of them has stopped.
use terminal_teams.Prelude.{
  Bool, Bytes, List, Option, [], false, if◌then◌else◌, ltb, some, true, ℕ, ◌&&◌, ◌>>=◌, ◌||◌, ◌∷◌,
}
use terminal_teams.Contacts.Handler
use terminal_teams.Chat.Handler as ChatHandler
use terminal_teams.Engine.Message.{Network}
use terminal_teams.Engine.Node.{Node, StaticNeighbor, discovery_trials}
use terminal_teams.Engine.Timer.{create_timer, expire}
use terminal_teams.Engine.Chat

-- `mStaticNeighbors` as the constructor of TTBroadcasterDiscovery fills it; an address already has
-- its port.
unfoldable pub static_neighbors : ℕ → ℕ → List Bytes → List StaticNeighbor
unfolding create_timer expire
static_neighbors threshold now [] = []
static_neighbors threshold now (address ∷ rest) =
    record {
      timer = expire (create_timer threshold now);
      trials = discovery_trials;
      ip_address_and_port = address;
    }
    ∷ static_neighbors threshold now rest

-- The constructor: the results of the four calls are not looked at.
unfoldable pub start : ℕ → ℕ → Bytes → Bytes → Bytes → List Bytes → Option Node
unfolding static_neighbors
start threshold now nickname identity ip_address_and_port neighbors =
    Handler.create Handler.init nickname identity ip_address_and_port >>= λ created.
    Handler.select created.0 0 >>= λ selected. some (record {
      contacts = selected.0;
      chat = (ChatHandler.select (ChatHandler.create ChatHandler.init 0).0 0 now).0;
      own_address = ip_address_and_port;
      chat_stopped = false;
      neighbors = [];
      neighbors_flag = false;
      discovery_stopped = false;
      static_neighbors = static_neighbors threshold now neighbors;
      dynamic_neighbors = [];
      engine_stopped = false;
      text_box_stopped = false;
      server_stopped = false;
    })

-- `onStop`, and the flag that `stop` sets before it.
unfoldable pub stop_all : Node → Node
stop_all n = record n {
  contacts = Handler.stop n.contacts;
  chat = ChatHandler.stop n.chat;
  chat_stopped = true;
  discovery_stopped = true;
  engine_stopped = true;
  text_box_stopped = true;
  server_stopped = true;
}

-- The callback of a message from the text box.
unfoldable pub mailbox : Network → ℕ → ℕ → Node → Bytes → Option Node
unfolding stop_all
mailbox net threshold now n message =
    Chat.handle_send net threshold now n message >>= λ r. some (if r.1 then r.0 else stop_all r.0)

-- The callback of a selection. Both handlers are asked, also where the first one fails.
unfoldable pub selection : ℕ → Node → ℕ → Option Node
unfolding stop_all
selection now n id =
    if ltb id (Handler.size n.contacts)
    then (Handler.select n.contacts id >>= λ r.
        let shown = ChatHandler.select n.chat id now in
        let n' = record n { contacts = r.0; chat = shown.0 } in
        some (if r.1 && shown.1 then n' else stop_all n'))
    else some n

-- What one round of `run` finds: whether any part has stopped.
unfoldable pub any_stopped : Node → Bool
any_stopped n =
    n.engine_stopped || n.server_stopped || n.contacts.stopped || n.chat.stopped
    || n.text_box_stopped || n.chat_stopped || n.discovery_stopped

-- One round of `run`; the second result says whether the loop goes on.
unfoldable pub run_round : Node → Node × Bool
unfolding any_stopped stop_all
run_round n = if any_stopped n then (stop_all n, false) else (n, true)
