-- ===== src/Engine/Tests.antt =====
-- Instances of what is proved of the engine (engine/src).
use mathlib.Core.Path.{subst}
use terminal_teams.Prelude.{
  Bool, Bytes, List, Option, [], ap, arith, codes, false, if◌then◌else◌, length, none, refl, same,
  some, suc, true, zero, ℕ, ◌++◌, ◌∷◌, ◌≡◌, ◌⊎◌,
}
use terminal_teams.Contacts.State.{active, inactive, selected_active, on_select, is_inactive}
use terminal_teams.Contacts.Message.{state_of, state_message}
use terminal_teams.Contacts.Handler
use terminal_teams.Contacts.Handler.{
  Entry, new_entry, push_message, push_state, enter, find_identity,
}
use terminal_teams.Chat.Handler as ChatHandler
use terminal_teams.Chat.Handler.{show_stored, send_stored}
use terminal_teams.Engine.Message.{Network, HeartbeatRequest, GreetRequest, TellRequest}
use terminal_teams.Engine.Node.{Node, Neighbor, stop_chat}
use terminal_teams.Engine.Chat.{get_identity, run_round, handle_send, receive_from}
use terminal_teams.Engine.Discovery.{add_neighbor, handle_greet, static_round}
use terminal_teams.Engine.Control.{start}
use terminal_teams.Engine.Pending.{pending, Ascending}
use terminal_teams.Engine.Round.{AllDelivered, run_round-AllDelivered}
use terminal_teams.Engine.Ready.{Ready}
use terminal_teams.Engine.Sending.{handle_send-Ready}
use terminal_teams.Engine.Joining.{add_neighbor-Ready, handle_greet-long}
use terminal_teams.Engine.Resolve.{IsPolite, AllTried, static_round-AllTried}
use terminal_teams.Engine.Start.{start-Ready, receive_from-inactive}

abbrev neighbor : List Bytes → Neighbor
neighbor ms = record {
  stub = none;
  timer = record { threshold = 10; timestamp = 0 };
  pending_messages = ms;
}

abbrev waiting : List (ℕ × Neighbor)
waiting = (1, neighbor (codes "a" ∷ [])) ∷ (4, neighbor []) ∷ []

-- A network that takes everything, and answers nothing.
abbrev pub network : Network
network = record {
  connects = λ address. true;
  tells = λ id stub request. true;
  narrates = λ id stub request. true;
  greets = λ id stub request. record {
    status = false;
    nickname = [];
    identity = [];
    ip_address_and_port = [];
  };
  heartbeats = λ id stub request. record { status = false; identity = [] };
}

-- The node `me` after its start.
abbrev pub home : Node
home = record {
  contacts = record {
    stopped = false;
    current_contact = some 0;
    previous_contact = none;
    contacts =
        record {
          nickname = codes "me";
          identity = codes "id-m";
          ip_address_and_port = codes "h:1";
          sent_messages = 0;
          received_messages = 0;
          state = selected_active;
        }
        ∷ [];
    identity_map = (codes "id-m", 0) ∷ [];
    queued = state_of active 0 (codes "me") ∷ state_of selected_active 0 (codes "me") ∷ [];
  };
  chat = record { stopped = false; current_id = some 0; messages = [] ∷ []; queued = [] };
  own_address = codes "h:1";
  chat_stopped = false;
  neighbors = [];
  neighbors_flag = false;
  discovery_stopped = false;
  static_neighbors = [];
  dynamic_neighbors = [];
  engine_stopped = false;
  text_box_stopped = false;
  server_stopped = false;
}

pub start-home : start 10 5 (codes "me") (codes "id-m") (codes "h:1") [] ≡ some home
unfolding start Handler.init Handler.create Handler.select state_message push_message new_entry
    enter push_state on_select ChatHandler.init ChatHandler.create ChatHandler.select show_stored
    send_stored
start-home = refl

home_started :
    (n : Node) × (start 10 5 (codes "me") (codes "id-m") (codes "h:1") [] ≡ some n)
    × Ready [] n
    × (n.contacts.current_contact ≡ some 0)
    × (length n.contacts.contacts ≡ 1)
home_started = start-Ready 10 5 (codes "me") (codes "id-m") (codes "h:1") [] (omega arith)

some_unique : (o : Option Node) (n n' : Node) → o ≡ some n → o ≡ some n' → n ≡ n'
some_unique o n n' e e' = cc

home-Ready : Ready [] home
home-Ready =
    let begun = home_started in
    subst (Ready [])
      (some_unique (start 10 5 (codes "me") (codes "id-m") (codes "h:1") []) begun.0 home begun.1
        start-home)
      begun.2

handle_send-Ready_example :
    (n' : Node) × (e : Entry) × (handle_send network 10 6 home (codes "hi") ≡ some (n', true))
    × Ready [] n'
    × (n'.contacts.current_contact ≡ some 0)
    × (n'.chat_stopped ≡ home.chat_stopped)
    × Ascending n'.neighbors
    × (Handler.get n'.contacts 0 ≡ some e)
    × (pending 0 n'.neighbors ≡ (
        if same e.ip_address_and_port home.own_address
        then pending 0 home.neighbors
        else pending 0 home.neighbors ++ codes "hi" ∷ []))
handle_send-Ready_example = handle_send-Ready [] network 10 6 home 0 (codes "hi") home-Ready refl tt

add_neighbor-Ready_example :
    (n' : Node) × (done : Bool) × (add_neighbor 10 6 home
        (codes "ann")
        (codes "id-a")
        (codes "h:2")
        none
      ≡ some (n', done))
    × Ready [] n'
    × (n'.contacts.current_contact ≡ home.contacts.current_contact)
    × (n'.discovery_stopped ≡ home.discovery_stopped)
    × (n'.chat_stopped ≡ home.chat_stopped)
add_neighbor-Ready_example =
    add_neighbor-Ready [] 10 6 home (codes "ann") (codes "id-a") (codes "h:2") none home-Ready
      (omega arith)

abbrev pulse : HeartbeatRequest
pulse = record { identity = codes "id-m" }

-- A second contact that counts as inactive, and two messages that wait for it.
abbrev ann : Entry
ann = record {
  nickname = codes "ann";
  identity = codes "id-a";
  ip_address_and_port = codes "h:2";
  sent_messages = 0;
  received_messages = 0;
  state = inactive;
}

abbrev pair : Node
pair = record home {
  contacts = record (home.contacts) {
    contacts = (home.contacts).contacts ++ ann ∷ [];
    identity_map = (codes "id-a", 1) ∷ (home.contacts).identity_map;
  };
  neighbors = (1, neighbor (codes "a" ∷ codes "b" ∷ [])) ∷ [];
}

run_round-AllDelivered_example :
    (n' : Node) × (run_round network 100 pair ≡ some n')
    × AllDelivered network (get_identity pair).1 pair.neighbors n'.neighbors
    × (n'.contacts ≡ pair.contacts)
unfolding Handler.get
run_round-AllDelivered_example = run_round-AllDelivered network 100 pair ((ann, refl), tt)

receive_from-inactive_example :
    receive_from pair (codes "id-a") (codes "hello" ∷ []) 7 ≡ some (stop_chat pair, false)
unfolding Handler.get Handler.get_by_identity find_identity same is_inactive
receive_from-inactive_example =
    receive_from-inactive pair (codes "id-a") (codes "hello" ∷ []) 7 1 ann refl refl refl refl

abbrev letters : ℕ → Bytes
letters zero = []
letters (suc n) = b'x' ∷ letters n

length-letters : (n : ℕ) → length (letters n) ≡ n
length-letters zero = refl
length-letters (suc n) = ap suc (length-letters n)

-- A greeting with a nickname of 256 characters.
abbrev long_greeting : GreetRequest
long_greeting = record {
  nickname = letters 256;
  identity = codes "id-b";
  ip_address_and_port = codes "h:3";
}

handle_greet-long_example : handle_greet 10 6 home long_greeting ≡ none
unfolding Handler.get_by_identity find_identity same
handle_greet-long_example =
    handle_greet-long 10 6 home long_greeting (omega (arith, length-letters 256)) refl refl refl

abbrev telling : Bytes → TellRequest
telling message = record { identity = codes "id-a"; message = message }

-- A node that knows the address of one neighbor.
abbrev seeking : Node
seeking = record home {
  static_neighbors =
      record {
        timer = record { threshold = 10; timestamp = 0 };
        trials = 3;
        ip_address_and_port = codes "h:2";
      }
      ∷ [];
}

network-IsPolite : IsPolite network
network-IsPolite place stub request = omega arith

static_round-AllTried_example :
    (n' : Node) × (static_round network 10 50 seeking ≡ some n')
    × Ready [] n'
    × ((n'.discovery_stopped ≡ true) ⊎ AllTried 50 seeking.static_neighbors n'.static_neighbors)
static_round-AllTried_example =
    static_round-AllTried [] network 10 50 network-IsPolite seeking home-Ready
