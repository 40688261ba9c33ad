-- ===== src/Engine/Running/Tests.antt =====
-- An engine (engine/src) that is greeted, selects the new contact, and writes to it.
use terminal_teams.Prelude.{
  Bool, Bytes, Option, [], arith, codes, length, none, refl, same, some, true, ℕ, ◌∷◌, ◌≡◌,
}
use terminal_teams.Contacts.Handler
use terminal_teams.Chat.Handler as ChatHandler
use terminal_teams.Engine.Message.{Network, GreetRequest, HeartbeatRequest}
use terminal_teams.Engine.Node.{Node}
use terminal_teams.Engine.Chat as Chat
use terminal_teams.Engine.Discovery.{
  handle_greet, handle_heartbeat, dynamic_round, resolve_loop, resolved,
}
use terminal_teams.Engine.Control.{start, mailbox, selection, run_round}
use terminal_teams.Engine.Tests.{home, start-home, network}
use terminal_teams.Engine.Running.{Running}
use terminal_teams.Engine.Running.Resolving.{resolve_loop-ends}
use terminal_teams.Engine.Running.Laps.{laps}
use terminal_teams.Engine.Running.Reach.{
  typed, chosen, greeted, Reach, begin, later, Reach-goes_on, Reach-defined, Reach-Running,
}

abbrev pub node_of : Option Node → Node
node_of none = home
node_of (some n) = n

abbrev pub node_done : Option (Node × Bool) → Node
node_done none = home
node_done (some (n, done)) = n

abbrev pub request : GreetRequest
request = record {
  nickname = codes "bob";
  identity = codes "id-b";
  ip_address_and_port = codes "h:2";
}

abbrev pub with_bob : Node
with_bob = node_done (handle_greet 10 6 home request)

abbrev pub bob_selected : Node
bob_selected = node_of (selection 7 with_bob 1)

abbrev pub written : Node
written = node_of (mailbox network 10 8 bob_selected (codes "hi"))

greet-with_bob : handle_greet 10 6 home request ≡ some (with_bob, true)
unfolding handle_greet Handler.get_by_identity Handler.find_identity terminal_teams.Prelude.same
    Handler.create terminal_teams.Contacts.Message.state_message Handler.push_message
    ChatHandler.create
greet-with_bob = refl

select-bob_selected : selection 7 with_bob 1 ≡ some bob_selected
unfolding handle_greet Handler.get_by_identity Handler.find_identity terminal_teams.Prelude.same
    Handler.create terminal_teams.Contacts.Message.state_message Handler.push_message
    ChatHandler.create selection Handler.size Handler.select Handler.unselect Handler.enter
    Handler.push_state terminal_teams.Contacts.State.on_select
    terminal_teams.Contacts.State.on_unselect ChatHandler.select Handler.new_entry
select-bob_selected = refl

write-written : mailbox network 10 8 bob_selected (codes "hi") ≡ some written
unfolding handle_greet Handler.get_by_identity Handler.find_identity terminal_teams.Prelude.same
    Handler.create terminal_teams.Contacts.Message.state_message Handler.push_message
    ChatHandler.create selection Handler.size Handler.select Handler.unselect Handler.enter
    Handler.push_state terminal_teams.Contacts.State.on_select
    terminal_teams.Contacts.State.on_unselect ChatHandler.select mailbox Chat.handle_send
    Handler.current Handler.new_entry ChatHandler.send_typed ChatHandler.show_stored
    ChatHandler.send_stored ChatHandler.current Handler.send terminal_teams.Contacts.State.on_send
    Handler.update terminal_teams.Contacts.State.same_state ChatHandler.send ChatHandler.store
    Handler.get
write-written = refl

pub Reach-bob_selected : Reach bob_selected
Reach-bob_selected =
    later
      (later (begin 10 5 (codes "me") (codes "id-m") (codes "h:1") [] (omega arith) start-home)
        (greeted 10 6 request true (omega arith) greet-with_bob))
      (chosen 7 1 select-bob_selected)

pub Reach-written : Reach written
Reach-written = later Reach-bob_selected (typed network 10 8 (codes "hi") write-written)

Reach-goes_on_example :
    (run_round written ≡ (written, true))
    × (written.chat.current_id ≡ written.contacts.current_contact)
    × (length written.chat.messages ≡ length written.contacts.contacts)
Reach-goes_on_example = Reach-goes_on Reach-written

Reach-defined_example :
    ((net : Network) (threshold now : ℕ) (message : Bytes)
      → (n' : Node) × (mailbox net threshold now written message ≡ some n'))
    × ((now id : ℕ) → (n' : Node) × (selection now written id ≡ some n'))
    × ((request : HeartbeatRequest)
        → (n' : Node) × (done : Bool) × (handle_heartbeat written request ≡ some (n', done)))
    × ((net : Network) (now : ℕ) → (n' : Node) × (Chat.run_round net now written ≡ some n'))
    × ((net : Network) (now : ℕ) → (n' : Node) × (dynamic_round net now written ≡ some n'))
Reach-defined_example = Reach-defined Reach-written

-- A node that knows the address of one neighbor, which does not answer.
abbrev seeking : Node
seeking = record home {
  static_neighbors =
      record {
        timer = record { threshold = 10; timestamp = 0 };
        trials = 3;
        ip_address_and_port = codes "h:2";
      }
      ∷ [];
}

start-seeking :
    start 10 5 (codes "me") (codes "id-m") (codes "h:1") (codes "h:2" ∷ []) ≡ some seeking
unfolding start Handler.init Handler.create Handler.select
    terminal_teams.Contacts.Message.state_message Handler.push_message Handler.new_entry
    Handler.enter Handler.push_state terminal_teams.Contacts.State.on_select ChatHandler.init
    ChatHandler.create ChatHandler.select ChatHandler.show_stored ChatHandler.send_stored
start-seeking = refl

-- Most rounds find a timer that still runs.
resolve_loop-ends_example :
    (n' : Node) × (resolve_loop network 10
        (50 ∷ 50 ∷ 51 ∷ 59 ∷ 60 ∷ 61 ∷ 69 ∷ 70 ∷ 75 ∷ 80 ∷ [])
        seeking
      ≡ some (n', true))
    × Running [] n'
    × (resolved n'.static_neighbors ≡ true)
unfolding laps
resolve_loop-ends_example =
    resolve_loop-ends network 10 (λ place stub request. omega arith) 10 3 0
      (50 ∷ 50 ∷ 51 ∷ 59 ∷ 60 ∷ 61 ∷ 69 ∷ 70 ∷ 75 ∷ 80 ∷ []) seeking
      (Reach-Running (
        begin 10 5 (codes "me") (codes "id-m") (codes "h:1") (codes "h:2" ∷ []) (omega arith)
          start-seeking))
      ((omega arith, omega arith, omega arith), tt)
      (
        omega arith,
        (
          omega arith,
          (
            omega arith,
            (
              omega arith,
              (
                omega arith,
                (omega arith, (omega arith, (omega arith, (omega arith, (omega arith, tt))))),
              ),
            ),
          ),
        ),
      )
      (omega arith)
