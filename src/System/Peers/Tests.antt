-- ===== src/System/Peers/Tests.antt =====
-- The engine of `me`, who has written to bob, and that of bob, who knows `me`.
use mathlib.Core.Path.{subst}
use terminal_teams.Prelude.{
  Bytes, [], arith, codes, get_elem?, length, refl, same, some, sym, true, ◌∷◌, ◌≡◌,
}
use terminal_teams.Contacts.Handler
use terminal_teams.Contacts.Message.{state_message}
use terminal_teams.Contacts.State.{
  active, selected_active, on_select, on_unselect, on_send, same_state, is_inactive,
}
use terminal_teams.Chat.Handler as ChatHandler
use terminal_teams.Engine.Message.{Network, GreetRequest}
use terminal_teams.Engine.Node.{Node, Neighbor}
use terminal_teams.Engine.Chat as Chat
use terminal_teams.Engine.Pending.{pending}
use terminal_teams.Engine.Services.{tell, narrate}
use terminal_teams.Engine.Discovery.{handle_greet}
use terminal_teams.Engine.Control.{start, selection, mailbox}
use terminal_teams.Engine.Timer.{expired}
use terminal_teams.Engine.Wire.{requests}
use terminal_teams.Engine.Tests.{network}
use terminal_teams.Engine.Running.Reach.{greeted, Reach, begin, later, Reach-Running}
use terminal_teams.Engine.Running.Tests.{written, Reach-written, node_done, node_of}
use terminal_teams.System.Peers.{Knows}
use terminal_teams.System.Peers.Serving.{served}
use terminal_teams.System.Peers.Round.{answered, called, Ends, IsDue, run_round-Takes}

abbrev bob_started : Node
bob_started = node_of (start 10 5 (codes "bob") (codes "id-b") (codes "h:2") [])

abbrev greeting : GreetRequest
greeting = record {
  nickname = codes "me";
  identity = codes "id-m";
  ip_address_and_port = codes "h:1";
}

abbrev pub bob : Node
bob = node_done (handle_greet 10 6 bob_started greeting)

start-bob : start 10 5 (codes "bob") (codes "id-b") (codes "h:2") [] ≡ some bob_started
unfolding start Handler.create state_message Handler.select Handler.push_message Handler.init
    Handler.enter terminal_teams.Contacts.State.on_select Handler.new_entry Handler.push_state
start-bob = refl

greet-bob : handle_greet 10 6 bob_started greeting ≡ some (bob, true)
unfolding start Handler.init Handler.create Handler.select state_message Handler.push_message
    Handler.new_entry Handler.enter Handler.push_state on_select ChatHandler.init ChatHandler.create
    ChatHandler.select ChatHandler.show_stored ChatHandler.send_stored handle_greet
    Handler.get_by_identity Handler.find_identity same
greet-bob = refl

pub Reach-bob : Reach bob
Reach-bob =
    later (begin 10 5 (codes "bob") (codes "id-b") (codes "h:2") [] (omega arith) start-bob)
      (greeted 10 6 greeting true (omega arith) greet-bob)

-- Its calls all go to bob.
abbrev pub to_bob : Network
to_bob = record network {
  tells = λ id stub r. answered (tell bob true (some r) true 9);
  narrates = λ id stub r.
      answered (narrate length bob true (some (requests r.identity r.messages)) true 9);
}

abbrev for_bob : Neighbor
for_bob = record {
  stub = some (codes "h:2");
  timer = record { threshold = 10; timestamp = 0 };
  pending_messages = codes "hi" ∷ [];
}

due : IsDue to_bob 20 written 1 for_bob (codes "h:2")
unfolding handle_greet Handler.get_by_identity Handler.find_identity same Handler.create
    state_message Handler.push_message ChatHandler.create Handler.select Handler.enter
    Handler.push_state on_select ChatHandler.select Handler.new_entry ChatHandler.show_stored
    ChatHandler.send_stored selection mailbox Handler.size Handler.unselect on_unselect
    Chat.handle_send Handler.current ChatHandler.send_typed ChatHandler.current Handler.send on_send
    Handler.update same_state ChatHandler.send ChatHandler.store Handler.get Chat.ensure_stub
    expired is_inactive
due = record {
  entry = record {
    nickname = codes "bob";
    identity = codes "id-b";
    ip_address_and_port = codes "h:2";
    sent_messages = 1;
    received_messages = 0;
    state = selected_active;
  };
  at = refl;
  found = refl;
  due = refl;
  here = refl;
  linked = refl;
}

pub knows : Knows bob (codes "id-m") 1
unfolding start Handler.init Handler.create Handler.select state_message Handler.push_message
    Handler.new_entry Handler.enter Handler.push_state on_select ChatHandler.init ChatHandler.create
    ChatHandler.select ChatHandler.show_stored ChatHandler.send_stored handle_greet
    Handler.get_by_identity Handler.find_identity same Handler.get is_inactive
knows = record {
  entry = record {
    nickname = codes "me";
    identity = codes "id-m";
    ip_address_and_port = codes "h:1";
    sent_messages = 0;
    received_messages = 0;
    state = active;
  };
  named = refl;
  found = refl;
  here = refl;
  far = refl;
}

written-identity : (Chat.get_identity written).1 ≡ codes "id-m"
unfolding handle_greet Handler.get_by_identity Handler.find_identity same Handler.create
    state_message Handler.push_message ChatHandler.create Handler.select Handler.enter
    Handler.push_state on_select ChatHandler.select Handler.new_entry ChatHandler.show_stored
    ChatHandler.send_stored selection mailbox Handler.size Handler.unselect on_unselect
    Chat.handle_send Handler.current ChatHandler.send_typed ChatHandler.current Handler.send on_send
    Handler.update same_state ChatHandler.send ChatHandler.store Handler.get Chat.ensure_stub
    expired is_inactive Chat.get_identity
written-identity = refl

pub nothing_stored : get_elem? bob.chat.messages 1 ≡ some []
unfolding start Handler.init Handler.create Handler.select state_message Handler.push_message
    Handler.new_entry Handler.enter Handler.push_state on_select ChatHandler.init ChatHandler.create
    ChatHandler.select ChatHandler.show_stored ChatHandler.send_stored handle_greet
    Handler.get_by_identity Handler.find_identity same
nothing_stored = refl

-- Its calls arrive.
called-to_bob :
    called to_bob 1 (codes "h:2") (Chat.get_identity written).1 (codes "hi") []
    ≡ answered (served length bob (Chat.get_identity written).1 (codes "hi") [] 9)
called-to_bob = refl

run_round-Takes_example :
    (a' : Node) × (b' : Node) × (Chat.run_round to_bob 20 written ≡ some a')
    × Ends true length [] 1 9
        (Chat.get_identity written).1
        (codes "hi")
        []
        []
        bob
        b'
        (pending 1 a'.neighbors)
run_round-Takes_example =
    run_round-Takes length to_bob written bob 1 1 20 9 for_bob (codes "h:2") (codes "hi") [] [] true
      (Reach-Running Reach-written) (Reach-Running Reach-bob) due refl called-to_bob
      (subst (λ (i : Bytes). Knows bob i 1) (sym written-identity) knows) nothing_stored
