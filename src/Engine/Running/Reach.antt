-- ===== src/Engine/Running/Reach.antt =====
-- The whole engine (engine/src): what its threads and the neighbors do, in any order.
use mathlib.Core.Path.{subst}
use terminal_teams.Prelude.{
  Bool, Bytes, List, Option, [], false, length, refl, some, true, ℕ, ◌<◌, ◌∷◌, ◌≡◌,
}
use terminal_teams.Contacts.Message.{data_max_length}
use terminal_teams.Contacts.Window as Window
use terminal_teams.Engine.Message.{
  Network, TellRequest, NarrateRequest, GreetRequest, HeartbeatRequest,
}
use terminal_teams.Engine.Node.{Node}
use terminal_teams.Engine.Chat as Chat
use terminal_teams.Engine.Discovery.{handle_greet, handle_heartbeat, static_round, dynamic_round}
use terminal_teams.Engine.Control.{start, mailbox, selection, any_stopped, run_round}
use terminal_teams.Engine.Resolve.{IsPolite}
use terminal_teams.Engine.Start.{started, start-started}
use terminal_teams.Engine.Running.{Running, Runs, RunsOn, Running-any_stopped}
use terminal_teams.Engine.Running.Callbacks.{mailbox-Running, selection-Running}
use terminal_teams.Engine.Running.Neighbors.{handle_greet-Runs, handle_heartbeat-Runs}
use terminal_teams.Engine.Running.Delivering.{run_round-Running}
use terminal_teams.Engine.Running.Greetings.{static_round-Running}
use terminal_teams.Engine.Running.Watching.{dynamic_round-Running}
use terminal_teams.Engine.Running.Receiving.{IsHeard, receive_from-Runs}

-- A message or a selection from the text box; a greeting, a heartbeat, a tell or a narrate call from a
-- neighbor; a round of one of the broadcasters' loops. Nicknames fit their buffer, and messages come from
-- contacts that count as active or from strangers.
pub data Step (n n' : Node) : Type 0 where
  typed :
      (net : Network) (threshold now : ℕ) (message : Bytes)
      → mailbox net threshold now n message ≡ some n'
      → Step n n'
  chosen : (now id : ℕ) → selection now n id ≡ some n' → Step n n'
  greeted :
      (threshold now : ℕ) (request : GreetRequest) (done : Bool)
      → length request.nickname < data_max_length
      → handle_greet threshold now n request ≡ some (n', done)
      → Step n n'
  alive :
      (request : HeartbeatRequest) (done : Bool)
      → handle_heartbeat n request ≡ some (n', done)
      → Step n n'
  told :
      (request : TellRequest) (now : ℕ) (done : Bool)
      → IsHeard n request.identity
      → Chat.handle_receive_tell n request now ≡ some (n', done)
      → Step n n'
  narrated :
      (request : NarrateRequest) (now : ℕ) (done : Bool)
      → IsHeard n request.identity
      → Chat.handle_receive_narrate n request now ≡ some (n', done)
      → Step n n'
  delivers : (net : Network) (now : ℕ) → Chat.run_round net now n ≡ some n' → Step n n'
  resolves :
      (net : Network) (threshold now : ℕ)
      → IsPolite net
      → static_round net threshold now n ≡ some n'
      → Step n n'
  watches : (net : Network) (now : ℕ) → dynamic_round net now n ≡ some n' → Step n n'

pub data Reach : Node → Type 0 where
  begin :
      (threshold now : ℕ) (nickname identity address : Bytes) (neighbors : List Bytes) {n : Node}
      → length nickname < data_max_length
      → start threshold now nickname identity address neighbors ≡ some n
      → Reach n
  later : {n n' : Node} → Reach n → Step n n' → Reach n'

pub same_node : (o : Option Node) (n n' : Node) → o ≡ some n → o ≡ some n' → n ≡ n'
same_node o n n' e e' = cc

same_outcome :
    (o : Option (Node × Bool)) (n n' : Node) (b b' : Bool)
    → o ≡ some (n, b)
    → o ≡ some (n', b')
    → n ≡ n'
same_outcome o n n' b b' e e' = cc

pub ends :
    {entries : List Window.Entry} (o : Option Node) (n : Node)
    → RunsOn entries o
    → o ≡ some n
    → Running entries n
ends {entries} o n r e = subst (Running entries) (same_node o r.0 n r.1 e) r.2

ends_with :
    {entries : List Window.Entry} (o : Option (Node × Bool)) (n : Node) (done : Bool)
    → Runs entries o
    → o ≡ some (n, done)
    → Running entries n
ends_with {entries} o n done r e = subst (Running entries) (same_outcome o r.0 n r.1 done r.2 e) r.3

pub start-Running :
    (threshold now : ℕ) (nickname identity address : Bytes) (neighbors : List Bytes)
    → length nickname < data_max_length
    → RunsOn [] (start threshold now nickname identity address neighbors)
unfolding started
start-Running threshold now nickname identity address neighbors short =
    let begun = start-started threshold now nickname identity address neighbors short in
    (
      started threshold now address neighbors begun.0,
      begun.1,
      record {
        ready = begun.2;
        current = (0, begun.3);
        ascending = tt;
        known = tt;
        watched = tt;
        going = (refl, refl, refl, refl, refl);
      },
    )

pub Step-Running :
    {entries : List Window.Entry} {n n' : Node} → Step n n' → Running entries n → Running entries n'
unfolding Chat.handle_receive_tell Chat.handle_receive_narrate
Step-Running {entries} {n} {n'} (typed net threshold now message e) r =
    ends (mailbox net threshold now n message) n' (mailbox-Running net threshold now n message r) e
Step-Running {entries} {n} {n'} (chosen now id e) r =
    ends (selection now n id) n' (selection-Running now n id r) e
Step-Running {entries} {n} {n'} (greeted threshold now request done short e) r =
    ends_with (handle_greet threshold now n request) n' done
      (handle_greet-Runs threshold now n request r short) e
Step-Running {entries} {n} {n'} (alive request done e) r =
    ends_with (handle_heartbeat n request) n' done (handle_heartbeat-Runs n request r) e
Step-Running {entries} {n} {n'} (told request now done heard e) r =
    ends_with (Chat.handle_receive_tell n request now) n' done
      (receive_from-Runs entries n request.identity (request.message ∷ []) now r heard) e
Step-Running {entries} {n} {n'} (narrated request now done heard e) r =
    ends_with (Chat.handle_receive_narrate n request now) n' done
      (receive_from-Runs entries n request.identity request.messages now r heard) e
Step-Running {entries} {n} {n'} (delivers net now e) r =
    ends (Chat.run_round net now n) n' (run_round-Running net now n r) e
Step-Running {entries} {n} {n'} (resolves net threshold now polite e) r =
    ends (static_round net threshold now n) n' (static_round-Running net threshold now polite n r) e
Step-Running {entries} {n} {n'} (watches net now e) r =
    ends (dynamic_round net now n) n' (dynamic_round-Running entries net now n r) e

pub Reach-Running : {n : Node} → Reach n → Running [] n
Reach-Running {n} (begin threshold now nickname identity address neighbors short e) =
    ends (start threshold now nickname identity address neighbors) n
      (start-Running threshold now nickname identity address neighbors short) e
Reach-Running (later r s) = Step-Running s (Reach-Running r)

goes_on : (n : Node) → any_stopped n ≡ false → run_round n ≡ (n, true)
unfolding run_round
goes_on n e = rw (e, run_round) refl

-- However the callbacks, the calls of neighbors and the rounds of the broadcasters follow each other, where
-- nicknames fit their buffer and messages come from contacts that count as active or from strangers: no
-- part of the engine stops, so that its loop goes on, and both handlers have the same current contact and as
-- many contacts as conversations.
pub Reach-goes_on :
    {n : Node}
    → Reach n
    → (run_round n ≡ (n, true))
      × (n.chat.current_id ≡ n.contacts.current_contact)
      × (length n.chat.messages ≡ length n.contacts.contacts)
Reach-goes_on {n} reached =
    let r = Reach-Running reached in
    (goes_on n (Running-any_stopped r), r.ready.chat_live.at, r.ready.chat_live.many)

-- And in every such state each of them has a defined result.
pub Reach-defined :
    {n : Node}
    → Reach n
    → ((net : Network) (threshold now : ℕ) (message : Bytes)
        → (n' : Node) × (mailbox net threshold now n message ≡ some n'))
      × ((now id : ℕ) → (n' : Node) × (selection now n id ≡ some n'))
      × ((request : HeartbeatRequest)
          → (n' : Node) × (done : Bool) × (handle_heartbeat n request ≡ some (n', done)))
      × ((net : Network) (now : ℕ) → (n' : Node) × (Chat.run_round net now n ≡ some n'))
      × ((net : Network) (now : ℕ) → (n' : Node) × (dynamic_round net now n ≡ some n'))
Reach-defined {n} reached =
    let r = Reach-Running reached in
    (
      λ net threshold now message.
          let o = mailbox-Running net threshold now n message r in (o.0, o.1),
      λ now id. let o = selection-Running now n id r in (o.0, o.1),
      λ request. let o = handle_heartbeat-Runs n request r in (o.0, o.1, o.2),
      λ net now. let o = run_round-Running net now n r in (o.0, o.1),
      λ net now. let o = dynamic_round-Running [] net now n r in (o.0, o.1),
    )
