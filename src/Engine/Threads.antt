-- ===== src/Engine/Threads.antt =====
-- engine/src/TTEngine.cpp: the constructor with its exceptions, the three threads that it starts, and how they
-- end.
pub mod Ending
pub mod Made
mod Tests
use terminal_teams.Prelude.{
  Bool, Bytes, List, Option, [], false, if◌then◌else◌, none, not, some, true, ℕ, ◌&&◌, ◌>>=◌, ◌||◌,
  ◌∷◌,
}
use terminal_teams.Engine.Node.{Node}
use terminal_teams.Engine.Control.{start, stop_all, run_round}

-- Which of its parts the factory (engine/src/TTAbstractFactory.hpp) makes, by the pointer being no null
-- pointer; `listens` is the one inside the server (engine/src/TTServer.hpp), which the remote procedure library
-- makes.
pub record Factory : Type 0 where
  pub contacts_handler : Bool
  pub chat_handler : Bool
  pub text_box_handler : Bool
  pub neighbors_stub : Bool
  pub broadcaster_chat : Bool
  pub broadcaster_discovery : Bool
  pub service_chat : Bool
  pub service_discovery : Bool
  pub server : Bool
  pub listens : Bool

-- The exceptions of the constructor, by what is missing.
pub data Failure : Type 0 where
  no_handlers no_neighbors_stub no_broadcasters no_services no_server : Failure

-- The engine with the promises of its threads: whether each has been kept.
pub record Engine : Type 0 where
  pub node : Node
  pub server_ended : Bool
  pub chat_ended : Bool
  pub discovery_ended : Bool

pub data Construction : Type 0 where
  thrown : Failure → Construction
  made : Engine → Construction

-- From the services on. The thread of a server that does not listen is undefined behaviour.
unfoldable pub serve : Factory → Node → Option Construction
serve f n =
    if not f.service_chat || not f.service_discovery
    then some (thrown no_services)
    else if not f.server
    then some (thrown no_server)
    else if not f.listens
    then none
    else some (
        made
          (record { node = n; server_ended = false; chat_ended = false; discovery_ended = false }))

-- The constructor. The first contact is made before the missing of a later part is found.
unfoldable pub construct :
    Factory → ℕ → ℕ → Bytes → Bytes → Bytes → List Bytes → Option Construction
unfolding serve
construct f threshold now nickname identity ip_address_and_port neighbors =
    if not f.contacts_handler || not f.chat_handler || not f.text_box_handler
    then some (thrown no_handlers)
    else (start threshold now nickname identity ip_address_and_port neighbors >>= λ n.
        if not f.neighbors_stub
        then some (thrown no_neighbors_stub)
        else if not f.broadcaster_chat || not f.broadcaster_discovery
        then some (thrown no_broadcasters)
        else serve f n)

pub data Thread : Type 0 where
  server chat discovery : Thread

-- Whether the loop that the thread runs is over: then its part has stopped.
unfoldable pub is_over : Thread → Engine → Bool
is_over server e = e.node.server_stopped
is_over chat e = e.node.chat_stopped
is_over discovery e = e.node.discovery_stopped

-- `promise.set_value()`.
unfoldable pub keep_promise : Thread → Engine → Engine
keep_promise server e = record e { server_ended = true }
keep_promise chat e = record e { chat_ended = true }
keep_promise discovery e = record e { discovery_ended = true }

-- `server`, `chat` and `discovery` of TTEngine, once the loop that they call returns: `stop`, and the promise.
unfoldable pub returns : Thread → Engine → Engine
unfolding is_over keep_promise stop_all
returns t e = if is_over t e then keep_promise t (record e { node = stop_all e.node }) else e

-- What happens to an engine besides its work: a thread gets to run, `run` looks at the parts, or `stop` is
-- called, by a signal or by the destructor.
pub data Action : Type 0 where
  thread : Thread → Action
  checks interrupted : Action

unfoldable pub act : Action → Engine → Engine
unfolding returns run_round stop_all
act (thread t) e = returns t e
act checks e = record e { node = (run_round e.node).0 }
act interrupted e = record e { node = stop_all e.node }

unfoldable pub act_all : List Action → Engine → Engine
unfolding act
act_all [] e = e
act_all (a ∷ later) e = act_all later (act a e)

-- The destructor waits for every promise.
unfoldable pub waits_over : Engine → Bool
waits_over e = e.server_ended && e.chat_ended && e.discovery_ended
