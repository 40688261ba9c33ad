-- ===== src/Engine/Node.antt =====
-- The state of one running engine: the handlers that its parts share, and the members of
-- TTBroadcasterChat and TTBroadcasterDiscovery (engine/src).
use terminal_teams.Prelude.{Bool, Bytes, List, Option, true, ℕ}
use terminal_teams.Contacts.Handler
use terminal_teams.Chat.Handler as ChatHandler
use terminal_teams.Engine.Timer.{Timer}

-- `TTBroadcasterChat::Neighbor`.
pub record Neighbor : Type 0 where
  pub stub : Option Bytes
  pub timer : Timer
  pub pending_messages : List Bytes

-- `TTBroadcasterDiscovery::StaticNeighbor` and `DynamicNeighbor`.
pub record StaticNeighbor : Type 0 where
  pub timer : Timer
  pub trials : ℕ
  pub ip_address_and_port : Bytes

pub record DynamicNeighbor : Type 0 where
  pub timer : Timer
  pub trials : ℕ
  pub stub : Option Bytes

-- `discoveryTrials` and `inactivityTrials`.
abbrev pub discovery_trials : ℕ
discovery_trials = 3

abbrev pub inactivity_trials : ℕ
inactivity_trials = 5

-- The maps are lists in the order of their keys.
pub record Node : Type 0 where
  pub contacts : Handler.Handler
  pub chat : ChatHandler.Handler
  pub own_address : Bytes
  pub chat_stopped : Bool
  pub neighbors : List (ℕ × Neighbor)
  pub neighbors_flag : Bool
  pub discovery_stopped : Bool
  pub static_neighbors : List StaticNeighbor
  pub dynamic_neighbors : List (ℕ × DynamicNeighbor)
  pub engine_stopped : Bool
  pub text_box_stopped : Bool
  pub server_stopped : Bool

-- The result of an operation that returns `bool`; `none` is undefined behaviour.
abbrev pub Outcome : Type 0
Outcome = Option (Node × Bool)

unfoldable pub stop_chat : Node → Node
stop_chat n = record n { chat_stopped = true }

unfoldable pub stop_discovery : Node → Node
stop_discovery n = record n { discovery_stopped = true }
