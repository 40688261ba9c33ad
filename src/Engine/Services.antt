-- ===== src/Engine/Services.antt =====
-- engine/src/TTNeighborsServiceChat.cpp and TTNeighborsServiceDiscovery.cpp: the calls that arrive
-- from the network. A pointer that is null is `none`, or `false` where only its presence matters.
use terminal_teams.Prelude.{
  Bool, Bytes, List, Option, [], if◌then◌else◌, length, none, not, some, ℕ, ◌&&◌, ◌++◌, ◌==◌, ◌>>=◌,
  ◌∷◌,
}
use terminal_teams.Engine.Message.{TellRequest, GreetRequest, HeartbeatRequest}
use terminal_teams.Engine.Node.{Node, Outcome}
use terminal_teams.Engine.Chat
use terminal_teams.Engine.Discovery

-- `grpc::StatusCode`, as far as it is used.
pub data Status : Type 0 where
  ok invalid_argument unknown : Status

-- A reply is the texts set in it, in the order of the calls.
abbrev pub Served : Type 0
Served = Option (Node × Status × List Bytes)

-- The end of a handler: the reply is filled only where the request was handled.
unfoldable pub reply_with : (Node → Node × List Bytes) → Outcome → Served
reply_with fill outcome = outcome >>= λ r.
    (let filled = fill r.0 in
      if r.1 then some (filled.0, ok, filled.1) else some (r.0, unknown, []))

unfoldable pub refuse : Node → Served
refuse n = some (n, invalid_argument, [])

unfoldable pub chat_identity : Node → Node × List Bytes
chat_identity n = let me = Chat.get_identity n in (me.0, me.1 ∷ [])

unfoldable pub discovery_identity : Node → Node × List Bytes
discovery_identity n = let me = Discovery.get_identity n in (me.0, me.1 ∷ [])

unfoldable pub discovery_greeting : Node → Node × List Bytes
discovery_greeting n =
    let name = Discovery.get_nickname n in
    let me = Discovery.get_identity name.0 in
    let address = Discovery.get_ip_address_and_port me.0 in
    (address.0, name.1 ∷ me.1 ∷ address.1 ∷ [])

unfoldable pub tell : Node → Bool → Option TellRequest → Bool → ℕ → Served
unfolding refuse reply_with chat_identity
tell n context request reply now = elim request [
  | none ↦ refuse n
  | some r ↦
      if not (context && reply)
      then refuse n
      else reply_with chat_identity (Chat.handle_receive_tell n r now)
]

-- `std::set::insert`, for its size alone.
unfoldable pub insert_unique : ℕ → List ℕ → List ℕ
insert_unique x [] = x ∷ []
insert_unique x (y ∷ ys) = if x == y then y ∷ ys else y ∷ insert_unique x ys

-- What the loop over the stream gathers; `hasher` is `std::hash<std::string>`.
pub record Gathered : Type 0 where
  pub identity : Bytes
  pub messages : List Bytes
  pub unique_ids : List ℕ

unfoldable pub gather : (Bytes → ℕ) → Gathered → List TellRequest → Gathered
unfolding insert_unique
gather hasher g [] = g
gather hasher g (r ∷ rs) =
    gather hasher
      (record {
        identity = r.identity;
        messages = g.messages ++ r.message ∷ [];
        unique_ids = insert_unique (hasher r.identity) g.unique_ids;
      })
      rs

unfoldable pub nothing_gathered : Gathered
nothing_gathered = record { identity = []; messages = []; unique_ids = [] }

-- The stream is the list of the requests that `Read` delivers; each has the members of a tell.
unfoldable pub narrate : (Bytes → ℕ) → Node → Bool → Option (List TellRequest) → Bool → ℕ → Served
unfolding refuse reply_with chat_identity gather nothing_gathered
narrate hasher n context stream reply now = elim stream [
  | none ↦ refuse n
  | some rs ↦
      let g = gather hasher nothing_gathered rs in
      if not (context && reply)
      then refuse n
      else if not (length g.unique_ids == 1)
      then refuse n
      else reply_with chat_identity (
          Chat.handle_receive_narrate n (record { identity = g.identity; messages = g.messages })
            now)
]

unfoldable pub greet : ℕ → ℕ → Node → Bool → Option GreetRequest → Bool → Served
unfolding refuse reply_with discovery_greeting
greet threshold now n context request reply = elim request [
  | none ↦ refuse n
  | some r ↦
      if not (context && reply)
      then refuse n
      else reply_with discovery_greeting (Discovery.handle_greet threshold now n r)
]

unfoldable pub heartbeat : Node → Bool → Option HeartbeatRequest → Bool → Served
unfolding refuse reply_with discovery_identity
heartbeat n context request reply = elim request [
  | none ↦ refuse n
  | some r ↦
      if not (context && reply)
      then refuse n
      else reply_with discovery_identity (Discovery.handle_heartbeat n r)
]
