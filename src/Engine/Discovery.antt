-- ===== src/Engine/Discovery.antt =====
-- engine/src/TTBroadcasterDiscovery.cpp: how neighbors are found, and watched.
use terminal_teams.Prelude.{
  Bool, Bytes, List, Option, [], false, if◌then◌else◌, is_empty, ltb, none, not, some, true, ℕ,
  ◌&&◌, ◌+◌, ◌-◌, ◌==◌, ◌>>=◌, ◌||◌, ◌∷◌,
}
use terminal_teams.Contacts.Handler
use terminal_teams.Contacts.Handler.{Entry}
use terminal_teams.Chat.Handler as ChatHandler
use terminal_teams.Engine.Message.{Network, GreetRequest, HeartbeatRequest, create_stub}
use terminal_teams.Engine.Timer.{create_timer, expired, expire, kick}
use terminal_teams.Engine.Node.{
  Node, StaticNeighbor, DynamicNeighbor, Outcome, stop_discovery, inactivity_trials,
}

unfoldable pub fail : Node → Outcome
unfolding stop_discovery
fail n = some (stop_discovery n, false)

-- `emplace` in a map: a key that is there keeps its value.
unfoldable pub emplace :
    ℕ → DynamicNeighbor → List (ℕ × DynamicNeighbor) → List (ℕ × DynamicNeighbor)
emplace id nb [] = (id, nb) ∷ []
emplace id nb ((key, old) ∷ rest) =
    if ltb key id
    then (key, old) ∷ emplace id nb rest
    else if key == id
    then (key, old) ∷ rest
    else (id, nb) ∷ (key, old) ∷ rest

-- From the chat handler's `create` on.
unfoldable pub join_chat : ℕ → ℕ → Node → ℕ → Option Bytes → Outcome
unfolding fail emplace create_timer expire
join_chat threshold now n id stub =
    let made = ChatHandler.create n.chat id in
    let n' = record n { chat = made.0 } in
    if not made.1
    then fail n'
    else some (
      record n' {
        dynamic_neighbors =
            emplace id
              (record {
                timer = expire (create_timer threshold now);
                trials = inactivity_trials;
                stub = stub;
              })
              n'.dynamic_neighbors;
      },
      true,
    )

-- The case of an identity that is known.
unfoldable pub activate_known : Node → ℕ → Outcome
unfolding fail
activate_known n id = Handler.activate n.contacts id >>= λ r.
    let n' = record n { contacts = r.0 } in if not r.1 then fail n' else some (n', true)

unfoldable pub add_neighbor : ℕ → ℕ → Node → Bytes → Bytes → Bytes → Option Bytes → Outcome
unfolding join_chat activate_known fail
add_neighbor threshold now n nickname identity ip_address_and_port stub =
    if is_empty nickname || is_empty identity || is_empty ip_address_and_port
    then some (n, false)
    else elim (Handler.get_by_identity n.contacts identity) [
      | some id ↦ activate_known n id
      | none ↦ Handler.create n.contacts nickname identity ip_address_and_port >>= λ r.
          let n' = record n { contacts = r.0 } in
          if not r.1
          then some (n', false)
          else elim (Handler.get_by_identity n'.contacts identity) [
            | none ↦ fail n'
            | some id ↦ join_chat threshold now n' id stub
          ]
    ]

unfoldable pub handle_greet : ℕ → ℕ → Node → GreetRequest → Outcome
unfolding add_neighbor
handle_greet threshold now n request =
    add_neighbor threshold now n request.nickname request.identity request.ip_address_and_port none

unfoldable pub handle_heartbeat : Node → HeartbeatRequest → Outcome
unfolding activate_known
handle_heartbeat n request = elim (Handler.get_by_identity n.contacts request.identity) [
  | none ↦ some (n, false)
  | some id ↦ activate_known n id
]

-- `getNickname`, `getIdentity` and `getIpAddressAndPort`, by the member that they read.
unfoldable pub get_own : (Entry → Bytes) → Node → Node × Bytes
unfolding stop_discovery
get_own field n = elim (Handler.get n.contacts 0) [
  | none ↦ (stop_discovery n, [])
  | some e ↦ (n, field e)
]

unfoldable pub get_nickname : Node → Node × Bytes
unfolding get_own
get_nickname = get_own (λ e. e.nickname)

unfoldable pub get_identity : Node → Node × Bytes
unfolding get_own
get_identity = get_own (λ e. e.identity)

unfoldable pub get_ip_address_and_port : Node → Node × Bytes
unfolding get_own
get_ip_address_and_port = get_own (λ e. e.ip_address_and_port)

-- The greeting of a static neighbor, through the stub made for it; `true` where it was added.
unfoldable pub greet : Network → ℕ → ℕ → Node → ℕ → Bytes → Outcome
unfolding add_neighbor get_nickname get_identity get_ip_address_and_port
greet net threshold now n place stub =
    let name = get_nickname n in
    let me = get_identity name.0 in
    let address = get_ip_address_and_port me.0 in
    let response =
      net.greets place stub
        (record { nickname = name.1; identity = me.1; ip_address_and_port = address.1 }) in
    if response.status
    then add_neighbor threshold now address.0 response.nickname response.identity
        response.ip_address_and_port (some stub)
    else some (address.0, false)

-- The loop's body for one static neighbor.
unfoldable pub visit_static :
    Network → ℕ → ℕ → Node → ℕ → StaticNeighbor → Option (Node × StaticNeighbor)
unfolding greet create_stub expired kick
visit_static net threshold now n place nb =
    if nb.trials == 0
    then some (n, nb)
    else if not (expired nb.timer now)
    then some (n, nb)
    else (let tried = record nb { trials = nb.trials - 1; timer = kick nb.timer now } in
        elim (create_stub net nb.ip_address_and_port) [
          | none ↦ some (n, tried)
          | some stub ↦ greet net threshold now n place stub >>= λ r.
              some (r.0, if r.1 then record tried { trials = 0 } else tried)
        ])

unfoldable pub visit_statics :
    Network → ℕ → ℕ → Node → ℕ → List StaticNeighbor → Option (Node × List StaticNeighbor)
unfolding visit_static
visit_statics net threshold now n place [] = some (n, [])
visit_statics net threshold now n place (nb ∷ rest) =
    if n.discovery_stopped
    then some (n, nb ∷ rest)
    else (visit_static net threshold now n place nb >>= λ r.
        visit_statics net threshold now r.0 (place + 1) rest >>= λ s. some (s.0, r.1 ∷ s.1))

-- Whether no trial is left: then the loop of `resolveStaticNeighbors` ends.
unfoldable pub resolved : List StaticNeighbor → Bool
resolved [] = true
resolved (nb ∷ rest) = (nb.trials == 0) && resolved rest

-- One round of `resolveStaticNeighbors`.
unfoldable pub static_round : Network → ℕ → ℕ → Node → Option Node
unfolding visit_statics
static_round net threshold now n = visit_statics net threshold now n 0 n.static_neighbors >>= λ r.
    some (record (r.0) { static_neighbors = r.1 })

-- `resolveStaticNeighbors`, whose rounds have the given times; the second result is whether the loop has
-- ended by then.
unfoldable pub resolve_loop : Network → ℕ → List ℕ → Node → Option (Node × Bool)
unfolding static_round resolved
resolve_loop net threshold [] n = some (n, false)
resolve_loop net threshold (now ∷ times) n = static_round net threshold now n >>= λ n'.
    (let rest = resolve_loop net threshold times n' in
      if resolved n.static_neighbors || n'.discovery_stopped then some (n', true) else rest)

-- A visit of a dynamic neighbor ends in one of two ways: the loop goes on, or it is left by `break`
-- with the neighbor as it then is.
pub record Visited : Type 0 where
  pub node : Node
  pub neighbor : DynamicNeighbor
  pub goes_on : Bool

-- The heartbeat to a neighbor that has a stub, and what follows of it.
unfoldable pub beat : Network → ℕ → Node → ℕ → Bytes → DynamicNeighbor → Option Visited
unfolding get_identity stop_discovery kick
beat net now n id stub nb =
    let me = get_identity n in
    let response = net.heartbeats id stub (record { identity = me.1 }) in
    let alive = response.status && not (is_empty response.identity) in
    let renewed = if alive then record nb { trials = inactivity_trials + 1 } else nb in
    (if alive then Handler.activate (me.0).contacts id else Handler.deactivate (me.0).contacts id)
    >>= λ r.
        let n' = record (me.0) { contacts = r.0 } in
        some (
          if r.1
          then record {
            node = n';
            neighbor = record renewed {
              trials = renewed.trials - 1;
              timer = kick renewed.timer now;
            };
            goes_on = true;
          }
          else record { node = stop_discovery n'; neighbor = renewed; goes_on = false })

-- The step of the loop where no stub can be made.
unfoldable pub miss : ℕ → Node → DynamicNeighbor → Visited
unfolding kick
miss now n nb = record {
  node = n;
  neighbor = record nb { trials = nb.trials - 1; timer = kick nb.timer now };
  goes_on = true;
}

unfoldable pub contact : Network → ℕ → Node → ℕ → DynamicNeighbor → Option Visited
unfolding beat miss create_stub stop_discovery
contact net now n id nb = elim nb.stub [
  | some stub ↦ beat net now n id stub nb
  | none ↦ elim (Handler.get n.contacts id) [
    | none ↦ some (record { node = stop_discovery n; neighbor = nb; goes_on = false })
    | some e ↦
        let stub = create_stub net e.ip_address_and_port in
        let nb' = record nb { stub = stub } in
        elim stub [ none ↦ some (miss now n nb') | some s ↦ beat net now n id s nb' ]
  ]
]

unfoldable pub visit_dynamic : Network → ℕ → Node → ℕ → DynamicNeighbor → Option Visited
unfolding contact expired
visit_dynamic net now n id nb =
    if not (expired nb.timer now)
    then some (record { node = n; neighbor = nb; goes_on = true })
    else if nb.trials == 0
    then some (record { node = n; neighbor = nb; goes_on = true })
    else contact net now n id nb

unfoldable pub visit_dynamics :
    Network → ℕ → Node → List (ℕ × DynamicNeighbor) → Option (Node × List (ℕ × DynamicNeighbor))
unfolding visit_dynamic
visit_dynamics net now n [] = some (n, [])
visit_dynamics net now n ((id, nb) ∷ rest) =
    if n.discovery_stopped
    then some (n, (id, nb) ∷ rest)
    else (visit_dynamic net now n id nb >>= λ r. elim r.goes_on [
      | true ↦ visit_dynamics net now r.node rest >>= λ s. some (s.0, (id, r.neighbor) ∷ s.1)
      | false ↦ some (r.node, (id, r.neighbor) ∷ rest)
    ])

-- One round of `resolveDynamicNeighbors`.
unfoldable pub dynamic_round : Network → ℕ → Node → Option Node
unfolding visit_dynamics
dynamic_round net now n = visit_dynamics net now n n.dynamic_neighbors >>= λ r.
    some (record (r.0) { dynamic_neighbors = r.1 })
