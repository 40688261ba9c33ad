-- ===== src/Engine/Running/Greetings.antt =====
-- A round over the static neighbors (engine/src/TTBroadcasterDiscovery.cpp, `resolveStaticNeighbors`) in
-- a node that runs.
use terminal_teams.Prelude.{Bool-cases, Bytes, List, false, inl, inr, length, refl, some, ℕ, ◌<◌}
use terminal_teams.Contacts.Handler.{Entry}
use terminal_teams.Contacts.Message.{data_max_length}
use terminal_teams.Contacts.Window as Window
use terminal_teams.Engine.Message.{Network, GreetResponse}
use terminal_teams.Engine.Node.{Node, StaticNeighbor}
use terminal_teams.Engine.Discovery.{
  get_own, get_nickname, get_identity, get_ip_address_and_port, greet, static_round,
}
use terminal_teams.Engine.Resolve.{IsPolite, greeting, answered, visit_statics-AllTried}
use terminal_teams.Engine.Running.{Running, Runs, RunsOn, first_contact}
use terminal_teams.Engine.Running.Neighbors.{add_neighbor-Runs}

module _ {entries : List Window.Entry} where
  get_own-Running :
      (field : Entry → Bytes) (n : Node) → Running entries n → Running entries (get_own field n).0
  unfolding get_own
  get_own-Running field n r = rw ((first_contact r).1, get_own) r

  greeting-Running : (n : Node) → Running entries n → Running entries (greeting n).0
  unfolding greeting get_nickname get_identity get_ip_address_and_port
  greeting-Running n r =
      let name = get_own-Running (λ e. e.nickname) n r in
      let me = get_own-Running (λ e. e.identity) (get_nickname n).0 name in
      get_own-Running (λ e. e.ip_address_and_port) (get_identity (get_nickname n).0).0 me

  answered-Runs :
      (threshold now : ℕ) (n : Node) (stub : Bytes) (response : GreetResponse)
      → Running entries n
      → length response.nickname < data_max_length
      → Runs entries (answered threshold now n stub response)
  unfolding answered
  answered-Runs threshold now n stub response r short = elim (Bool-cases response.status) [
    | inr silent ↦ (n, false, rw (silent, answered) refl, r)
    | inl agreed ↦
        let joined =
          add_neighbor-Runs threshold now n response.nickname response.identity
            response.ip_address_and_port (some stub) r short in
        (joined.0, joined.1, rw (agreed, answered) joined.2, joined.3)
  ]

  pub greet-Runs :
      (net : Network) (threshold now : ℕ)
      → IsPolite net
      → (n : Node) (place : ℕ) (stub : Bytes) → Running entries n
      → Runs entries (greet net threshold now n place stub)
  unfolding greet greeting answered
  greet-Runs net threshold now polite n place stub r =
      answered-Runs threshold now (greeting n).0 stub (net.greets place stub (greeting n).1)
        (greeting-Running n r) (polite place stub (greeting n).1)

  pub with_statics-Running :
      (n : Node) (nbs : List StaticNeighbor)
      → Running entries n
      → Running entries (record n { static_neighbors = nbs })
  with_statics-Running n nbs r = record {
    ready = r.ready;
    current = r.current;
    ascending = r.ascending;
    known = r.known;
    watched = r.watched;
    going = r.going;
  }

  -- A round over the static neighbors, which answer with nicknames that fit.
  pub static_round-Running :
      (net : Network) (threshold now : ℕ)
      → IsPolite net
      → (n : Node) → Running entries n
      → RunsOn entries (static_round net threshold now n)
  unfolding static_round
  static_round-Running net threshold now polite n r =
      let all =
        visit_statics-AllTried (Running entries) net threshold now
          (λ m place stub h. greet-Runs net threshold now polite m place stub h) n 0
          n.static_neighbors r in
      (
        record (all.0) { static_neighbors = all.1 },
        rw (all.2, static_round) refl,
        with_statics-Running all.0 all.1 all.3,
      )
