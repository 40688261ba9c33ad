-- ===== src/Engine/Running/Neighbors.antt =====
-- Neighbors that are found or heard of (engine/src/TTBroadcasterDiscovery.cpp, `addNeighbor` and
-- `handleHeartbeat`), in a node that runs.
use terminal_teams.Prelude.{
  All, Bool, Bool-cases, Bytes, List, Option, Option-cases, [], ap, arith, false, inl, inr,
  is_empty, length, none, not, refl, some, sym, true, ℕ, ◌<◌, ◌||◌, ◌∙◌, ◌∷◌, ◌≡◌,
}
use terminal_teams.Contacts.Handler
use terminal_teams.Contacts.Message.{data_max_length}
use terminal_teams.Contacts.Window as Window
use terminal_teams.Contacts.Creation.{create-Inv}
use terminal_teams.Contacts.Success.{activate-live}
use terminal_teams.Chat.Handler as ChatHandler
use terminal_teams.Chat.Success.{Live, create-Live}
use terminal_teams.Engine.Message.{HeartbeatRequest, GreetRequest}
use terminal_teams.Engine.Node.{Node, DynamicNeighbor, inactivity_trials}
use terminal_teams.Engine.Timer.{create_timer, expire}
use terminal_teams.Engine.Discovery.{
  add_neighbor, activate_known, emplace, handle_heartbeat, handle_greet,
}
use terminal_teams.Engine.Activating.{known-lt, activate_known-eq}
use terminal_teams.Engine.Joining.{join_chat-eq, add_new-eq}
use terminal_teams.Engine.Running.{Running, IsBelow, Runs, moved-Running}

emplace-IsBelow :
    (size id : ℕ) (nb : DynamicNeighbor) (nbs : List (ℕ × DynamicNeighbor))
    → id < size
    → All (IsBelow size) nbs
    → All (IsBelow size) (emplace id nb nbs)
unfolding emplace
emplace-IsBelow size id nb [] h below = (h, tt)
emplace-IsBelow size id nb ((key, old) ∷ rest) h below =
    let later = emplace-IsBelow size id nb rest h below.1 in ground (arith, later)

module _ {entries : List Window.Entry} where
  activate_known-Runs :
      (n : Node) (id : ℕ)
      → Running entries n
      → id < length n.contacts.contacts
      → Runs entries (activate_known n id)
  activate_known-Runs n id r lt =
      let done = activate-live entries n.contacts id r.ready.inv r.ready.live lt in
      let frame = done.2.1 in
      (
        record n { contacts = done.0 },
        true,
        activate_known-eq n id done.0 done.1,
        moved-Running done.0 n.chat r.current.0 r
            (record {
              inv = done.2.0;
              live = frame.same_stopped ∙ r.ready.live;
              chat_live = record {
                live = r.ready.chat_live.live;
                at = r.ready.chat_live.at ∙ sym frame.same_current;
                many = r.ready.chat_live.many ∙ sym frame.same_size;
              };
            })
            (frame.same_current ∙ r.current.1) (omega (arith, frame.same_size)),
      )

  add_new-Runs :
      (threshold now : ℕ) (n : Node) (nickname identity address : Bytes) (stub : Option Bytes)
      → Running entries n
      → length nickname < data_max_length
      → (is_empty nickname || is_empty identity || is_empty address) ≡ false
      → Handler.get_by_identity n.contacts identity ≡ none
      → Runs entries (add_neighbor threshold now n nickname identity address stub)
  add_new-Runs threshold now n nickname identity address stub r short filled missing =
      let made = create-Inv entries n.contacts nickname identity address short r.ready.inv in
      let created = made.1 ∙ ap (λ (b : Bool). some (made.0, not b)) r.ready.live in
      let id = length n.contacts.contacts in
      let chat_live : Live made.0.current_contact id n.chat = record {
        live = r.ready.chat_live.live;
        at = r.ready.chat_live.at ∙ sym made.4;
        many = r.ready.chat_live.many;
      } in
      let joined = create-Live made.0.current_contact id n.chat chat_live in
      let chat = (ChatHandler.create n.chat id).0 in
      let nb : DynamicNeighbor = record {
        timer = expire (create_timer threshold now);
        trials = inactivity_trials;
        stub = stub;
      } in
      let moved =
        moved-Running made.0 chat r.current.0 r
          (record {
            inv = made.2;
            live = made.5 ∙ r.ready.live;
            chat_live = record {
              live = joined.1.live;
              at = joined.1.at;
              many = joined.1.many ∙ sym made.3;
            };
          })
          (made.4 ∙ r.current.1) (omega (arith, made.3)) in
      (
        record n {
          contacts = made.0;
          chat = chat;
          dynamic_neighbors = emplace id nb n.dynamic_neighbors;
        },
        true,
        add_new-eq threshold now n nickname identity address stub made.0 id filled missing created
              made.6
            ∙ join_chat-eq threshold now (record n { contacts = made.0 }) id stub joined.0,
        record {
          ready = moved.ready;
          current = moved.current;
          ascending = moved.ascending;
          known = moved.known;
          watched =
              emplace-IsBelow (length made.0.contacts) id nb n.dynamic_neighbors
                (omega (arith, made.3)) moved.watched;
          going = r.going;
        },
      )

  pub add_neighbor-Runs :
      (threshold now : ℕ) (n : Node) (nickname identity address : Bytes) (stub : Option Bytes)
      → Running entries n
      → length nickname < data_max_length
      → Runs entries (add_neighbor threshold now n nickname identity address stub)
  unfolding add_neighbor
  add_neighbor-Runs threshold now n nickname identity address stub r short =
      elim (Bool-cases (is_empty nickname || is_empty identity || is_empty address)) [
        | inl unset ↦ (n, false, rw (unset, add_neighbor) refl, r)
        | inr filled ↦ elim (Option-cases (Handler.get_by_identity n.contacts identity)) [
          | inl missing ↦
              add_new-Runs threshold now n nickname identity address stub r short filled missing
          | inr found ↦
              let joined =
                activate_known-Runs n found.0 r
                  (known-lt entries n.contacts identity found.0 r.ready.inv found.1) in
              (joined.0, joined.1, rw (filled, found.1, add_neighbor) joined.2, joined.3)
        ]
      ]

  -- A greeting with a nickname that fits.
  pub handle_greet-Runs :
      (threshold now : ℕ) (n : Node) (request : GreetRequest)
      → Running entries n
      → length request.nickname < data_max_length
      → Runs entries (handle_greet threshold now n request)
  unfolding handle_greet
  handle_greet-Runs threshold now n request r short =
      add_neighbor-Runs threshold now n request.nickname request.identity
        request.ip_address_and_port none r short

  -- A heartbeat, from a neighbor that is known or not.
  pub handle_heartbeat-Runs :
      (n : Node) (request : HeartbeatRequest)
      → Running entries n
      → Runs entries (handle_heartbeat n request)
  unfolding handle_heartbeat
  handle_heartbeat-Runs n request r =
      elim (Option-cases (Handler.get_by_identity n.contacts request.identity)) [
        | inl missing ↦ (n, false, rw (missing, handle_heartbeat) refl, r)
        | inr found ↦
            let joined =
              activate_known-Runs n found.0 r
                (known-lt entries n.contacts request.identity found.0 r.ready.inv found.1) in
            (joined.0, joined.1, rw (found.1, handle_heartbeat) joined.2, joined.3)
      ]
