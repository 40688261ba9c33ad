-- ===== src/Engine/Chat.antt =====
-- engine/src/TTBroadcasterChat.cpp: the messages between the handlers and the neighbors.
use terminal_teams.Prelude.{
  Bytes, List, Option, [], false, if◌then◌else◌, ltb, none, not, same, some, true, ℕ, ◌++◌, ◌==◌,
  ◌>>=◌, ◌∷◌,
}
use terminal_teams.Contacts.State.{is_inactive}
use terminal_teams.Contacts.Handler
use terminal_teams.Chat.Handler as ChatHandler
use terminal_teams.Engine.Message.{Network, TellRequest, NarrateRequest, create_stub}
use terminal_teams.Engine.Timer.{create_timer, expired, expire, kick}
use terminal_teams.Engine.Node.{Node, Neighbor, Outcome, stop_chat}

-- `stop(); return false;`
unfoldable pub fail : Node → Outcome
unfolding stop_chat
fail n = some (stop_chat n, false)

-- `lower_bound`, and the `push_back` or the `insert` at the place found.
unfoldable pub add_pending : ℕ → Bytes → Neighbor → List (ℕ × Neighbor) → List (ℕ × Neighbor)
add_pending id message fresh [] =
    (id, record fresh { pending_messages = fresh.pending_messages ++ message ∷ [] }) ∷ []
add_pending id message fresh ((key, nb) ∷ rest) =
    if ltb key id
    then (key, nb) ∷ add_pending id message fresh rest
    else if key == id
    then (key, record nb { pending_messages = nb.pending_messages ++ message ∷ [] }) ∷ rest
    else (id, record fresh { pending_messages = fresh.pending_messages ++ message ∷ [] })
      ∷ (key, nb)
      ∷ rest

-- From the address of the current contact on; `threshold` is what the timer factory draws.
unfoldable pub enqueue : Network → ℕ → ℕ → Node → ℕ → Bytes → Bytes → Outcome
unfolding add_pending create_stub create_timer expire
enqueue net threshold now n id address message =
    if same address n.own_address
    then some (n, true)
    else some (
      record n {
        neighbors =
            add_pending id message
              (record {
                stub = create_stub net address;
                timer = expire (create_timer threshold now);
                pending_messages = [];
              })
              n.neighbors;
        neighbors_flag = true;
      },
      true,
    )

-- From the chat handler's `send` on.
unfoldable pub send_to_chat : Network → ℕ → ℕ → Node → ℕ → Bytes → Outcome
unfolding enqueue fail
send_to_chat net threshold now n id message =
    let sent = ChatHandler.send n.chat id message now in
    let n' = record n { chat = sent.0 } in
    if not sent.1 then fail n' else elim (Handler.get n'.contacts id) [
      | none ↦ fail n'
      | some e ↦ enqueue net threshold now n' id e.ip_address_and_port message
    ]

unfoldable pub handle_send : Network → ℕ → ℕ → Node → Bytes → Outcome
unfolding send_to_chat fail
handle_send net threshold now n message = elim (Handler.current n.contacts) [
  | none ↦ fail n
  | some id ↦ elim (ChatHandler.current n.chat) [
    | none ↦ fail n
    | some chat_id ↦
        if not (chat_id == id)
        then fail n
        else (Handler.send n.contacts id >>= λ r.
            let n' = record n { contacts = r.0 } in
            if not r.1 then fail n' else send_to_chat net threshold now n' chat_id message)
  ]
]

-- The loop over the messages of a narrate request; a tell request has one.
unfoldable pub receive_all : Node → ℕ → List Bytes → ℕ → Outcome
unfolding fail
receive_all n id [] now = some (n, true)
receive_all n id (m ∷ ms) now =
    let got = ChatHandler.receive n.chat id m now in
    let n' = record n { chat = got.0 } in
    let rest = receive_all n' id ms now in if not got.1 then fail n' else rest

-- The common text of the two `handleReceive`.
unfoldable pub receive_from : Node → Bytes → List Bytes → ℕ → Outcome
unfolding receive_all fail
receive_from n identity messages now = elim (Handler.get_by_identity n.contacts identity) [
  | none ↦ some (n, false)
  | some id ↦ elim (Handler.get n.contacts id) [
    | none ↦ fail n
    | some e ↦
        if same e.ip_address_and_port n.own_address
        then some (n, true)
        else (Handler.receive n.contacts id >>= λ r.
            let n' = record n { contacts = r.0 } in
            if not r.1 then fail n' else receive_all n' id messages now)
  ]
]

unfoldable pub handle_receive_tell : Node → TellRequest → ℕ → Outcome
unfolding receive_from
handle_receive_tell n request now = receive_from n request.identity (request.message ∷ []) now

unfoldable pub handle_receive_narrate : Node → NarrateRequest → ℕ → Outcome
unfolding receive_from
handle_receive_narrate n request now = receive_from n request.identity request.messages now

unfoldable pub get_identity : Node → Node × Bytes
unfolding stop_chat
get_identity n = elim (Handler.get n.contacts 0) [
  | none ↦ (stop_chat n, [])
  | some e ↦ (n, e.identity)
]

-- The end of the loop's body, with a stub at hand: one message is told, several are narrated.
unfoldable pub deliver : Network → Node → ℕ → Bytes → Neighbor → Node × Neighbor
unfolding get_identity
deliver net n id stub nb = elim nb.pending_messages [
  | [] ↦ (n, nb)
  | m ∷ [] ↦
      let me = get_identity n in
      (
        me.0,
        if net.tells id stub (record { identity = me.1; message = m })
            then record nb { pending_messages = [] }
            else nb,
      )
  | m ∷ m' ∷ ms ↦
      let me = get_identity n in
      (
        me.0,
        if net.narrates id stub (record { identity = me.1; messages = m ∷ m' ∷ ms })
            then record nb { pending_messages = [] }
            else nb,
      )
]

-- `if (!neighbor.stub) …` in both loops.
unfoldable pub ensure_stub : Network → Option Bytes → Bytes → Option Bytes
unfolding create_stub
ensure_stub net (some stub) address = some stub
ensure_stub net none address = create_stub net address

-- The loop's body; `none` is the exception of `value()`, which nothing catches.
unfoldable pub visit : Network → ℕ → Node → ℕ → Neighbor → Option (Node × Neighbor)
unfolding deliver ensure_stub expired kick
visit net now n id nb =
    if not (expired nb.timer now)
    then some (n, nb)
    else (Handler.get n.contacts id >>= λ e.
        let kicked = record nb { timer = kick nb.timer now } in
        if is_inactive e.state
        then some (n, kicked)
        else (let stub = ensure_stub net kicked.stub e.ip_address_and_port in
            let ready = record kicked { stub = stub } in
            elim stub [ none ↦ some (n, ready) | some s ↦ some (deliver net n id s ready) ]))

-- The loop over the neighbors.
unfoldable pub visit_all :
    Network → ℕ → Node → List (ℕ × Neighbor) → Option (Node × List (ℕ × Neighbor))
unfolding visit
visit_all net now n [] = some (n, [])
visit_all net now n ((id, nb) ∷ rest) =
    if n.chat_stopped
    then some (n, (id, nb) ∷ rest)
    else (visit net now n id nb >>= λ r.
        visit_all net now r.0 rest >>= λ s. some (s.0, (id, r.1) ∷ s.1))

-- One round of `run`, after the wait.
unfoldable pub run_round : Network → ℕ → Node → Option Node
unfolding visit_all
run_round net now n = visit_all net now n n.neighbors >>= λ r.
    some (record (r.0) { neighbors = r.1; neighbors_flag = false })
