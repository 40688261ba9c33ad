-- ===== src/Engine/Sending.antt =====
-- Sending a message to the current contact (engine/src/TTBroadcasterChat.cpp, `handleSend`) in a node
-- that is ready.
use terminal_teams.Prelude.{
  Bool-cases, Bytes, List, [], ap, arith, get_elem?, get_elem?-some, if◌then◌else◌, inl, inr,
  length, refl, same, some, sym, true, ℕ, ◌++◌, ◌==◌, ◌∙◌, ◌∷◌, ◌≡◌,
}
use terminal_teams.Contacts.Handler
use terminal_teams.Contacts.Handler.{Entry}
use terminal_teams.Contacts.Window as Window
use terminal_teams.Contacts.Success.{send-live}
use terminal_teams.Chat.Handler as ChatHandler
use terminal_teams.Chat.Success.{Live, send-Live}
use terminal_teams.Engine.Message.{Network, create_stub}
use terminal_teams.Engine.Timer.{create_timer, expire}
use terminal_teams.Engine.Node.{Node, Neighbor}
use terminal_teams.Engine.Chat.{handle_send, send_to_chat, enqueue, add_pending}
use terminal_teams.Engine.Pending.{pending, Ascending, add_pending-pending}
use terminal_teams.Engine.Ready.{Agree, Ready, Ready-same}

pub ==-itself : (id : ℕ) → (id == id) ≡ true
==-itself id = ground arith

pub handle_send-eq :
    (net : Network) (threshold now : ℕ) (n : Node) (id : ℕ) (message : Bytes) (h' : Handler.Handler)
    → Handler.current n.contacts ≡ some id
    → ChatHandler.current n.chat ≡ some id
    → Handler.send n.contacts id ≡ some (h', true)
    → handle_send net threshold now n message
      ≡ send_to_chat net threshold now (record n { contacts = h' }) id message
unfolding handle_send
handle_send-eq net threshold now n id message h' cur chat_cur counted =
    rw (cur, chat_cur, ==-itself id, counted, handle_send) refl

pub send_to_chat-eq :
    (net : Network) (threshold now : ℕ) (n : Node) (id : ℕ) (message : Bytes) (e : Entry)
    → (ChatHandler.send n.chat id message now).1 ≡ true
    → Handler.get n.contacts id ≡ some e
    → send_to_chat net threshold now n id message
      ≡ enqueue net threshold now
          (record n { chat = (ChatHandler.send n.chat id message now).0 })
          id
          e.ip_address_and_port
          message
unfolding send_to_chat
send_to_chat-eq net threshold now n id message e done found = rw (done, found, send_to_chat) refl

-- What `enqueue` leaves of the node, and what waits for the contact after it.
abbrev pub Enqueued : Node → ℕ → Bytes → Bytes → Node → Type 0
Enqueued n id address message n' =
    (n'.contacts ≡ n.contacts)
    × (n'.chat ≡ n.chat)
    × (n'.chat_stopped ≡ n.chat_stopped)
    × Ascending n'.neighbors
    × (pending id n'.neighbors ≡ (
        if same address n.own_address
        then pending id n.neighbors
        else pending id n.neighbors ++ message ∷ []))

enqueue-Enqueued :
    (net : Network) (threshold now : ℕ) (n : Node) (id : ℕ) (address message : Bytes)
    → Ascending n.neighbors
    → (n' : Node) × (enqueue net threshold now n id address message ≡ some (n', true))
      × Enqueued n id address message n'
unfolding enqueue
enqueue-Enqueued net threshold now n id address message up =
    elim (Bool-cases (same address n.own_address)) [
      | inl own ↦ (n, rw (own, enqueue) refl, (refl, refl, refl, up, rw own refl))
      | inr far ↦
          let fresh : Neighbor = record {
            stub = create_stub net address;
            timer = expire (create_timer threshold now);
            pending_messages = [];
          } in
          let added = add_pending-pending id id message fresh n.neighbors refl up in
          (
            record n {
              neighbors = add_pending id message fresh n.neighbors;
              neighbors_flag = true;
            },
            rw (far, enqueue) refl,
            (refl, refl, refl, added.1, rw far (added.0 ∙ rw (==-itself id) refl)),
          )
    ]

-- What is left of `handleSend` in a ready node once both handlers have taken the message.
pub handle_send-enqueue :
    (entries : List Window.Entry) (net : Network) (threshold now : ℕ) (n : Node) (id : ℕ)
    (message : Bytes)
    → Ready entries n
    → n.contacts.current_contact ≡ some id
    → (h : Handler.Handler) × (e : Entry) × (handle_send net threshold now n message
        ≡ enqueue net threshold now
            (record n { contacts = h; chat = (ChatHandler.send n.chat id message now).0 })
            id
            e.ip_address_and_port
            message)
      × Agree entries h (ChatHandler.send n.chat id message now).0
      × (h.current_contact ≡ some id)
      × (length h.contacts ≡ length n.contacts.contacts)
      × (Handler.get h id ≡ some e)
unfolding Handler.get Handler.current ChatHandler.current
handle_send-enqueue entries net threshold now n id message r cur =
    let range = r.inv.in_range id cur in
    let counted = send-live entries n.contacts id r.inv r.live cur in
    let frame = counted.2.1 in
    let at = get_elem?-some counted.0.contacts id (omega (arith, frame.same_size, range)) in
    let chat_live : Live (some id) (length n.contacts.contacts) n.chat = record {
      live = r.chat_live.live;
      at = r.chat_live.at ∙ cur;
      many = r.chat_live.many;
    } in
    let shown = send-Live (length n.contacts.contacts) n.chat id message now chat_live range in
    (
      counted.0,
      at.0,
      handle_send-eq net threshold now n id message counted.0 cur (r.chat_live.at ∙ cur) counted.1
          ∙ send_to_chat-eq net threshold now (record n { contacts = counted.0 }) id message at.0
              shown.0 at.1,
      record {
        inv = counted.2.0;
        live = frame.same_stopped ∙ r.live;
        chat_live = record {
          live = shown.1.live;
          at = shown.1.at ∙ sym (frame.same_current ∙ cur);
          many = shown.1.many ∙ sym frame.same_size;
        };
      },
      frame.same_current ∙ cur,
      frame.same_size,
      at.1,
    )

-- In a ready node with a current contact, `handleSend` succeeds and keeps the node ready, with the same
-- current contact; the chat broadcaster is not stopped by it. Behind what waits for that contact now
-- waits the message, unless the contact has this node's own address.
pub handle_send-Ready :
    (entries : List Window.Entry) (net : Network) (threshold now : ℕ) (n : Node) (id : ℕ)
    (message : Bytes)
    → Ready entries n
    → n.contacts.current_contact ≡ some id
    → Ascending n.neighbors
    → (n' : Node) × (e : Entry) × (handle_send net threshold now n message ≡ some (n', true))
      × Ready entries n'
      × (n'.contacts.current_contact ≡ some id)
      × (n'.chat_stopped ≡ n.chat_stopped)
      × Ascending n'.neighbors
      × (Handler.get n'.contacts id ≡ some e)
      × (pending id n'.neighbors ≡ (
          if same e.ip_address_and_port n.own_address
          then pending id n.neighbors
          else pending id n.neighbors ++ message ∷ []))
unfolding Handler.get Handler.current ChatHandler.current
handle_send-Ready entries net threshold now n id message r cur up =
    let sent = handle_send-enqueue entries net threshold now n id message r cur in
    let n2 : Node = record n {
      contacts = sent.0;
      chat = (ChatHandler.send n.chat id message now).0;
    } in
    let queued = enqueue-Enqueued net threshold now n2 id (sent.1).ip_address_and_port message up in
    let kept = queued.2 in
    (
      queued.0,
      sent.1,
      sent.2 ∙ queued.1,
      Ready-same entries n2 queued.0 kept.0 kept.1 sent.3,
      ap (λ (h : Handler.Handler). h.current_contact) kept.0 ∙ sent.4,
      kept.2,
      kept.3,
      ap (λ (h : Handler.Handler). get_elem? h.contacts id) kept.0 ∙ sent.6,
      kept.4,
    )
