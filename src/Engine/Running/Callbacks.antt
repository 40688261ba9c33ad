-- ===== src/Engine/Running/Callbacks.antt =====
-- The callbacks of the text box (engine/src/TTEngine.cpp) in a node that runs.
use terminal_teams.Prelude.{
  Bool-cases, Bytes, List, [], arith, inl, inr, length, ltb, refl, same, some, sym, true, ℕ, ◌<◌,
  ◌∙◌, ◌≡◌,
}
use terminal_teams.Contacts.Handler
use terminal_teams.Contacts.Window as Window
use terminal_teams.Contacts.Selection.{select-live}
use terminal_teams.Chat.Handler as ChatHandler
use terminal_teams.Chat.Success.{select-Live}
use terminal_teams.Engine.Message.{Network, create_stub}
use terminal_teams.Engine.Timer.{create_timer, expire}
use terminal_teams.Engine.Node.{Node, Neighbor}
use terminal_teams.Engine.Chat.{enqueue, handle_send, add_pending}
use terminal_teams.Engine.Pending.{add_pending-Ascending}
use terminal_teams.Engine.Control.{mailbox, selection}
use terminal_teams.Engine.Ready.{selection-eq, size-lt}
use terminal_teams.Engine.Sending.{handle_send-enqueue}
use terminal_teams.Engine.Running.{Running, RunsOn, moved-Running, add_pending-IsBelow}

pub mailbox-eq :
    (net : Network) (threshold now : ℕ) (n n' : Node) (message : Bytes)
    → handle_send net threshold now n message ≡ some (n', true)
    → mailbox net threshold now n message ≡ some n'
unfolding mailbox
mailbox-eq net threshold now n n' message e = rw (e, mailbox) refl

module _ {entries : List Window.Entry} where
  enqueue-Running :
      (net : Network) (threshold now : ℕ) (n : Node) (id : ℕ) (address message : Bytes)
      → id < length n.contacts.contacts
      → Running entries n
      → (n' : Node) × (enqueue net threshold now n id address message ≡ some (n', true))
        × Running entries n'
  unfolding enqueue
  enqueue-Running net threshold now n id address message lt r =
      elim (Bool-cases (same address n.own_address)) [
        | inl own ↦ (n, rw (own, enqueue) refl, r)
        | inr far ↦
            let fresh : Neighbor = record {
              stub = create_stub net address;
              timer = expire (create_timer threshold now);
              pending_messages = [];
            } in
            (
              record n {
                neighbors = add_pending id message fresh n.neighbors;
                neighbors_flag = true;
              },
              rw (far, enqueue) refl,
              record {
                ready = r.ready;
                current = r.current;
                ascending = add_pending-Ascending id message fresh n.neighbors r.ascending;
                known =
                    add_pending-IsBelow (length n.contacts.contacts) id message fresh n.neighbors lt
                      r.known;
                watched = r.watched;
                going = r.going;
              },
            )
      ]

  -- A message from the text box.
  pub mailbox-Running :
      (net : Network) (threshold now : ℕ) (n : Node) (message : Bytes)
      → Running entries n
      → RunsOn entries (mailbox net threshold now n message)
  mailbox-Running net threshold now n message r =
      let id = r.current.0 in
      let sent = handle_send-enqueue entries net threshold now n id message r.ready r.current.1 in
      let chat = (ChatHandler.send n.chat id message now).0 in
      let n2 : Node = record n { contacts = sent.0; chat = chat } in
      let r2 = moved-Running sent.0 chat id r sent.3 sent.4 (omega (arith, sent.5)) in
      let queued =
        enqueue-Running net threshold now n2 id (sent.1).ip_address_and_port message
          (omega (arith, r.ready.inv.in_range id r.current.1, sent.5)) r2 in
      (queued.0, mailbox-eq net threshold now n queued.0 message (sent.2 ∙ queued.1), queued.2)

  chosen-Running :
      (now : ℕ) (n : Node) (id : ℕ)
      → id < Handler.size n.contacts
      → Running entries n
      → RunsOn entries (selection now n id)
  chosen-Running now n id lt r =
      let there = size-lt n.contacts id lt in
      let chosen = select-live entries n.contacts id r.ready.inv r.ready.live there.1 in
      let shown =
        select-Live n.contacts.current_contact (length n.contacts.contacts) n.chat id now
          r.ready.chat_live there.1 in
      (
        record n { contacts = chosen.0; chat = (ChatHandler.select n.chat id now).0 },
        selection-eq now n id chosen.0 there.0 chosen.1 shown.0,
        moved-Running chosen.0 (ChatHandler.select n.chat id now).0 id r
            (record {
              inv = chosen.2;
              live = chosen.4;
              chat_live = record {
                live = shown.1.live;
                at = shown.1.at ∙ sym chosen.3;
                many = shown.1.many ∙ sym chosen.5;
              };
            })
            chosen.3 (omega (arith, chosen.5)),
      )

  -- A selection, of a contact that there is or not.
  pub selection-Running :
      (now : ℕ) (n : Node) (id : ℕ) → Running entries n → RunsOn entries (selection now n id)
  unfolding selection
  selection-Running now n id r = elim (Bool-cases (ltb id (Handler.size n.contacts))) [
    | inl there ↦ chosen-Running now n id (ground (arith, there)) r
    | inr missing ↦ (n, rw (missing, selection) refl, r)
  ]
