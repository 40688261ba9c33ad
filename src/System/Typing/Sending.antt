-- ===== src/System/Typing/Sending.antt =====
-- The callbacks of the messages of a line (engine/src/TTEngine.cpp, `mailbox`) in an engine that runs.
use mathlib.Core.Path.{subst}
use terminal_teams.Prelude.{
  Bool, Bytes, List, [], ap, append-nil, append_assoc, false, get_elem?, get_elem?-lt,
  get_elem?-set_ne, get_elem?-set_self, refl, same, some, sym, true, ℕ, ◌++◌, ◌∙◌, ◌∷◌, ◌≡◌,
}
use terminal_teams.Contacts.Handler
use terminal_teams.Contacts.Window as Window
use terminal_teams.Contacts.Success.{send-address}
use terminal_teams.Chat.Message.{Entry}
use terminal_teams.Chat.Handler as ChatHandler
use terminal_teams.Chat.Success.{send-eq, at-current}
use terminal_teams.Chat.Operations.{said, said-eq, range-of}
use terminal_teams.TextBox.Handler.{Callback, message_sent}
use terminal_teams.TextBox.Lines.{sent_texts}
use terminal_teams.TextBox.Message as TextBoxMessage
use terminal_teams.Engine.Message.{Network, create_stub}
use terminal_teams.Engine.Timer.{create_timer, expire}
use terminal_teams.Engine.Node.{Node, Neighbor}
use terminal_teams.Engine.Chat.{handle_send, enqueue, add_pending}
use terminal_teams.Engine.Control.{mailbox}
use terminal_teams.Engine.Pending.{pending, add_pending-pending}
use terminal_teams.Engine.Sending.{==-itself, handle_send-eq, send_to_chat-eq}
use terminal_teams.Engine.Running.{Running}
use terminal_teams.Engine.Running.Reach.{ends}
use terminal_teams.Engine.Running.Callbacks.{mailbox-eq, mailbox-Running}
use terminal_teams.System.Typing.{
  respond, sent_entry, sent_entries, pieces, Line, Speaks, SameOthers, fresh_neighbor, add_all,
}

-- The node after a message to its current contact.
abbrev pub spoken :
    Network → ℕ → ℕ → Node → ℕ → Bytes → Bytes → Handler.Handler → ChatHandler.Handler → Node
spoken net threshold now n id address m contacts chat = record n {
  contacts = contacts;
  chat = chat;
  neighbors =
      add_pending id m
        (record {
          stub = create_stub net address;
          timer = expire (create_timer threshold now);
          pending_messages = [];
        })
        n.neighbors;
  neighbors_flag = true;
}

enqueue-far :
    (net : Network) (threshold now : ℕ) (n : Node) (id : ℕ) (address m : Bytes)
    → same address n.own_address ≡ false
    → enqueue net threshold now n id address m
      ≡ some (spoken net threshold now n id address m n.contacts n.chat, true)
unfolding enqueue
enqueue-far net threshold now n id address m far = rw (far, enqueue) refl

send-said :
    (h : ChatHandler.Handler) (id now : ℕ) (m : Bytes) (storage : List Entry)
    → h.stopped ≡ false
    → h.current_id ≡ some id
    → get_elem? h.messages id ≡ some storage
    → ChatHandler.send h id m now ≡ (said h id storage (sent_entry now m), true)
send-said h id now m storage live cur found =
    send-eq h id m now live (at-current h id cur)
      (range-of h id (get_elem?-lt h.messages id storage found))
    ∙ said-eq h id (sent_entry now m) storage live found

-- A message to the current contact is stored and waits for that contact, and the engine runs on.
pub mailbox-Speaks :
    {entries : List Window.Entry} (net : Network) (threshold now : ℕ) (n : Node) (id : ℕ)
    (m : Bytes) (line : Line) (storage : List Entry)
    → Running entries n
    → Speaks id line storage n
    → (n' : Node) × (mailbox net threshold now n m ≡ some n')
      × Running entries n'
      × Speaks id line (storage ++ sent_entry now m ∷ []) n'
      × SameOthers id n n'
      × (pending id n'.neighbors ≡ pending id n.neighbors ++ m ∷ [])
      × (n'.neighbors
          ≡ add_pending id m (fresh_neighbor net threshold now line.address) n.neighbors)
unfolding said Handler.current ChatHandler.current Handler.get
mailbox-Speaks {entries} net threshold now n id m line storage r s =
    let counted =
      send-address entries n.contacts id s.entry r.ready.inv r.ready.live s.current s.found in
    let at = r.ready.chat_live.at ∙ s.current in
    let told = send-said n.chat id now m storage r.ready.chat_live.live at s.stored in
    let chat = said n.chat id storage (sent_entry now m) in
    let far : same (counted.1).ip_address_and_port n.own_address ≡ false =
      ap (λ (a : Bytes). same a n.own_address) counted.4 ∙ s.far in
    let n' = spoken net threshold now n id (counted.1).ip_address_and_port m counted.0 chat in
    let sent : handle_send net threshold now n m ≡ some (n', true) =
      handle_send-eq net threshold now n id m counted.0 s.current at counted.2
      ∙ send_to_chat-eq net threshold now (record n { contacts = counted.0 }) id m counted.1
          (ap (λ (o : ChatHandler.Handler × Bool). o.1) told) counted.3
      ∙ ap
          (λ (o : ChatHandler.Handler × Bool).
            enqueue net threshold now (record n { contacts = counted.0; chat = o.0 }) id
              (counted.1).ip_address_and_port m)
          told
      ∙ enqueue-far net threshold now (record n { contacts = counted.0; chat = chat }) id
          (counted.1).ip_address_and_port m far in
    let e = mailbox-eq net threshold now n n' m sent in
    let longer = storage ++ sent_entry now m ∷ [] in
    let fresh : Neighbor = record {
      stub = create_stub net (counted.1).ip_address_and_port;
      timer = expire (create_timer threshold now);
      pending_messages = [];
    } in
    (
      n',
      e,
      ends (mailbox net threshold now n m) n' (mailbox-Running net threshold now n m r) e,
      record {
        current = counted.5;
        entry = counted.1;
        found = counted.3;
        far = far;
        at = counted.4 ∙ s.at;
        state = counted.6 ∙ s.state;
        named = counted.7 ∙ s.named;
        stored =
            get_elem?-set_self n.chat.messages id longer
              (get_elem?-lt n.chat.messages id storage s.stored);
      },
      λ other differs. get_elem?-set_ne n.chat.messages id other longer differs,
      (add_pending-pending id id m fresh n.neighbors refl r.ascending).0 ∙ rw (==-itself id) refl,
      ap (λ (a : Bytes). add_pending id m (fresh_neighbor net threshold now a) n.neighbors)
          (counted.4 ∙ s.at),
    )

pub respond-step :
    (net : Network) (threshold now : ℕ) (n n' : Node) (m : Bytes) (later : List Callback)
    → mailbox net threshold now n m ≡ some n'
    → respond net threshold now n (message_sent m ∷ later) ≡ respond net threshold now n' later
unfolding respond
respond-step net threshold now n n' m later e = rw (e, respond) refl

-- The messages of a line, one after the other.
pub respond-Speaks :
    {entries : List Window.Entry} (net : Network) (threshold now : ℕ) (n : Node) (id : ℕ)
    (ms : List TextBoxMessage.Message) (line : Line) (storage : List Entry)
    → Running entries n
    → Speaks id line storage n
    → (n' : Node) × (respond net threshold now n (sent_texts ms) ≡ some n')
      × Running entries n'
      × Speaks id line (storage ++ sent_entries now ms) n'
      × SameOthers id n n'
      × (pending id n'.neighbors ≡ pending id n.neighbors ++ pieces ms)
      × (n'.neighbors
          ≡ add_all id (fresh_neighbor net threshold now line.address) (pieces ms) n.neighbors)
unfolding respond
respond-Speaks net threshold now n id [] line storage r s = (
  n,
  refl,
  r,
  subst (λ es. Speaks id line es n) (sym (append-nil storage)) s,
  λ other differs. refl,
  sym (append-nil (pending id n.neighbors)),
  refl,
)
respond-Speaks net threshold now n id (m ∷ ms) line storage r s =
    let one = mailbox-Speaks net threshold now n id m.text line storage r s in
    let rest =
      respond-Speaks net threshold now one.0 id ms line (storage ++ sent_entry now m.text ∷ [])
        one.2 one.3 in
    (
      rest.0,
      respond-step net threshold now n one.0 m.text (sent_texts ms) one.1 ∙ rest.1,
      rest.2,
      subst (λ es. Speaks id line es rest.0)
          (append_assoc storage (sent_entry now m.text ∷ []) (sent_entries now ms)) rest.3,
      λ other differs. rest.4 other differs ∙ one.4 other differs,
      rest.5
          ∙ ap (λ xs. xs ++ pieces ms) one.5
          ∙ append_assoc (pending id n.neighbors) (m.text ∷ []) (pieces ms),
      rest.6 ∙ ap (add_all id (fresh_neighbor net threshold now line.address) (pieces ms)) one.6,
    )
