-- ===== src/Engine/Start.antt =====
-- The first contact, which the constructor makes (engine/src/TTEngine.cpp), and a message from a contact
-- that counts as inactive (TTBroadcasterChat.cpp, `handleReceive`).
use terminal_teams.Prelude.{
  Bool, Bytes, List, [], arith, false, length, none, not, refl, same, some, sym, true, ℕ, ◌<◌, ◌∙◌,
  ◌≡◌,
}
use terminal_teams.Contacts.State.{is_inactive}
use terminal_teams.Contacts.Handler
use terminal_teams.Contacts.Handler.{Entry}
use terminal_teams.Contacts.Message.{data_max_length}
use terminal_teams.Contacts.Invariant.{init-Inv}
use terminal_teams.Contacts.Creation.{create-Inv}
use terminal_teams.Contacts.Selection.{select-live}
use terminal_teams.Contacts.Success.{receive-inactive}
use terminal_teams.Chat.Handler as ChatHandler
use terminal_teams.Chat.Success.{Done, select-Live, create-Live}
use terminal_teams.Engine.Node.{Node, stop_chat}
use terminal_teams.Engine.Control.{start, static_neighbors}
use terminal_teams.Engine.Chat.{receive_from}
use terminal_teams.Engine.Ready.{Ready}

chat_started :
    (now : ℕ) → Done (some 0) 1 (ChatHandler.select (ChatHandler.create ChatHandler.init 0).0 0 now)
unfolding ChatHandler.init
chat_started now =
    let made =
      create-Live none 0 ChatHandler.init (record { live = refl; at = refl; many = refl }) in
    select-Live none 1 (ChatHandler.create ChatHandler.init 0).0 0 now made.1 (omega arith)

unfoldable pub started : ℕ → ℕ → Bytes → List Bytes → Handler.Handler → Node
started threshold now address neighbors contacts = record {
  contacts = contacts;
  chat = (ChatHandler.select (ChatHandler.create ChatHandler.init 0).0 0 now).0;
  own_address = address;
  chat_stopped = false;
  neighbors = [];
  neighbors_flag = false;
  discovery_stopped = false;
  static_neighbors = static_neighbors threshold now neighbors;
  dynamic_neighbors = [];
  engine_stopped = false;
  text_box_stopped = false;
  server_stopped = false;
}

start-eq :
    (threshold now : ℕ) (nickname identity address : Bytes) (neighbors : List Bytes)
    (h1 h2 : Handler.Handler) (b1 b2 : Bool)
    → Handler.create Handler.init nickname identity address ≡ some (h1, b1)
    → Handler.select h1 0 ≡ some (h2, b2)
    → start threshold now nickname identity address neighbors
      ≡ some (started threshold now address neighbors h2)
unfolding start started
start-eq threshold now nickname identity address neighbors h1 h2 b1 b2 made chosen =
    rw (made, chosen, start) refl

nothing_yet : (length Handler.init.contacts ≡ 0) × (Handler.init.stopped ≡ false)
unfolding Handler.init
nothing_yet = (refl, refl)

-- The node that starts, by its contacts.
pub start-started :
    (threshold now : ℕ) (nickname identity address : Bytes) (neighbors : List Bytes)
    → length nickname < data_max_length
    → (h : Handler.Handler) × (start threshold now nickname identity address neighbors
        ≡ some (started threshold now address neighbors h))
      × Ready [] (started threshold now address neighbors h)
      × (h.current_contact ≡ some 0)
      × (length h.contacts ≡ 1)
unfolding started
start-started threshold now nickname identity address neighbors short =
    let made = create-Inv [] Handler.init nickname identity address short init-Inv in
    let chosen =
      select-live [] made.0 0 made.2 (made.5 ∙ nothing_yet.1)
        (omega (arith, made.3, nothing_yet.0)) in
    let shown = chat_started now in
    let size : length chosen.0.contacts ≡ 1 = omega (arith, chosen.5, made.3, nothing_yet.0) in
    (
      chosen.0,
      start-eq threshold now nickname identity address neighbors made.0 chosen.0
          (not Handler.init.stopped) true made.1 chosen.1,
      record {
        inv = chosen.2;
        live = chosen.4;
        chat_live = record {
          live = shown.1.live;
          at = shown.1.at ∙ sym chosen.3;
          many = shown.1.many ∙ sym size;
        };
      },
      chosen.3,
      size,
    )

-- A node whose nickname fits its buffer starts, and then is ready, with itself as its only contact and
-- that one selected.
pub start-Ready :
    (threshold now : ℕ) (nickname identity address : Bytes) (neighbors : List Bytes)
    → length nickname < data_max_length
    → (n : Node) × (start threshold now nickname identity address neighbors ≡ some n)
      × Ready [] n
      × (n.contacts.current_contact ≡ some 0)
      × (length n.contacts.contacts ≡ 1)
unfolding started
start-Ready threshold now nickname identity address neighbors short =
    let begun = start-started threshold now nickname identity address neighbors short in
    (started threshold now address neighbors begun.0, begun.1, begun.2, begun.3, begun.4)

-- A message from a known contact that counts as inactive is refused, stored nowhere, and stops the chat
-- broadcaster.
pub receive_from-inactive :
    (n : Node) (identity : Bytes) (messages : List Bytes) (now id : ℕ) (e : Entry)
    → Handler.get_by_identity n.contacts identity ≡ some id
    → Handler.get n.contacts id ≡ some e
    → same e.ip_address_and_port n.own_address ≡ false
    → is_inactive e.state ≡ true
    → receive_from n identity messages now ≡ some (stop_chat n, false)
unfolding receive_from Handler.get
receive_from-inactive n identity messages now id e known found far away =
    rw (known, found, far, receive-inactive n.contacts id e found away, receive_from) refl
