-- ===== src/Engine/Joining.antt =====
-- Neighbors that are found (engine/src/TTBroadcasterDiscovery.cpp, `addNeighbor`), in a node that is ready.
use terminal_teams.Prelude.{
  Bool, Bool-cases, Bytes, List, Option, Option-cases, [], ap, arith, false, inl, inr, is_empty,
  length, none, not, refl, some, suc, sym, true, ℕ, ◌<◌, ◌||◌, ◌∙◌, ◌∷◌, ◌≡◌, ◌≤◌,
}
use terminal_teams.Contacts.Handler
use terminal_teams.Contacts.Message.{data_max_length}
use terminal_teams.Contacts.Window as Window
use terminal_teams.Contacts.Invariant.{Inv}
use terminal_teams.Contacts.Creation.{create-Inv, create-long}
use terminal_teams.Chat.Handler as ChatHandler
use terminal_teams.Chat.Success.{Live, create-Live}
use terminal_teams.Engine.Message.{GreetRequest}
use terminal_teams.Engine.Node.{Node, inactivity_trials}
use terminal_teams.Engine.Timer.{create_timer, expire}
use terminal_teams.Engine.Discovery.{add_neighbor, join_chat, emplace, handle_greet}
use terminal_teams.Engine.Ready.{Ready}
use terminal_teams.Engine.Activating.{known-lt, Joined, activate_known-Joined}

pub join_chat-eq :
    (threshold now : ℕ) (n : Node) (id : ℕ) (stub : Option Bytes)
    → (ChatHandler.create n.chat id).1 ≡ true
    → join_chat threshold now n id stub
      ≡ some (
        record n {
          chat = (ChatHandler.create n.chat id).0;
          dynamic_neighbors =
              emplace id
                (record {
                  timer = expire (create_timer threshold now);
                  trials = inactivity_trials;
                  stub = stub;
                })
                n.dynamic_neighbors;
        },
        true,
      )
unfolding join_chat
join_chat-eq threshold now n id stub done = rw (done, join_chat) refl

join_chat-Joined :
    (entries : List Window.Entry) (threshold now : ℕ) (n : Node) (id : ℕ) (stub : Option Bytes)
    → Inv entries n.contacts
    → n.contacts.stopped ≡ false
    → Live n.contacts.current_contact id n.chat
    → length n.contacts.contacts ≡ suc id
    → Joined entries n (join_chat threshold now n id stub)
join_chat-Joined entries threshold now n id stub v live l size =
    let made = create-Live n.contacts.current_contact id n.chat l in
    (
      record n {
        chat = (ChatHandler.create n.chat id).0;
        dynamic_neighbors =
            emplace id
              (record {
                timer = expire (create_timer threshold now);
                trials = inactivity_trials;
                stub = stub;
              })
              n.dynamic_neighbors;
      },
      true,
      join_chat-eq threshold now n id stub made.0,
      record {
        inv = v;
        live = live;
        chat_live = record { live = made.1.live; at = made.1.at; many = made.1.many ∙ sym size };
      },
      refl,
      refl,
      refl,
    )

pub add_new-eq :
    (threshold now : ℕ) (n : Node) (nickname identity address : Bytes) (stub : Option Bytes)
    (h' : Handler.Handler) (id : ℕ)
    → (is_empty nickname || is_empty identity || is_empty address) ≡ false
    → Handler.get_by_identity n.contacts identity ≡ none
    → Handler.create n.contacts nickname identity address ≡ some (h', true)
    → Handler.get_by_identity h' identity ≡ some id
    → add_neighbor threshold now n nickname identity address stub
      ≡ join_chat threshold now (record n { contacts = h' }) id stub
unfolding add_neighbor
add_new-eq threshold now n nickname identity address stub h' id filled missing made found =
    rw (filled, missing, made, found, add_neighbor) refl

add_new-Joined :
    (entries : List Window.Entry) (threshold now : ℕ) (n : Node) (nickname identity address : Bytes)
    (stub : Option Bytes)
    → Ready entries n
    → length nickname < data_max_length
    → (is_empty nickname || is_empty identity || is_empty address) ≡ false
    → Handler.get_by_identity n.contacts identity ≡ none
    → Joined entries n (add_neighbor threshold now n nickname identity address stub)
add_new-Joined entries threshold now n nickname identity address stub r short filled missing =
    let made = create-Inv entries n.contacts nickname identity address short r.inv in
    let created = made.1 ∙ ap (λ (b : Bool). some (made.0, not b)) r.live in
    let id = length n.contacts.contacts in
    let chat_live : Live made.0.current_contact id n.chat = record {
      live = r.chat_live.live;
      at = r.chat_live.at ∙ sym made.4;
      many = r.chat_live.many;
    } in
    let joined =
      join_chat-Joined entries threshold now (record n { contacts = made.0 }) id stub made.2
        (made.5 ∙ r.live) chat_live made.3 in
    (
      joined.0,
      joined.1,
      add_new-eq threshold now n nickname identity address stub made.0 id filled missing created
            made.6
          ∙ joined.2,
      joined.3,
      joined.4 ∙ made.4,
      joined.5,
      joined.6,
    )

-- A neighbor whose nickname fits its buffer is added, or activated where it is known, or ignored where
-- a text of it is empty: a ready node stays ready, and nothing is stopped.
pub add_neighbor-Ready :
    (entries : List Window.Entry) (threshold now : ℕ) (n : Node) (nickname identity address : Bytes)
    (stub : Option Bytes)
    → Ready entries n
    → length nickname < data_max_length
    → (n' : Node) × (done : Bool) × (add_neighbor threshold now n nickname identity address stub
        ≡ some (n', done))
      × Ready entries n'
      × (n'.contacts.current_contact ≡ n.contacts.current_contact)
      × (n'.discovery_stopped ≡ n.discovery_stopped)
      × (n'.chat_stopped ≡ n.chat_stopped)
unfolding add_neighbor
add_neighbor-Ready entries threshold now n nickname identity address stub r short =
    elim (Bool-cases (is_empty nickname || is_empty identity || is_empty address)) [
      | inl unset ↦ (n, false, rw (unset, add_neighbor) refl, r, refl, refl, refl)
      | inr filled ↦ elim (Option-cases (Handler.get_by_identity n.contacts identity)) [
        | inl missing ↦
            add_new-Joined entries threshold now n nickname identity address stub r short filled
              missing
        | inr found ↦
            let joined =
              activate_known-Joined entries n found.0 r
                (known-lt entries n.contacts identity found.0 r.inv found.1) in
            (
              joined.0,
              joined.1,
              rw (filled, found.1, add_neighbor) joined.2,
              joined.3,
              joined.4,
              joined.5,
              joined.6,
            )
      ]
    ]

-- A greeting with a nickname of 256 bytes or more, from a neighbor that is not known and gives its
-- identity and address, has no defined result.
pub handle_greet-long :
    (threshold now : ℕ) (n : Node) (request : GreetRequest)
    → data_max_length ≤ length request.nickname
    → is_empty request.identity ≡ false
    → is_empty request.ip_address_and_port ≡ false
    → Handler.get_by_identity n.contacts request.identity ≡ none
    → handle_greet threshold now n request ≡ none
unfolding handle_greet add_neighbor
handle_greet-long threshold now n request long named placed missing =
    rw
      (
        long-filled request.nickname long,
        named,
        placed,
        missing,
        create-long n.contacts request.nickname request.identity request.ip_address_and_port long,
        add_neighbor,
      )
      refl
  where
    long-filled : (name : Bytes) → data_max_length ≤ length name → is_empty name ≡ false
    long-filled [] h = absurd (omega arith)
    long-filled (c ∷ cs) h = refl
