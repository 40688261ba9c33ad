-- ===== src/Engine/Running.antt =====
-- A node that runs: it is ready, a contact is current, the maps of neighbors hold contacts only, and none
-- of its parts has stopped (engine/src/TTEngine.cpp, `run`).
pub mod Callbacks
pub mod Neighbors
pub mod Keys
pub mod Reach
pub mod Tests
pub mod Receiving
pub mod Watching
pub mod Greetings
pub mod Laps
pub mod Resolving
pub mod Delivering
use terminal_teams.Prelude.{
  All, Bool, Bytes, List, Option, [], arith, false, get_elem?-some, length, some, ℕ, ◌<◌, ◌∷◌, ◌≡◌,
  ◌≤◌,
}
use terminal_teams.Contacts.Handler
use terminal_teams.Contacts.Window as Window
use terminal_teams.Chat.Handler as ChatHandler
use terminal_teams.Engine.Node.{Node, Neighbor}
use terminal_teams.Engine.Control.{any_stopped}
use terminal_teams.Engine.Chat.{add_pending}
use terminal_teams.Engine.Pending.{Ascending}
use terminal_teams.Engine.Ready.{Ready, Agree}

-- The key is the id of a contact.
abbrev pub IsBelow : {A : Type 0} → ℕ → ℕ × A → Type 0
IsBelow n (id, x) = id < n

abbrev pub Going : Node → Type 0
Going n =
    (n.chat_stopped ≡ false)
    × (n.discovery_stopped ≡ false)
    × (n.engine_stopped ≡ false)
    × (n.text_box_stopped ≡ false)
    × (n.server_stopped ≡ false)

pub record Running (entries : List Window.Entry) (n : Node) : Type 0 where
  pub ready : Ready entries n
  pub current : (id : ℕ) × (n.contacts.current_contact ≡ some id)
  pub ascending : Ascending n.neighbors
  pub known : All (IsBelow (length n.contacts.contacts)) n.neighbors
  pub watched : All (IsBelow (length n.contacts.contacts)) n.dynamic_neighbors
  pub going : Going n

pub Running-any_stopped :
    {entries : List Window.Entry} {n : Node} → Running entries n → any_stopped n ≡ false
unfolding any_stopped
Running-any_stopped {entries} {n} r = ground (
  arith, r.going.0, r.going.1, r.going.2, r.going.3, r.going.4, r.ready.live,
  r.ready.chat_live.live,
)

-- A live node has its first contact.
pub first_contact :
    {entries : List Window.Entry} {n : Node}
    → Running entries n
    → (e : Handler.Entry) × (Handler.get n.contacts 0 ≡ some e)
unfolding Handler.get
first_contact {entries} {n} r =
    get_elem?-some n.contacts.contacts 0
      (omega (arith, r.ready.inv.in_range r.current.0 r.current.1))

pub All-IsBelow :
    {A : Type 0} → (n m : ℕ) (xs : List (ℕ × A)) → n ≤ m → All (IsBelow n) xs → All (IsBelow m) xs
All-IsBelow n m [] le h = tt
All-IsBelow n m ((id, x) ∷ xs) le h = (omega (arith, h.0), All-IsBelow n m xs le h.1)

-- New handlers that agree, with the same current contact or another one and no fewer contacts.
pub moved-Running :
    {entries : List Window.Entry} {n : Node} (c : Handler.Handler) (chat : ChatHandler.Handler)
    (id : ℕ)
    → Running entries n
    → Agree entries c chat
    → c.current_contact ≡ some id
    → length n.contacts.contacts ≤ length c.contacts
    → Running entries (record n { contacts = c; chat = chat })
moved-Running {entries} {n} c chat id r agree current le = record {
  ready = agree;
  current = (id, current);
  ascending = r.ascending;
  known = All-IsBelow (length n.contacts.contacts) (length c.contacts) n.neighbors le r.known;
  watched =
      All-IsBelow (length n.contacts.contacts) (length c.contacts) n.dynamic_neighbors le r.watched;
  going = r.going;
}

pub add_pending-IsBelow :
    (size id : ℕ) (message : Bytes) (fresh : Neighbor) (nbs : List (ℕ × Neighbor))
    → id < size
    → All (IsBelow size) nbs
    → All (IsBelow size) (add_pending id message fresh nbs)
unfolding add_pending
add_pending-IsBelow size id message fresh [] h below = (h, tt)
add_pending-IsBelow size id message fresh ((key, nb) ∷ rest) h below =
    let later = add_pending-IsBelow size id message fresh rest h below.1 in ground (arith, later)

-- The call has a defined result, and the node runs after it.
abbrev pub Runs : List Window.Entry → Option (Node × Bool) → Type 0
Runs entries o = (n : Node) × (done : Bool) × (o ≡ some (n, done)) × Running entries n

abbrev pub RunsOn : List Window.Entry → Option Node → Type 0
RunsOn entries o = (n : Node) × (o ≡ some n) × Running entries n
