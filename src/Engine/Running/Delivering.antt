-- ===== src/Engine/Running/Delivering.antt =====
-- A round of the chat broadcaster (engine/src/TTBroadcasterChat.cpp, `run`) in a node that runs.
use terminal_teams.Prelude.{
  All, Bool-cases, Bytes, List, Option, [], ap, false, get_elem?-some, inl, inr, length, none, refl,
  some, ℕ, ◌∷◌, ◌≡◌,
}
use terminal_teams.Contacts.State.{is_inactive}
use terminal_teams.Contacts.Handler
use terminal_teams.Contacts.Handler.{Entry}
use terminal_teams.Contacts.Window as Window
use terminal_teams.Engine.Message.{Network}
use terminal_teams.Engine.Timer.{Timer, expired, kick}
use terminal_teams.Engine.Node.{Node, Neighbor}
use terminal_teams.Engine.Chat.{get_identity, deliver, ensure_stub, visit, visit_all, run_round}
use terminal_teams.Engine.Round.{visit_all-step}
use terminal_teams.Engine.Running.{Running, IsBelow, RunsOn, first_contact}
use terminal_teams.Engine.Running.Keys.{SameKeys, SameKeys-IsBelow, SameKeys-Ascending}

pub get_identity-same :
    (n : Node) (own : Entry) → Handler.get n.contacts 0 ≡ some own → (get_identity n).0 ≡ n
unfolding get_identity
get_identity-same n own first = rw (first, get_identity) refl

module _ (net : Network) (now : ℕ) (n : Node) (own : Entry)
    (first : Handler.get n.contacts 0 ≡ some own) where
  deliver-same :
      (id : ℕ) (stub : Bytes) (link : Option Bytes) (timer : Timer) (ms : List Bytes)
      → (deliver net n id stub (record { stub = link; timer = timer; pending_messages = ms })).0 ≡ n
  unfolding deliver
  deliver-same id stub link timer [] = refl
  deliver-same id stub link timer (m ∷ []) = get_identity-same n own first
  deliver-same id stub link timer (m ∷ m' ∷ ms) = get_identity-same n own first

  -- The visit leaves the node alone.
  unfoldable pub Stays : Option (Node × Neighbor) → Type 0
  Stays o = (nb : Neighbor) × (o ≡ some (n, nb))

  linked-Stays :
      (id : ℕ) (nb : Neighbor) (timer : Timer) (link : Option Bytes)
      → let ready : Neighbor = record nb { timer = timer; stub = link } in
        Stays (elim link [ none ↦ some (n, ready) | some s ↦ some (deliver net n id s ready) ])
  unfolding Stays
  linked-Stays id nb timer none = (record nb { timer = timer; stub = none }, refl)
  linked-Stays id nb timer (some s) =
      let done = deliver net n id s (record nb { timer = timer; stub = some s }) in
      (
        done.1,
        ap (λ (m : Node). some (m, done.1)) (deliver-same id s (some s) timer nb.pending_messages),
      )

  pub visit-Stays :
      (id : ℕ) (nb : Neighbor) (e : Entry)
      → Handler.get n.contacts id ≡ some e
      → Stays (visit net now n id nb)
  unfolding Stays visit
  visit-Stays id nb e found = elim (Bool-cases (expired nb.timer now)) [
    | inr late ↦ (nb, rw (late, visit) refl)
    | inl due ↦ elim (Bool-cases (is_inactive e.state)) [
      | inl away ↦ (record nb { timer = kick nb.timer now }, rw (due, found, away, visit) refl)
      | inr here ↦
          let met =
            linked-Stays id nb (kick nb.timer now)
              (ensure_stub net nb.stub e.ip_address_and_port) in
          (met.0, rw (due, found, here, visit) met.1)
    ]
  ]

  pub visit_all-Stays :
      (nbs : List (ℕ × Neighbor))
      → n.chat_stopped ≡ false
      → All (IsBelow (length n.contacts.contacts)) nbs
      → (nbs' : List (ℕ × Neighbor)) × (visit_all net now n nbs ≡ some (n, nbs'))
        × SameKeys nbs nbs'
  unfolding visit_all Stays Handler.get
  visit_all-Stays [] live below = ([], refl, tt)
  visit_all-Stays ((id, nb) ∷ rest) live below =
      let at = get_elem?-some n.contacts.contacts id below.0 in
      let met = visit-Stays id nb at.0 at.1 in
      let later = visit_all-Stays rest live below.1 in
      (
        (id, met.0) ∷ later.0,
        visit_all-step net now n n n id nb met.0 rest later.0 live met.1 later.1,
        (refl, later.2),
      )

pub run_round-eq :
    (net : Network) (now : ℕ) (n : Node) (nbs : List (ℕ × Neighbor))
    → visit_all net now n n.neighbors ≡ some (n, nbs)
    → run_round net now n ≡ some (record n { neighbors = nbs; neighbors_flag = false })
unfolding run_round
run_round-eq net now n nbs e = rw (e, run_round) refl

-- A round of the chat broadcaster.
pub run_round-Running :
    {entries : List Window.Entry} (net : Network) (now : ℕ) (n : Node)
    → Running entries n
    → RunsOn entries (run_round net now n)
run_round-Running {entries} net now n r =
    let own = first_contact r in
    let all = visit_all-Stays net now n own.0 own.1 n.neighbors r.going.0 r.known in
    (
      record n { neighbors = all.0; neighbors_flag = false },
      run_round-eq net now n all.0 all.1,
      record {
        ready = r.ready;
        current = r.current;
        ascending = SameKeys-Ascending n.neighbors all.0 all.2 r.ascending;
        known = SameKeys-IsBelow (length n.contacts.contacts) n.neighbors all.0 all.2 r.known;
        watched = r.watched;
        going = r.going;
      },
    )
