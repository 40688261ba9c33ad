-- ===== src/System/Peers/Round.antt =====
-- A round of the chat broadcaster of one engine (engine/src/TTBroadcasterChat.cpp, `run`) whose calls another
-- engine serves.
use mathlib.Core.Option.{some-injective}
use terminal_teams.Prelude.{
  All, Bool, Bool-cases, Bytes, List, Option, [], ap, eq-of-==, false, get_elem?, get_elem?-some,
  if◌then◌else◌, inl, inr, length, none, refl, some, sym, true, ℕ, ◌&&◌, ◌==◌, ◌∙◌, ◌∷◌, ◌≡◌,
}
use terminal_teams.Contacts.State.{is_inactive}
use terminal_teams.Contacts.Handler
use terminal_teams.Contacts.Window as Window
use terminal_teams.Chat.Message.{Entry}
use terminal_teams.Engine.Message.{Network}
use terminal_teams.Engine.Timer.{expired, kick}
use terminal_teams.Engine.Node.{Node, Neighbor}
use terminal_teams.Engine.Chat.{get_identity, deliver, ensure_stub, visit, visit_all, run_round}
use terminal_teams.Engine.Services.{Served, ok}
use terminal_teams.Engine.Round.{visit_all-step}
use terminal_teams.Engine.Pending.{pending}
use terminal_teams.Engine.Running.{Running, IsBelow, first_contact}
use terminal_teams.Engine.Running.Delivering.{
  get_identity-same, Stays, visit-Stays, visit_all-Stays, run_round-eq,
}
use terminal_teams.System.Peers.{Knows, Takes}
use terminal_teams.System.Peers.Serving.{served, served-Takes}

-- A call succeeds where its status is `ok`.
abbrev pub answered : Served → Bool
answered none = false
answered (some (n, ok, texts)) = true
answered (some (n, terminal_teams.Engine.Services.invalid_argument, texts)) = false
answered (some (n, terminal_teams.Engine.Services.unknown, texts)) = false

-- What the network answers to the one call that brings the messages `m ∷ ms` to a contact, through its stub.
abbrev pub called : Network → ℕ → Bytes → Bytes → Bytes → List Bytes → Bool
called net id stub me m [] = net.tells id stub (record { identity = me; message = m })
called net id stub me m (m' ∷ ms) =
    net.narrates id stub (record { identity = me; messages = m ∷ m' ∷ ms })

-- The node with which the round's call of all the waiting messages ends, and what waits then: where the call
-- arrives, the node has served it, and nothing waits; where it is lost, the node is as before, and all the
-- messages wait.
abbrev pub Ends :
    Bool
    → (Bytes → ℕ)
    → List Window.Entry
    → ℕ
    → ℕ
    → Bytes
    → Bytes
    → List Bytes
    → List Entry
    → Node
    → Node
    → List Bytes
    → Type 0
Ends true hasher entries from later me m ms storage b b' waiting =
    (waiting ≡ [])
    × ((reply : List Bytes) × (served hasher b me m ms later ≡ some (b', ok, reply)))
    × Takes entries from later (m ∷ ms) storage b b'
Ends false hasher entries from later me m ms storage b b' waiting = (waiting ≡ m ∷ ms) × (b' ≡ b)

-- The neighbor with this key.
abbrev pub lookup : ℕ → List (ℕ × Neighbor) → Option Neighbor
lookup id [] = none
lookup id ((key, nb) ∷ rest) = if key == id then some nb else lookup id rest

-- The neighbor `id` is due: its timer has expired, its contact counts as active, and there is a stub.
pub record IsDue (net : Network) (now : ℕ) (n : Node) (id : ℕ) (nb : Neighbor) (stub : Bytes)
    : Type 0 where
  pub entry : Handler.Entry
  pub at : lookup id n.neighbors ≡ some nb
  pub found : Handler.get n.contacts id ≡ some entry
  pub due : expired nb.timer now ≡ true
  pub here : is_inactive entry.state ≡ false
  pub linked : ensure_stub net nb.stub entry.ip_address_and_port ≡ some stub

-- What is left of a neighbor after the call of its messages was answered.
abbrev settled : ℕ → Bytes → Bool → Neighbor → Neighbor
settled now stub answer nb = record nb {
  timer = kick nb.timer now;
  stub = some stub;
  pending_messages = if answer then [] else nb.pending_messages;
}

-- The messages go in the one call, and the answer to it settles whether they wait on.
deliver-called :
    (net : Network) (id : ℕ) (stub : Bytes) (n : Node) (nb : Neighbor) (m : Bytes) (ms : List Bytes)
    (answer : Bool)
    → (get_identity n).0 ≡ n
    → nb.pending_messages ≡ m ∷ ms
    → called net id stub (get_identity n).1 m ms ≡ answer
    → deliver net n id stub nb
      ≡ (n, record nb { pending_messages = if answer then [] else nb.pending_messages })
unfolding deliver
deliver-called net id stub n nb m [] true same_node e answer =
    rw (e, answer, same_node, deliver) refl
deliver-called net id stub n nb m [] false same_node e answer =
    rw (e, answer, same_node, deliver)
      (ap (λ (q : List Bytes). (n, record nb { pending_messages = q })) e)
deliver-called net id stub n nb m (m' ∷ ms) true same_node e answer =
    rw (e, answer, same_node, deliver) refl
deliver-called net id stub n nb m (m' ∷ ms) false same_node e answer =
    rw (e, answer, same_node, deliver)
      (ap (λ (q : List Bytes). (n, record nb { pending_messages = q })) e)

visit-called :
    (net : Network) (id : ℕ) (stub : Bytes) (now : ℕ) (n : Node) (nb : Neighbor) (m : Bytes)
    (ms : List Bytes) (answer : Bool)
    → IsDue net now n id nb stub
    → (get_identity n).0 ≡ n
    → nb.pending_messages ≡ m ∷ ms
    → called net id stub (get_identity n).1 m ms ≡ answer
    → visit net now n id nb ≡ some (n, settled now stub answer nb)
unfolding visit
visit-called net id stub now n nb m ms answer d same_node e answered_so =
    rw (d.due, d.found, d.here, visit)
      (ap
          (λ (o : Option Bytes).
            let ready : Neighbor = record nb { timer = kick nb.timer now; stub = o } in
            elim o [ none ↦ some (n, ready) | some s ↦ some (deliver net n id s ready) ])
          d.linked
        ∙ ap some (
            deliver-called net id stub n (record nb { timer = kick nb.timer now; stub = some stub })
              m ms answer same_node e answered_so))

pub if-true : {A : Type 0} → (b : Bool) (x y : A) → b ≡ true → (if b then x else y) ≡ x
if-true b x y e = rw e refl

pub if-false : {A : Type 0} → (b : Bool) (x y : A) → b ≡ false → (if b then x else y) ≡ y
if-false b x y e = rw e refl

same_visit :
    (o : Option (Node × Neighbor)) (n n' : Node) (nb nb' : Neighbor)
    → o ≡ some (n, nb)
    → o ≡ some (n', nb')
    → nb ≡ nb'
same_visit o n n' nb nb' e e' = cc

-- A visit that leaves the node alone changes the neighbor with its key, and the others' visits do not.
visit_all-lookup :
    (net : Network) (now : ℕ) (n : Node) (own : Handler.Entry) (id : ℕ) (nb nb' : Neighbor)
    (nbs : List (ℕ × Neighbor))
    → Handler.get n.contacts 0 ≡ some own
    → n.chat_stopped ≡ false
    → All (IsBelow (length n.contacts.contacts)) nbs
    → lookup id nbs ≡ some nb
    → visit net now n id nb ≡ some (n, nb')
    → (nbs' : List (ℕ × Neighbor)) × (visit_all net now n nbs ≡ some (n, nbs'))
      × (lookup id nbs' ≡ some nb')
unfolding visit_all Stays Handler.get
visit_all-lookup net now n own id nb nb' [] first live below at met = absurd cc
visit_all-lookup net now n own id nb nb' ((key, x) ∷ rest) first live below at met =
    let there = get_elem?-some n.contacts.contacts key below.0 in
    let seen = visit-Stays net now n own first key x there.0 there.1 in
    elim (Bool-cases (key == id)) [
      | inl same_key ↦
          let others = visit_all-Stays net now n own first rest live below.1 in
          let same_x : x ≡ nb =
            some-injective x nb
              (sym (if-true (key == id) (some x) (lookup id rest) same_key) ∙ at) in
          (
            (key, seen.0) ∷ others.0,
            visit_all-step net now n n n key x seen.0 rest others.0 live seen.1 others.1,
            if-true (key == id) (some seen.0) (lookup id others.0) same_key
                ∙ ap some (
                    same_visit (visit net now n key x) n n seen.0 nb' seen.1 (
                      ap (λ k. visit net now n k x) (eq-of-== key id same_key)
                      ∙ ap (visit net now n id) same_x
                      ∙ met)),
          )
      | inr other ↦
          let others =
            visit_all-lookup net now n own id nb nb' rest first live below.1
              (sym (if-false (key == id) (some x) (lookup id rest) other) ∙ at) met in
          (
            (key, seen.0) ∷ others.0,
            visit_all-step net now n n n key x seen.0 rest others.0 live seen.1 others.1,
            if-false (key == id) (some seen.0) (lookup id others.0) other ∙ others.2,
          )
    ]

pub pending-lookup :
    (id : ℕ) (nbs : List (ℕ × Neighbor)) (nb : Neighbor)
    → lookup id nbs ≡ some nb
    → pending id nbs ≡ nb.pending_messages
pending-lookup id [] nb at = absurd cc
pending-lookup id ((key, x) ∷ rest) nb at = elim (Bool-cases (key == id)) [
  | inl same_key ↦
      if-true (key == id) x.pending_messages (pending id rest) same_key
      ∙ ap (λ (y : Neighbor). y.pending_messages)
          (some-injective x nb (sym (if-true (key == id) (some x) (lookup id rest) same_key) ∙ at))
  | inr other ↦
      if-false (key == id) x.pending_messages (pending id rest) other
      ∙ pending-lookup id rest nb (sym (if-false (key == id) (some x) (lookup id rest) other) ∙ at)
]

served-Ends :
    {entries : List Window.Entry} (arrives : Bool) (hasher : Bytes → ℕ) (b : Node) (from later : ℕ)
    (me m : Bytes) (ms : List Bytes) (storage : List Entry)
    → Running entries b
    → Knows b me from
    → get_elem? b.chat.messages from ≡ some storage
    → (b' : Node) × (arrives && answered (served hasher b me m ms later) ≡ arrives)
      × ((waiting : List Bytes)
          → waiting ≡ (if arrives then [] else m ∷ ms)
          → Ends arrives hasher entries from later me m ms storage b b' waiting)
served-Ends true hasher b from later me m ms storage rb k found =
    let taken = served-Takes hasher b me m ms from later storage rb k found in
    (taken.0, ap answered taken.2, λ waiting e. (e, (taken.1, taken.2), taken.3))
served-Ends false hasher b from later me m ms storage rb k found = (b, refl, λ waiting e. (e, refl))

-- An engine `a` that runs has messages for a contact that is due, with a stub. An engine `b` runs, and knows
-- `a`'s identity as the contact `from`, which counts as active and has another address. Of the network it is
-- asked only that the one call of all these messages arrives at `b` and gets its answer, or is lost and fails;
-- what it answers to any other call is left open. Then a round of `a`'s chat broadcaster has a result. Where
-- the call arrives, nothing is left to send to that contact, and `b` has answered the call with success: it
-- runs on, with all the messages that waited, whole and in order, behind those of that contact, and its other
-- conversations as they were. Where it is lost, all the messages wait as before, and `b` is as before.
pub run_round-Takes :
    {shown_a shown_b : List Window.Entry} (hasher : Bytes → ℕ) (net : Network) (a b : Node)
    (id from now later : ℕ) (nb : Neighbor) (stub m : Bytes) (ms : List Bytes)
    (storage : List Entry) (arrives : Bool)
    → Running shown_a a
    → Running shown_b b
    → IsDue net now a id nb stub
    → nb.pending_messages ≡ m ∷ ms
    → called net id stub (get_identity a).1 m ms
      ≡ (arrives && answered (served hasher b (get_identity a).1 m ms later))
    → Knows b (get_identity a).1 from
    → get_elem? b.chat.messages from ≡ some storage
    → (a' : Node) × (b' : Node) × (run_round net now a ≡ some a')
      × Ends arrives hasher shown_b from later
          (get_identity a).1
          m
          ms
          storage
          b
          b'
          (pending id a'.neighbors)
run_round-Takes {shown_a} {shown_b} hasher net a b id from now later nb stub m ms storage arrives ra
      rb d e call k found =
    let own = first_contact ra in
    let taken =
      served-Ends arrives hasher b from later (get_identity a).1 m ms storage rb k found in
    let met =
      visit-called net id stub now a nb m ms arrives d (get_identity-same a own.0 own.1) e
        (call ∙ taken.1) in
    let all =
      visit_all-lookup net now a own.0 id nb (settled now stub arrives nb) a.neighbors own.1
        ra.going.0 ra.known d.at met in
    (
      record a { neighbors = all.0; neighbors_flag = false },
      taken.0,
      run_round-eq net now a all.0 all.1,
      taken.2 (pending id all.0) (
          pending-lookup id all.0 (settled now stub arrives nb) all.2
          ∙ ap (λ (q : List Bytes). if arrives then [] else q) e),
    )
