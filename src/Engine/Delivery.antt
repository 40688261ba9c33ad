-- ===== src/Engine/Delivery.antt =====
-- What a visit of the chat broadcaster's loop (engine/src/TTBroadcasterChat.cpp, `run`) does with the
-- messages that wait for a neighbor.
use terminal_teams.Prelude.{
  Bool, Bool-cases, Bytes, List, Option, Option-cases, [], false, if◌then◌else◌, inl, inr, none,
  refl, some, true, ℕ, ◌∷◌, ◌≡◌, ◌⊎◌,
}
use terminal_teams.Contacts.State.{is_inactive}
use terminal_teams.Contacts.Handler
use terminal_teams.Contacts.Handler.{Entry}
use terminal_teams.Engine.Message.{Network}
use terminal_teams.Engine.Timer.{Timer, expired, kick}
use terminal_teams.Engine.Node.{Node, Neighbor, stop_chat}
use terminal_teams.Engine.Chat.{deliver, ensure_stub, get_identity, visit}

-- The network took all these messages from `me` in one call: a tell of one, a narrate of several.
abbrev pub IsTaken : Network → ℕ → Bytes → Bytes → List Bytes → Type 0
IsTaken net id stub me [] = ⊥
IsTaken net id stub me (m ∷ []) = net.tells id stub (record { identity = me; message = m }) ≡ true
IsTaken net id stub me (m ∷ m' ∷ ms) =
    net.narrates id stub (record { identity = me; messages = m ∷ m' ∷ ms }) ≡ true

-- The messages that wait are the same as before, or none do and the network took those.
abbrev pub IsDelivered : Network → ℕ → Bytes → Neighbor → Neighbor → Type 0
IsDelivered net id me before after =
    (after.pending_messages ≡ before.pending_messages)
    ⊎ ((after.pending_messages ≡ [])
        × ((stub : Bytes) × IsTaken net id stub me before.pending_messages))

keep-or-clear :
    (net : Network) (id : ℕ) (stub me : Bytes) (nb : Neighbor) (taken : Bool)
    → (taken ≡ true → IsTaken net id stub me nb.pending_messages)
    → IsDelivered net id me nb (if taken then record nb { pending_messages = [] } else nb)
keep-or-clear net id stub me nb true h = inr (refl, (stub, h refl))
keep-or-clear net id stub me nb false h = inl refl

deliver-IsDelivered :
    (net : Network) (n : Node) (id : ℕ) (stub : Bytes) (link : Option Bytes) (timer : Timer)
    (ms : List Bytes)
    → let nb : Neighbor = record { stub = link; timer = timer; pending_messages = ms } in
      IsDelivered net id (get_identity n).1 nb (deliver net n id stub nb).1
unfolding deliver
deliver-IsDelivered net n id stub link timer [] = inl refl
deliver-IsDelivered net n id stub link timer (m ∷ []) =
    keep-or-clear net id stub (get_identity n).1
      (record { stub = link; timer = timer; pending_messages = m ∷ [] })
      (net.tells id stub (record { identity = (get_identity n).1; message = m })) (λ h. h)
deliver-IsDelivered net n id stub link timer (m ∷ m' ∷ ms) =
    keep-or-clear net id stub (get_identity n).1
      (record { stub = link; timer = timer; pending_messages = m ∷ m' ∷ ms })
      (net.narrates id stub (record { identity = (get_identity n).1; messages = m ∷ m' ∷ ms }))
      (λ h. h)

get_identity-contacts : (n : Node) → (get_identity n).0.contacts ≡ n.contacts
unfolding get_identity stop_chat
get_identity-contacts n = elim (Option-cases (Handler.get n.contacts 0)) [
  | inl e ↦ rw (e, get_identity) refl
  | inr found ↦ rw (found.1, get_identity) refl
]

deliver-contacts :
    (net : Network) (n : Node) (id : ℕ) (stub : Bytes) (link : Option Bytes) (timer : Timer)
    (ms : List Bytes)
    → (deliver net n id stub
        (record { stub = link; timer = timer; pending_messages = ms })).0.contacts
      ≡ n.contacts
unfolding deliver
deliver-contacts net n id stub link timer [] = refl
deliver-contacts net n id stub link timer (m ∷ []) = get_identity-contacts n
deliver-contacts net n id stub link timer (m ∷ m' ∷ ms) = get_identity-contacts n

-- What is known of a visit.
abbrev pub Visits : Network → Node → ℕ → Neighbor → Option (Node × Neighbor) → Type 0
Visits net n id nb result =
    (n' : Node) × (nb' : Neighbor) × (result ≡ some (n', nb'))
    × IsDelivered net id (get_identity n).1 nb nb'
    × (n'.contacts ≡ n.contacts)

linked-Visits :
    (net : Network) (n : Node) (id : ℕ) (nb : Neighbor) (timer : Timer) (link : Option Bytes)
    → let ready : Neighbor = record nb { timer = timer; stub = link } in
      Visits net n id nb
        (elim link [ none ↦ some (n, ready) | some s ↦ some (deliver net n id s ready) ])
linked-Visits net n id nb timer none =
    (n, record nb { timer = timer; stub = none }, refl, inl refl, refl)
linked-Visits net n id nb timer (some s) = (
  (deliver net n id s (record nb { timer = timer; stub = some s })).0,
  (deliver net n id s (record nb { timer = timer; stub = some s })).1,
  refl,
  deliver-IsDelivered net n id s (some s) timer nb.pending_messages,
  deliver-contacts net n id s (some s) timer nb.pending_messages,
)

-- A visit of a neighbor whose contact is known has a defined result, and leaves the contacts as they
-- are. It loses no message: either the same ones wait, or none do and the network took those that
-- did, from this node, in one call and in order.
pub visit-IsDelivered :
    (net : Network) (now : ℕ) (n : Node) (id : ℕ) (nb : Neighbor) (e : Entry)
    → Handler.get n.contacts id ≡ some e
    → (n' : Node) × (nb' : Neighbor) × (visit net now n id nb ≡ some (n', nb'))
      × IsDelivered net id (get_identity n).1 nb nb'
      × (n'.contacts ≡ n.contacts)
unfolding visit
visit-IsDelivered net now n id nb e found = elim (Bool-cases (expired nb.timer now)) [
  | inr late ↦ (n, nb, rw (late, visit) refl, inl refl, refl)
  | inl due ↦ elim (Bool-cases (is_inactive e.state)) [
    | inl away ↦ (
      n,
      record nb { timer = kick nb.timer now },
      rw (due, found, away, visit) refl,
      inl refl,
      refl,
    )
    | inr here ↦
        let met =
          linked-Visits net n id nb (kick nb.timer now)
            (ensure_stub net nb.stub e.ip_address_and_port) in
        (met.0, met.1, rw (due, found, here, visit) met.2, met.3, met.4)
  ]
]
