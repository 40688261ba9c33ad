-- ===== src/Engine/Round.antt =====
-- A whole round of the chat broadcaster's loop (engine/src/TTBroadcasterChat.cpp, `run`).
use mathlib.Core.Path.{subst}
use terminal_teams.Prelude.{
  All, Bool, Bool-cases, Bytes, List, Option, Option-cases, [], ap, false, if◌then◌else◌, inl, inr,
  refl, some, true, ℕ, ◌>>=◌, ◌∙◌, ◌∷◌, ◌≡◌,
}
use terminal_teams.Contacts.Handler
use terminal_teams.Contacts.Handler.{Entry}
use terminal_teams.Engine.Message.{Network}
use terminal_teams.Engine.Node.{Node, Neighbor}
use terminal_teams.Engine.Chat.{get_identity, visit, visit_all, run_round}
use terminal_teams.Engine.Delivery.{IsDelivered, visit-IsDelivered}

-- The neighbor's id is that of a contact.
abbrev pub IsKnown : Node → ℕ × Neighbor → Type 0
IsKnown n (id, nb) = (e : Entry) × (Handler.get n.contacts id ≡ some e)

-- The same keys, and each neighbor's messages kept or delivered.
abbrev pub AllDelivered : Network → Bytes → List (ℕ × Neighbor) → List (ℕ × Neighbor) → Type 0
AllDelivered net me [] [] = Unit {0}
AllDelivered net me [] (x ∷ xs) = ⊥
AllDelivered net me (x ∷ xs) [] = ⊥
AllDelivered net me ((id, nb) ∷ rest) ((id', nb') ∷ rest') =
    (id' ≡ id) × IsDelivered net id me nb nb' × AllDelivered net me rest rest'

AllDelivered-refl :
    (net : Network) (me : Bytes) (nbs : List (ℕ × Neighbor)) → AllDelivered net me nbs nbs
AllDelivered-refl net me [] = tt
AllDelivered-refl net me ((id, nb) ∷ rest) = (refl, inl refl, AllDelivered-refl net me rest)

get_identity-eq :
    (n n' : Node) → n'.contacts ≡ n.contacts → (get_identity n').1 ≡ (get_identity n).1
unfolding get_identity
get_identity-eq n n' e = elim (Option-cases (Handler.get n.contacts 0)) [
  | inl missing ↦ rw (e, missing, get_identity) refl
  | inr found ↦ rw (e, found.1, get_identity) refl
]

still-IsKnown :
    (n n' : Node) (nbs : List (ℕ × Neighbor))
    → n'.contacts ≡ n.contacts
    → All (IsKnown n) nbs
    → All (IsKnown n') nbs
still-IsKnown n n' [] e known = tt
still-IsKnown n n' ((id, nb) ∷ rest) e known =
    ((known.0.0, rw e known.0.1), still-IsKnown n n' rest e known.1)

visit_all-stopped :
    (net : Network) (now : ℕ) (n : Node) (nbs : List (ℕ × Neighbor))
    → n.chat_stopped ≡ true
    → visit_all net now n nbs ≡ some (n, nbs)
unfolding visit_all
visit_all-stopped net now n [] stopped = refl
visit_all-stopped net now n ((id, nb) ∷ rest) stopped = rw (stopped, visit_all) refl

pub visit_all-step :
    (net : Network) (now : ℕ) (n n1 n2 : Node) (id : ℕ) (nb nb1 : Neighbor)
    (rest rest2 : List (ℕ × Neighbor))
    → n.chat_stopped ≡ false
    → visit net now n id nb ≡ some (n1, nb1)
    → visit_all net now n1 rest ≡ some (n2, rest2)
    → visit_all net now n ((id, nb) ∷ rest) ≡ some (n2, (id, nb1) ∷ rest2)
unfolding visit_all
visit_all-step net now n n1 n2 id nb nb1 rest rest2 live met later =
    ap
      (λ (b : Bool).
        if b
        then some (n, (id, nb) ∷ rest)
        else (visit net now n id nb >>= λ r.
            visit_all net now r.0 rest >>= λ s. some (s.0, (id, r.1) ∷ s.1)))
      live
    ∙ ap
        (λ (o : Option (Node × Neighbor)).
          o >>= λ r. visit_all net now r.0 rest >>= λ s. some (s.0, (id, r.1) ∷ s.1))
        met
    ∙ ap (λ (o : Option (Node × List (ℕ × Neighbor))). o >>= λ s. some (s.0, (id, nb1) ∷ s.1)) later

visit_all-AllDelivered :
    (net : Network) (now : ℕ) (me : Bytes) (n : Node) (nbs : List (ℕ × Neighbor))
    → (get_identity n).1 ≡ me
    → All (IsKnown n) nbs
    → (n' : Node) × (nbs' : List (ℕ × Neighbor)) × (visit_all net now n nbs ≡ some (n', nbs'))
      × AllDelivered net me nbs nbs'
      × (n'.contacts ≡ n.contacts)
unfolding visit_all
visit_all-AllDelivered net now me n [] e known = (n, [], refl, tt, refl)
visit_all-AllDelivered net now me n ((id, nb) ∷ rest) e known = elim (Bool-cases n.chat_stopped) [
  | inl stopped ↦ (
    n,
    (id, nb) ∷ rest,
    rw (stopped, visit_all) refl,
    AllDelivered-refl net me ((id, nb) ∷ rest),
    refl,
  )
  | inr live ↦
      let met = visit-IsDelivered net now n id nb known.0.0 known.0.1 in
      let later =
        visit_all-AllDelivered net now me met.0 rest (get_identity-eq n met.0 met.4 ∙ e)
          (still-IsKnown n met.0 rest met.4 known.1) in
      (
        later.0,
        (id, met.1) ∷ later.1,
        visit_all-step net now n met.0 later.0 id nb met.1 rest later.1 live met.2 later.2,
        (refl, subst (λ i. IsDelivered net id i nb met.1) e met.3, later.3),
        later.4 ∙ met.4,
      )
]

-- Where the neighbors are contacts, a round has a defined result. It keeps the contacts and the ids of
-- the neighbors, and of every neighbor the same messages wait, or none do and the network took them.
pub run_round-AllDelivered :
    (net : Network) (now : ℕ) (n : Node)
    → All (IsKnown n) n.neighbors
    → (n' : Node) × (run_round net now n ≡ some n')
      × AllDelivered net (get_identity n).1 n.neighbors n'.neighbors
      × (n'.contacts ≡ n.contacts)
unfolding run_round
run_round-AllDelivered net now n known =
    let all = visit_all-AllDelivered net now (get_identity n).1 n n.neighbors refl known in
    (
      record (all.0) { neighbors = all.1; neighbors_flag = false },
      rw (all.2, run_round) refl,
      all.3,
      all.4,
    )
