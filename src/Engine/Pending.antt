-- ===== src/Engine/Pending.antt =====
-- The messages that wait for a neighbor (engine/src/TTBroadcasterChat.cpp), and how `handleSend` adds
-- one.
use terminal_teams.Prelude.{
  All, Bytes, List, [], arith, if◌then◌else◌, refl, ℕ, ◌++◌, ◌<◌, ◌==◌, ◌∷◌, ◌≡◌,
}
use terminal_teams.Engine.Node.{Neighbor}
use terminal_teams.Engine.Chat.{add_pending}

-- What waits for a contact.
abbrev pub pending : ℕ → List (ℕ × Neighbor) → List Bytes
pending id [] = []
pending id ((key, nb) ∷ rest) = if key == id then nb.pending_messages else pending id rest

-- The keys of a map, in order.
abbrev pub IsAbove : ℕ → ℕ × Neighbor → Type 0
IsAbove low (key, nb) = low < key

abbrev pub Ascending : List (ℕ × Neighbor) → Type 0
Ascending [] = Unit {0}
Ascending ((key, nb) ∷ rest) = All (IsAbove key) rest × Ascending rest

absent : (id : ℕ) (nbs : List (ℕ × Neighbor)) → All (IsAbove id) nbs → pending id nbs ≡ []
absent id [] above = refl
absent id ((key, nb) ∷ rest) above = ground (arith, absent id rest above.1)

weaker :
    (low high : ℕ) (nbs : List (ℕ × Neighbor))
    → low < high
    → All (IsAbove high) nbs
    → All (IsAbove low) nbs
weaker low high [] h above = tt
weaker low high ((key, nb) ∷ rest) h above =
    (omega (arith, above.0), weaker low high rest h above.1)

add_pending-IsAbove :
    (low id : ℕ) (message : Bytes) (fresh : Neighbor) (nbs : List (ℕ × Neighbor))
    → low < id
    → All (IsAbove low) nbs
    → All (IsAbove low) (add_pending id message fresh nbs)
unfolding add_pending
add_pending-IsAbove low id message fresh [] h above = (h, tt)
add_pending-IsAbove low id message fresh ((key, nb) ∷ rest) h above =
    let later = add_pending-IsAbove low id message fresh rest h above.1 in ground (arith, later)

absent-below :
    (id key : ℕ) (nb : Neighbor) (rest : List (ℕ × Neighbor))
    → id < key
    → All (IsAbove key) rest
    → pending id ((key, nb) ∷ rest) ≡ []
absent-below id key nb rest h above = absent id ((key, nb) ∷ rest) (h, weaker id key rest h above)

pub add_pending-Ascending :
    (id : ℕ) (message : Bytes) (fresh : Neighbor) (nbs : List (ℕ × Neighbor))
    → Ascending nbs
    → Ascending (add_pending id message fresh nbs)
unfolding add_pending
add_pending-Ascending id message fresh [] up = (tt, tt)
add_pending-Ascending id message fresh ((key, nb) ∷ rest) up =
    let later = add_pending-Ascending id message fresh rest up.1 in
    let above = λ (h : key < id). add_pending-IsAbove key id message fresh rest h up.0 in
    let below = λ (h : id < key). weaker id key rest h up.0 in
    ground (arith, later, above, below, up.0, up.1)

add_pending-eq :
    (id other : ℕ) (message : Bytes) (fresh : Neighbor) (nbs : List (ℕ × Neighbor))
    → fresh.pending_messages ≡ []
    → Ascending nbs
    → pending other (add_pending id message fresh nbs)
      ≡ (if other == id then pending other nbs ++ message ∷ [] else pending other nbs)
unfolding add_pending
add_pending-eq id other message fresh [] e up = rw e (ground arith)
add_pending-eq id other message fresh ((key, nb) ∷ rest) e up =
    let later = add_pending-eq id other message fresh rest e up.1 in
    let below = λ (h : id < key). absent-below id key nb rest h up.0 in
    ground (arith, later, below, e)

-- Adding a message to the map puts it behind all that waits for that contact, changes what waits for
-- no other one, and keeps the keys in order; the entry made for a new key has no messages.
pub add_pending-pending :
    (id other : ℕ) (message : Bytes) (fresh : Neighbor) (nbs : List (ℕ × Neighbor))
    → fresh.pending_messages ≡ []
    → Ascending nbs
    → (pending other (add_pending id message fresh nbs)
        ≡ (if other == id then pending other nbs ++ message ∷ [] else pending other nbs))
      × Ascending (add_pending id message fresh nbs)
add_pending-pending id other message fresh nbs e up =
    (add_pending-eq id other message fresh nbs e up, add_pending-Ascending id message fresh nbs up)
