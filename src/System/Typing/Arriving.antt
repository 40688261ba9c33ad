-- ===== src/System/Typing/Arriving.antt =====
-- The messages that wait for a contact for the first time (engine/src/TTBroadcasterChat.cpp, `handleSend`), and
-- the round of `run` that brings them to it.
use mathlib.Core.Path.{subst}
use terminal_teams.Prelude.{
  All, Bool-cases, Bytes, List, Option, Option-cases, [], arith, inl, inr, none, refl, some, sym,
  true, ℕ, ◌++◌, ◌<◌, ◌==◌, ◌∙◌, ◌∷◌, ◌≡◌, ◌≤◌,
}
use terminal_teams.Engine.Message.{Network, create_stub}
use terminal_teams.Engine.Timer.{create_timer, expire, expired, remaining}
use terminal_teams.Engine.Node.{Neighbor}
use terminal_teams.Engine.Chat.{add_pending, ensure_stub}
use terminal_teams.Engine.Pending.{pending, Ascending, IsAbove, add_pending-Ascending}
use terminal_teams.System.Peers.Round.{lookup, pending-lookup, if-true, if-false}
use terminal_teams.System.Typing.{fresh_neighbor, add_all}

-- What becomes of a neighbor, or of a fresh one, with one more message.
abbrev grown : Neighbor → Option Neighbor → Bytes → Neighbor
grown fresh none m = record fresh { pending_messages = fresh.pending_messages ++ m ∷ [] }
grown fresh (some nb) m = record nb { pending_messages = nb.pending_messages ++ m ∷ [] }

lookup-absent : (id : ℕ) (nbs : List (ℕ × Neighbor)) → All (IsAbove id) nbs → lookup id nbs ≡ none
lookup-absent id [] above = refl
lookup-absent id ((key, nb) ∷ rest) above = ground (arith, lookup-absent id rest above.1)

weaker :
    (low high : ℕ) (nbs : List (ℕ × Neighbor))
    → low < high
    → All (IsAbove high) nbs
    → All (IsAbove low) nbs
weaker low high [] h above = tt
weaker low high ((key, nb) ∷ rest) h above =
    (omega (arith, above.0), weaker low high rest h above.1)

lookup-add_pending :
    (id : ℕ) (m : Bytes) (fresh : Neighbor) (nbs : List (ℕ × Neighbor))
    → Ascending nbs
    → lookup id (add_pending id m fresh nbs) ≡ some (grown fresh (lookup id nbs) m)
unfolding add_pending
lookup-add_pending id m fresh [] up = ground arith
lookup-add_pending id m fresh ((key, nb) ∷ rest) up =
    let later = lookup-add_pending id m fresh rest up.1 in
    let below = λ (h : id < key). lookup-absent id rest (weaker id key rest h up.0) in
    ground (arith, later, below)

-- The timer has expired, and there is a stub for the address or one can be made.
abbrev pub IsReady : Network → ℕ → Bytes → Neighbor → Type 0
IsReady net t address nb =
    (expired nb.timer t ≡ true) × (ensure_stub net nb.stub address ≡ some address)

abbrev pub IsOpen : Network → ℕ → Bytes → Option Neighbor → Type 0
IsOpen net t address none = Unit {0}
IsOpen net t address (some nb) =
    (expired nb.timer t ≡ true) × (ensure_stub net nb.stub address ≡ some address)

pub fresh-IsReady :
    (net : Network) (threshold now t : ℕ) (address : Bytes)
    → threshold ≤ t
    → net.connects address ≡ true
    → IsReady net t address (fresh_neighbor net threshold now address)
unfolding expired remaining expire create_timer ensure_stub create_stub
fresh-IsReady net threshold now t address le connects = (ground arith, rw connects refl)

grown-IsOpen :
    (net : Network) (t : ℕ) (address m : Bytes) (fresh : Neighbor) (o : Option Neighbor)
    → IsReady net t address fresh
    → IsOpen net t address o
    → IsOpen net t address (some (grown fresh o m))
grown-IsOpen net t address m fresh none ready open_one = ready
grown-IsOpen net t address m fresh (some nb) ready open_one = open_one

pub add_all-IsOpen :
    (net : Network) (t : ℕ) (address : Bytes) (id : ℕ) (fresh : Neighbor) (ms : List Bytes)
    (nbs : List (ℕ × Neighbor))
    → Ascending nbs
    → IsReady net t address fresh
    → IsOpen net t address (lookup id nbs)
    → IsOpen net t address (lookup id (add_all id fresh ms nbs))
add_all-IsOpen net t address id fresh [] nbs up ready open_one = open_one
add_all-IsOpen net t address id fresh (m ∷ ms) nbs up ready open_one =
    add_all-IsOpen net t address id fresh ms (add_pending id m fresh nbs)
      (add_pending-Ascending id m fresh nbs up) ready
      (subst (IsOpen net t address) (sym (lookup-add_pending id m fresh nbs up))
        (grown-IsOpen net t address m fresh (lookup id nbs) ready open_one))

pending-none : (id : ℕ) (nbs : List (ℕ × Neighbor)) → lookup id nbs ≡ none → pending id nbs ≡ []
pending-none id [] at = refl
pending-none id ((key, x) ∷ rest) at = elim (Bool-cases (key == id)) [
  | inl same_key ↦
      absurd (none≢some (sym (if-true (key == id) (some x) (lookup id rest) same_key) ∙ at))
  | inr other ↦
      if-false (key == id) x.pending_messages (pending id rest) other
      ∙ pending-none id rest (sym (if-false (key == id) (some x) (lookup id rest) other) ∙ at)
]
  where
    none≢some : some x ≡ none → ⊥
    none≢some e = cc

-- A contact that something waits for has a neighbor, which is open.
pub waits-IsOpen :
    (net : Network) (t : ℕ) (address : Bytes) (id : ℕ) (nbs : List (ℕ × Neighbor)) (m : Bytes)
    (ms : List Bytes)
    → pending id nbs ≡ m ∷ ms
    → IsOpen net t address (lookup id nbs)
    → (nb : Neighbor) × (lookup id nbs ≡ some nb)
      × (nb.pending_messages ≡ m ∷ ms)
      × (expired nb.timer t ≡ true)
      × (ensure_stub net nb.stub address ≡ some address)
waits-IsOpen net t address id nbs m ms e open_one = elim (Option-cases (lookup id nbs)) [
  | inl missing ↦ absurd (empty (sym (pending-none id nbs missing) ∙ e))
  | inr (nb, at) ↦
      let ready = subst (IsOpen net t address) at open_one in
      (nb, at, sym (pending-lookup id nbs nb at) ∙ e, ready.0, ready.1)
]
  where
    empty : [] ≡ m ∷ ms → ⊥
    empty e' = cc
