-- ===== src/Engine/Running/Keys.antt =====
-- Maps of neighbors (engine/src/TTBroadcasterChat.cpp, TTBroadcasterDiscovery.cpp) with the same keys.
use terminal_teams.Prelude.{All, List, [], arith, ℕ, ◌∷◌, ◌≡◌}
use terminal_teams.Engine.Node.{Neighbor}
use terminal_teams.Engine.Pending.{IsAbove, Ascending}
use terminal_teams.Engine.Running.{IsBelow}

abbrev pub SameKeys : {A : Type 0} → List (ℕ × A) → List (ℕ × A) → Type 0
SameKeys [] [] = Unit {0}
SameKeys [] (y ∷ ys) = ⊥
SameKeys (x ∷ xs) [] = ⊥
SameKeys ((id, x) ∷ xs) ((id', y) ∷ ys) = (id' ≡ id) × SameKeys xs ys

pub SameKeys-IsBelow :
    {A : Type 0}
    → (n : ℕ) (xs ys : List (ℕ × A)) → SameKeys xs ys
    → All (IsBelow n) xs
    → All (IsBelow n) ys
SameKeys-IsBelow n [] [] s h = tt
SameKeys-IsBelow n [] (y ∷ ys) s h = absurd s
SameKeys-IsBelow n (x ∷ xs) [] s h = absurd s
SameKeys-IsBelow n ((id, x) ∷ xs) ((id', y) ∷ ys) s h =
    (omega (arith, s.0, h.0), SameKeys-IsBelow n xs ys s.1 h.1)

SameKeys-IsAbove :
    (low low' : ℕ) (xs ys : List (ℕ × Neighbor))
    → low' ≡ low
    → SameKeys xs ys
    → All (IsAbove low) xs
    → All (IsAbove low') ys
SameKeys-IsAbove low low' [] [] e s h = tt
SameKeys-IsAbove low low' [] (y ∷ ys) e s h = absurd s
SameKeys-IsAbove low low' (x ∷ xs) [] e s h = absurd s
SameKeys-IsAbove low low' ((id, x) ∷ xs) ((id', y) ∷ ys) e s h =
    (omega (arith, s.0, h.0, e), SameKeys-IsAbove low low' xs ys e s.1 h.1)

pub SameKeys-Ascending :
    (xs ys : List (ℕ × Neighbor)) → SameKeys xs ys → Ascending xs → Ascending ys
SameKeys-Ascending [] [] s h = tt
SameKeys-Ascending [] (y ∷ ys) s h = absurd s
SameKeys-Ascending (x ∷ xs) [] s h = absurd s
SameKeys-Ascending ((id, x) ∷ xs) ((id', y) ∷ ys) s h =
    (SameKeys-IsAbove id id' xs ys s.0 s.1 h.0, SameKeys-Ascending xs ys s.1 h.1)
