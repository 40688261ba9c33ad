-- ===== src/Engine/Running/Laps.antt =====
-- The timers of the static neighbors over the rounds of their loop (engine/src/TTBroadcasterDiscovery.cpp,
-- `resolveStaticNeighbors`).
use terminal_teams.Prelude.{
  All, Bool, List, [], arith, false, if◌then◌else◌, inl, inr, leb, refl, suc, true, ℕ, ◌+◌, ◌<◌,
  ◌∷◌, ◌≡◌, ◌≤◌, ◌⊎◌,
}
use terminal_teams.Engine.Timer.{Timer, expired, kick, remaining}
use terminal_teams.Engine.Node.{StaticNeighbor}
use terminal_teams.Engine.Discovery.{resolved}
use terminal_teams.Engine.Resolve.{IsTried, AllTried}

-- How often `d` passes while the rounds go on: a lap ends with the first round at least `d` after its start,
-- and the next one begins there. There may be any number of rounds within a lap.
unfoldable pub laps : ℕ → ℕ → List ℕ → ℕ
laps d start [] = 0
laps d start (t ∷ ts) =
    let next = laps d t ts in
    let rest = laps d start ts in if leb (start + d) t then suc next else rest

pub laps-next :
    (d start t : ℕ) (ts : List ℕ)
    → leb (start + d) t ≡ true
    → laps d start (t ∷ ts) ≡ suc (laps d t ts)
unfolding laps
laps-next d start t ts lap = rw (lap, laps) refl

pub laps-within :
    (d start t : ℕ) (ts : List ℕ)
    → leb (start + d) t ≡ false
    → laps d start (t ∷ ts) ≡ laps d start ts
unfolding laps
laps-within d start t ts within = rw (within, laps) refl

pub le-of-leb : (a b : ℕ) → leb a b ≡ true → a ≤ b
le-of-leb a b h = ground arith

-- The clock does not go back.
abbrev pub Rising : ℕ → List ℕ → Type 0
Rising t [] = Unit {0}
Rising t (t' ∷ ts) = (t ≤ t') × Rising t' ts

-- A timer that takes at most `d`, started at `t` at the latest, and at most `k` trials, of which one is used
-- up where the timer was started in the lap that began at `start`.
abbrev pub IsPrompt : ℕ → ℕ → ℕ → ℕ → StaticNeighbor → Type 0
IsPrompt d k start t nb =
    (nb.timer.threshold ≤ d)
    × (nb.timer.timestamp ≤ t)
    × ((nb.trials < k) ⊎ ((nb.trials ≤ k) × (nb.timer.timestamp ≤ start)))

-- At most `k` trials, and a timer that takes at most `d` and was started at `start` at the latest.
abbrev pub IsFresh : ℕ → ℕ → ℕ → StaticNeighbor → Type 0
IsFresh d k start nb = (nb.timer.threshold ≤ d) × (nb.trials ≤ k) × (nb.timer.timestamp ≤ start)

pub fresh-IsPrompt :
    (d k start : ℕ) (nbs : List StaticNeighbor)
    → All (IsFresh d k start) nbs
    → All (IsPrompt d k start start) nbs
fresh-IsPrompt d k start [] fresh = tt
fresh-IsPrompt d k start (nb ∷ nbs) ((short, few, begun), fresh) =
    ((short, begun, inr (few, begun)), fresh-IsPrompt d k start nbs fresh)

old-expired :
    (t : Timer) (d start now : ℕ)
    → t.threshold ≤ d
    → t.timestamp ≤ start
    → start + d ≤ now
    → expired t now ≡ true
unfolding expired remaining
old-expired t d start now short begun gap = ground arith

kick-timestamp : (t : Timer) (now : ℕ) → (kick t now).timestamp ≡ now
unfolding kick
kick-timestamp t now = refl

kick-threshold : (t : Timer) (now : ℕ) → (kick t now).threshold ≡ t.threshold
unfolding kick
kick-threshold t now = refl

pub opposite : (b : Bool) → b ≡ true → b ≡ false → ⊥
opposite b yes_it no_it = cc

-- Within a lap a round leaves a prompt neighbor prompt.
pub within-IsPrompt :
    (d k start t t' : ℕ) (nb nb' : StaticNeighbor)
    → t ≤ t'
    → IsPrompt d k start t nb
    → IsTried t' nb nb'
    → IsPrompt d k start t' nb'
within-IsPrompt d k start t t' nb nb' le (short, begun, few) (inl (same_nb, waits)) =
    rw same_nb (short, omega (arith, begun, le), few)
within-IsPrompt d k start t t' nb nb' le (short, begun, few) (inr (was_due, fewer, kicked)) = (
  rw (kicked, kick-threshold nb.timer t') short,
  rw (kicked, kick-timestamp nb.timer t') (omega arith),
  inl (elim few [
    | inl less ↦ omega (arith, less, fewer)
    | inr most ↦ omega (arith, most.0, fewer)
  ]),
)

-- The round that ends a lap leaves it prompt, with fewer trials, in the next one.
pub next-IsPrompt :
    (d k start t t' : ℕ) (nb nb' : StaticNeighbor)
    → t ≤ t'
    → start + d ≤ t'
    → IsPrompt d (suc k) start t nb
    → IsTried t' nb nb'
    → IsPrompt d k t' t' nb'
next-IsPrompt d k start t t' nb nb' le gap (short, begun, few) (inl (same_nb, inl over)) =
    rw same_nb (short, omega (arith, begun), inr (omega (arith, over), omega (arith, begun)))
next-IsPrompt d k start t t' nb nb' le gap (short, begun, inl less) (inl (same_nb, inr runs)) =
    rw same_nb (short, omega (arith, begun), inr (omega (arith, less), omega (arith, begun)))
next-IsPrompt d k start t t' nb nb' le gap (short, begun, inr (few, old))
      (inl (same_nb, inr runs)) =
    absurd (opposite (expired nb.timer t') (old-expired nb.timer d start t' short old gap) runs)
next-IsPrompt d k start t t' nb nb' le gap (short, begun, few) (inr (was_due, fewer, kicked)) = (
  rw (kicked, kick-threshold nb.timer t') short,
  rw (kicked, kick-timestamp nb.timer t') (omega arith),
  inr (
    elim few [ inl less ↦ omega (arith, less, fewer) | inr most ↦ omega (arith, most.0, fewer) ],
    rw (kicked, kick-timestamp nb.timer t') (omega arith),
  ),
)

pub All-tried :
    (P Q : StaticNeighbor → Type 0) (t : ℕ) (nbs nbs' : List StaticNeighbor)
    → ((nb nb' : StaticNeighbor) → P nb → IsTried t nb nb' → Q nb')
    → All P nbs
    → AllTried t nbs nbs'
    → All Q nbs'
All-tried P Q t [] [] step kept tried = tt
All-tried P Q t [] (y ∷ ys) step kept tried = absurd tried
All-tried P Q t (x ∷ xs) [] step kept tried = absurd tried
All-tried P Q t (x ∷ xs) (y ∷ ys) step kept tried =
    (step x y kept.0 tried.0, All-tried P Q t xs ys step kept.1 tried.1)

pub none_left :
    (d start t : ℕ) (nbs : List StaticNeighbor)
    → All (IsPrompt d 0 start t) nbs
    → resolved nbs ≡ true
unfolding resolved
none_left d start t [] prompt = refl
none_left d start t (nb ∷ rest) ((short, begun, inl less), prompt) = absurd (omega (arith, less))
none_left d start t (nb ∷ rest) ((short, begun, inr few), prompt) =
    ground (arith, few.0, none_left d start t rest prompt)
