-- ===== src/Engine/Running/Resolving.antt =====
-- The loop over the static neighbors (engine/src/TTBroadcasterDiscovery.cpp, `resolveStaticNeighbors`) in a
-- node that runs.
use terminal_teams.Prelude.{
  All, Bool, Bool-cases, List, [], arith, eq-of-==, false, inl, inr, leb, refl, some, suc, true,
  zero, ℕ, ◌&&◌, ◌+◌, ◌<◌, ◌==◌, ◌∙◌, ◌∷◌, ◌≡◌,
}
use terminal_teams.Contacts.Window as Window
use terminal_teams.Engine.Message.{Network}
use terminal_teams.Engine.Node.{Node, StaticNeighbor}
use terminal_teams.Engine.Discovery.{static_round, resolved, resolve_loop}
use terminal_teams.Engine.Resolve.{IsPolite, AllTried, visit_statics-AllTried}
use terminal_teams.Engine.Running.{Running}
use terminal_teams.Engine.Running.Greetings.{greet-Runs, with_statics-Running}
use terminal_teams.Engine.Running.Laps.{
  laps, Rising, IsPrompt, IsFresh, laps-next, laps-within, le-of-leb, opposite, within-IsPrompt,
  next-IsPrompt, All-tried, none_left, fresh-IsPrompt,
}

and-left : (a b : Bool) → a && b ≡ true → a ≡ true
and-left a b e = ground arith

and-right : (a b : Bool) → a && b ≡ true → b ≡ true
and-right a b e = ground arith

-- Where no trial is left, a round changes nothing of that.
tried-resolved :
    (t : ℕ) (nbs nbs' : List StaticNeighbor)
    → resolved nbs ≡ true
    → AllTried t nbs nbs'
    → resolved nbs' ≡ true
unfolding resolved
tried-resolved t [] [] over tried = refl
tried-resolved t [] (y ∷ ys) over tried = absurd tried
tried-resolved t (x ∷ xs) [] over tried = absurd tried
tried-resolved t (x ∷ xs) (y ∷ ys) over (now_tried, tried) =
    let spent : y.trials ≡ 0 = elim now_tried [
      | inl (same_nb, waits) ↦
          rw same_nb (eq-of-== x.trials 0 (and-left (x.trials == 0) (resolved xs) over))
      | inr (due, fewer, kicked) ↦
          absurd (omega (arith, eq-of-== x.trials 0 (and-left (x.trials == 0) (resolved xs) over)))
    ] in
    ground
      (arith, spent, tried-resolved t xs ys (and-right (x.trials == 0) (resolved xs) over) tried)

resolve_loop-over :
    (net : Network) (threshold now : ℕ) (times : List ℕ) (n n' : Node)
    → static_round net threshold now n ≡ some n'
    → resolved n.static_neighbors ≡ true
    → resolve_loop net threshold (now ∷ times) n ≡ some (n', true)
unfolding resolve_loop
resolve_loop-over net threshold now times n n' e over = rw (e, over, resolve_loop) refl

resolve_loop-next :
    (net : Network) (threshold now : ℕ) (times : List ℕ) (n n' : Node)
    → static_round net threshold now n ≡ some n'
    → resolved n.static_neighbors ≡ false
    → n'.discovery_stopped ≡ false
    → resolve_loop net threshold (now ∷ times) n ≡ resolve_loop net threshold times n'
unfolding resolve_loop
resolve_loop-next net threshold now times n n' e left live = rw (e, left, live, resolve_loop) refl

module _ {entries : List Window.Entry} (net : Network) (threshold : ℕ) (polite : IsPolite net) where
  -- A round of a node that runs is a whole one.
  round-AllTried :
      (now : ℕ) (n : Node)
      → Running entries n
      → (n' : Node) × (static_round net threshold now n ≡ some n')
        × Running entries n'
        × AllTried now n.static_neighbors n'.static_neighbors
  unfolding static_round
  round-AllTried now n r =
      let all =
        visit_statics-AllTried (Running entries) net threshold now
          (λ m place stub h. greet-Runs net threshold now polite m place stub h) n 0
          n.static_neighbors r in
      (
        record (all.0) { static_neighbors = all.1 },
        rw (all.2, static_round) refl,
        with_statics-Running all.0 all.1 all.3,
        elim all.4 [
          | inl stopped ↦ absurd (opposite all.0.discovery_stopped stopped all.3.going.1)
          | inr tried ↦ tried
        ],
      )

  loop-ends :
      (d k start t : ℕ) (times : List ℕ) (n : Node)
      → Running entries n
      → All (IsPrompt d k start t) n.static_neighbors
      → Rising t times
      → k < laps d start times
      → (n' : Node) × (resolve_loop net threshold times n ≡ some (n', true))
        × Running entries n'
        × (resolved n'.static_neighbors ≡ true)
  unfolding laps
  loop-ends d k start t [] n r prompt rising enough = absurd (omega arith)
  loop-ends d zero start t (t' ∷ times) n r prompt rising enough =
      let met = round-AllTried t' n r in
      let over = none_left d start t n.static_neighbors prompt in
      (
        met.0,
        resolve_loop-over net threshold t' times n met.0 met.1 over,
        met.2,
        tried-resolved t' n.static_neighbors met.0.static_neighbors over met.3,
      )
  loop-ends d (suc k) start t (t' ∷ times) n r prompt rising enough =
      let met = round-AllTried t' n r in
      elim (Bool-cases (resolved n.static_neighbors)) [
        | inl over ↦ (
          met.0,
          resolve_loop-over net threshold t' times n met.0 met.1 over,
          met.2,
          tried-resolved t' n.static_neighbors met.0.static_neighbors over met.3,
        )
        | inr left ↦
            let rest : (n'' : Node) × (resolve_loop net threshold times met.0 ≡ some (n'', true))
                × Running entries n''
                × (resolved n''.static_neighbors ≡ true) =
              elim (Bool-cases (leb (start + d) t')) [
                | inl lap ↦
                    loop-ends d k t' t' times met.0 met.2
                      (All-tried (IsPrompt d (suc k) start t) (IsPrompt d k t' t') t'
                        n.static_neighbors met.0.static_neighbors
                        (λ nb nb'.
                          next-IsPrompt d k start t t' nb nb' rising.0
                            (le-of-leb (start + d) t' lap))
                        prompt met.3)
                      rising.1 (omega (arith, enough, laps-next d start t' times lap))
                | inr within ↦
                    loop-ends d (suc k) start t' times met.0 met.2
                      (All-tried (IsPrompt d (suc k) start t) (IsPrompt d (suc k) start t') t'
                        n.static_neighbors met.0.static_neighbors
                        (λ nb nb'. within-IsPrompt d (suc k) start t t' nb nb' rising.0) prompt
                        met.3)
                      rising.1 (omega (arith, enough, laps-within d start t' times within))
              ] in
            (
              rest.0,
              resolve_loop-next net threshold t' times n met.0 met.1 left met.2.going.1 ∙ rest.1,
              rest.2,
              rest.3,
            )
      ]

  -- In a node that runs, where the neighbors answer with nicknames that fit, the timers of the static neighbors
  -- take at most `d` and were started by the time `start`, and none has more than `k` trials: however many
  -- rounds the loop over the static neighbors makes, without a pause or with one, it has ended once `d` has
  -- passed one time more than `k` since then, with no trial left, and with a node that runs.
  pub resolve_loop-ends :
      (d k start : ℕ) (times : List ℕ) (n : Node)
      → Running entries n
      → All (IsFresh d k start) n.static_neighbors
      → Rising start times
      → k < laps d start times
      → (n' : Node) × (resolve_loop net threshold times n ≡ some (n', true))
        × Running entries n'
        × (resolved n'.static_neighbors ≡ true)
  resolve_loop-ends d k start times n r fresh rising enough =
      loop-ends d k start start times n r (fresh-IsPrompt d k start n.static_neighbors fresh) rising
        enough
