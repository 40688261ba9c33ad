-- ===== src/Engine/Resolve.antt =====
-- A round over the static neighbors (engine/src/TTBroadcasterDiscovery.cpp, `resolveStaticNeighbors`) in
-- a node that is ready.
use terminal_teams.Prelude.{
  Bool, Bool-cases, Bytes, List, Option, Option-cases, [], ap, arith, eq-of-==, false,
  if◌then◌else◌, inl, inr, length, none, refl, some, true, ℕ, ◌+◌, ◌-◌, ◌<◌, ◌==◌, ◌>>=◌, ◌∙◌, ◌∷◌,
  ◌≡◌, ◌⊎◌,
}
use terminal_teams.Contacts.Handler
use terminal_teams.Contacts.Handler.{Entry}
use terminal_teams.Contacts.Message.{data_max_length}
use terminal_teams.Contacts.Window as Window
use terminal_teams.Engine.Message.{Network, GreetRequest, GreetResponse, create_stub}
use terminal_teams.Engine.Timer.{expired, kick}
use terminal_teams.Engine.Node.{Node, Outcome, StaticNeighbor}
use terminal_teams.Engine.Discovery.{
  get_own, get_nickname, get_identity, get_ip_address_and_port, greet, visit_static, visit_statics,
  static_round, add_neighbor,
}
use terminal_teams.Engine.Ready.{Ready}
use terminal_teams.Engine.Joining.{add_neighbor-Ready}

-- The neighbors answer greetings with nicknames that fit.
abbrev pub IsPolite : Network → Type 0
IsPolite net =
    (place : ℕ) (stub : Bytes) (request : GreetRequest)
    → length (net.greets place stub request).nickname < data_max_length

-- Nothing was tried, since no trial is left or the timer runs; or the timer had expired and starts again,
-- and there are fewer trials.
abbrev pub IsTried : ℕ → StaticNeighbor → StaticNeighbor → Type 0
IsTried now before after =
    ((after ≡ before) × ((before.trials ≡ 0) ⊎ (expired before.timer now ≡ false)))
    ⊎ ((expired before.timer now ≡ true)
        × (after.trials < before.trials)
        × (after.timer ≡ kick before.timer now))

abbrev pub AllTried : ℕ → List StaticNeighbor → List StaticNeighbor → Type 0
AllTried now [] [] = Unit {0}
AllTried now [] (y ∷ ys) = ⊥
AllTried now (x ∷ xs) [] = ⊥
AllTried now (x ∷ xs) (y ∷ ys) = IsTried now x y × AllTried now xs ys

get_own-Ready :
    (entries : List Window.Entry) (field : Entry → Bytes) (n : Node)
    → Ready entries n
    → Ready entries (get_own field n).0
unfolding get_own
get_own-Ready entries field n r = elim (Option-cases (Handler.get n.contacts 0)) [
  | inl missing ↦ rw (missing, get_own) r
  | inr found ↦ rw (found.1, get_own) r
]

unfoldable pub greeting : Node → Node × GreetRequest
greeting n =
    let name = get_nickname n in
    let me = get_identity name.0 in
    let address = get_ip_address_and_port me.0 in
    (address.0, record { nickname = name.1; identity = me.1; ip_address_and_port = address.1 })

greeting-Ready :
    (entries : List Window.Entry) (n : Node) → Ready entries n → Ready entries (greeting n).0
unfolding greeting get_nickname get_identity get_ip_address_and_port
greeting-Ready entries n r =
    let name = get_own-Ready entries (λ e. e.nickname) n r in
    let me = get_own-Ready entries (λ e. e.identity) (get_nickname n).0 name in
    get_own-Ready entries (λ e. e.ip_address_and_port) (get_identity (get_nickname n).0).0 me

-- The call has a defined result, and the node has the property after it.
abbrev pub Returns : (Node → Type 0) → Outcome → Type 0
Returns P o = (n' : Node) × (done : Bool) × (o ≡ some (n', done)) × P n'

unfoldable pub answered : ℕ → ℕ → Node → Bytes → GreetResponse → Outcome
answered threshold now n stub response =
    if response.status
    then add_neighbor threshold now n response.nickname response.identity
        response.ip_address_and_port (some stub)
    else some (n, false)

answered-Returns :
    (entries : List Window.Entry) (threshold now : ℕ) (n : Node) (stub : Bytes)
    (response : GreetResponse)
    → Ready entries n
    → length response.nickname < data_max_length
    → Returns (Ready entries) (answered threshold now n stub response)
unfolding answered
answered-Returns entries threshold now n stub response r short = elim (Bool-cases response.status) [
  | inr silent ↦ (n, false, rw (silent, answered) refl, r)
  | inl agreed ↦
      let joined =
        add_neighbor-Ready entries threshold now n response.nickname response.identity
          response.ip_address_and_port (some stub) r short in
      (joined.0, joined.1, rw (agreed, answered) joined.2, joined.3)
]

greet-Returns :
    (entries : List Window.Entry) (net : Network) (threshold now : ℕ) (n : Node) (place : ℕ)
    (stub : Bytes)
    → IsPolite net
    → Ready entries n
    → Returns (Ready entries) (greet net threshold now n place stub)
unfolding greet greeting answered
greet-Returns entries net threshold now n place stub polite r =
    answered-Returns entries threshold now (greeting n).0 stub
      (net.greets place stub (greeting n).1) (greeting-Ready entries n r)
      (polite place stub (greeting n).1)

-- The visit with the result of the attempt to make a stub.
abbrev linked_to :
    Network → ℕ → ℕ → Node → ℕ → StaticNeighbor → Option Bytes → Option (Node × StaticNeighbor)
linked_to net threshold now n place tried link = elim link [
  | none ↦ some (n, tried)
  | some stub ↦ greet net threshold now n place stub >>= λ r.
      some (r.0, if r.1 then record tried { trials = 0 } else tried)
]

after_answer :
    (now : ℕ) (nb tried : StaticNeighbor) (b : Bool)
    → (nb.trials == 0) ≡ false
    → tried.trials ≡ nb.trials - 1
    → tried.timer ≡ kick nb.timer now
    → let nb' : StaticNeighbor = if b then record tried { trials = 0 } else tried in
      (nb'.trials < nb.trials) × (nb'.timer ≡ kick nb.timer now)
after_answer now nb tried true left e kicked = (ground arith, kicked)
after_answer now nb tried false left e kicked = (ground arith, kicked)

-- Each greeting keeps the property `P` of the node.
module _ (P : Node → Type 0) (net : Network) (threshold now : ℕ)
    (greeted : (n : Node) (place : ℕ) (stub : Bytes)
      → P n
      → Returns P (greet net threshold now n place stub)) where
  linked :
      (n : Node) (place : ℕ) (nb tried : StaticNeighbor) (link : Option Bytes)
      → P n
      → (nb.trials == 0) ≡ false
      → tried.trials ≡ nb.trials - 1
      → tried.timer ≡ kick nb.timer now
      → (n' : Node) × (nb' : StaticNeighbor) × (linked_to net threshold now n place tried link
          ≡ some (n', nb'))
        × P n'
        × (nb'.trials < nb.trials)
        × (nb'.timer ≡ kick nb.timer now)
  linked n place nb tried none r left e kicked =
      let spent = after_answer now nb tried false left e kicked in
      (n, tried, refl, r, spent.0, spent.1)
  linked n place nb tried (some stub) r left e kicked =
      let met = greeted n place stub r in
      let spent = after_answer now nb tried met.1 left e kicked in
      (
        met.0,
        (if met.1 then record tried { trials = 0 } else tried),
        ap
            (λ (o : Outcome).
              o >>= λ r. some (r.0, if r.1 then record tried { trials = 0 } else tried))
            met.2,
        met.3,
        spent.0,
        spent.1,
      )

  visit_static-IsTried :
      (n : Node) (place : ℕ) (nb : StaticNeighbor)
      → P n
      → (n' : Node) × (nb' : StaticNeighbor) × (visit_static net threshold now n place nb
          ≡ some (n', nb'))
        × P n'
        × IsTried now nb nb'
  unfolding visit_static
  visit_static-IsTried n place nb r = elim (Bool-cases (nb.trials == 0)) [
    | inl over ↦
        (n, nb, rw (over, visit_static) refl, r, inl (refl, inl (eq-of-== nb.trials 0 over)))
    | inr left ↦ elim (Bool-cases (expired nb.timer now)) [
      | inr runs ↦ (n, nb, rw (left, runs, visit_static) refl, r, inl (refl, inr runs))
      | inl due ↦
          let tried : StaticNeighbor = record nb {
            trials = nb.trials - 1;
            timer = kick nb.timer now;
          } in
          let met =
            linked n place nb tried (create_stub net nb.ip_address_and_port) r left refl refl in
          (met.0, met.1, rw (left, due, visit_static) met.2, met.3, inr (due, met.4, met.5))
    ]
  ]

  visit_statics-step :
      (n n1 n2 : Node) (place : ℕ) (nb nb1 : StaticNeighbor) (rest rest2 : List StaticNeighbor)
      → n.discovery_stopped ≡ false
      → visit_static net threshold now n place nb ≡ some (n1, nb1)
      → visit_statics net threshold now n1 (place + 1) rest ≡ some (n2, rest2)
      → visit_statics net threshold now n place (nb ∷ rest) ≡ some (n2, nb1 ∷ rest2)
  unfolding visit_statics
  visit_statics-step n n1 n2 place nb nb1 rest rest2 live met later =
      ap
        (λ (b : Bool).
          if b
          then some (n, nb ∷ rest)
          else (visit_static net threshold now n place nb >>= λ r.
              visit_statics net threshold now r.0 (place + 1) rest >>= λ s. some (s.0, r.1 ∷ s.1)))
        live
      ∙ ap
          (λ (o : Option (Node × StaticNeighbor)). o >>= λ r.
            visit_statics net threshold now r.0 (place + 1) rest >>= λ s. some (s.0, r.1 ∷ s.1))
          met
      ∙ ap (λ (o : Option (Node × List StaticNeighbor)). o >>= λ s. some (s.0, nb1 ∷ s.1)) later

  pub visit_statics-AllTried :
      (n : Node) (place : ℕ) (nbs : List StaticNeighbor)
      → P n
      → (n' : Node) × (nbs' : List StaticNeighbor) × (visit_statics net threshold now n place nbs
          ≡ some (n', nbs'))
        × P n'
        × ((n'.discovery_stopped ≡ true) ⊎ AllTried now nbs nbs')
  unfolding visit_statics
  visit_statics-AllTried n place [] r = (n, [], refl, r, inr tt)
  visit_statics-AllTried n place (nb ∷ rest) r = elim (Bool-cases n.discovery_stopped) [
    | inl stopped ↦ (n, nb ∷ rest, rw (stopped, visit_statics) refl, r, inl stopped)
    | inr live ↦
        let met = visit_static-IsTried n place nb r in
        let later = visit_statics-AllTried met.0 (place + 1) rest met.3 in
        (
          later.0,
          met.1 ∷ later.1,
          visit_statics-step n met.0 later.0 place nb met.1 rest later.1 live met.2 later.2,
          later.3,
          elim later.4 [ inl stopped ↦ inl stopped | inr tried ↦ inr (met.4, tried) ],
        )
  ]

-- In a ready node, where the neighbors answer with nicknames that fit, a round over the static neighbors
-- has a result and keeps the node ready. Unless the broadcaster is stopped then, every neighbor with
-- trials left whose timer had expired has fewer, with its timer started again, and the others are as before.
pub static_round-AllTried :
    (entries : List Window.Entry) (net : Network) (threshold now : ℕ) (polite : IsPolite net)
    (n : Node)
    → Ready entries n
    → (n' : Node) × (static_round net threshold now n ≡ some n')
      × Ready entries n'
      × ((n'.discovery_stopped ≡ true) ⊎ AllTried now n.static_neighbors n'.static_neighbors)
unfolding static_round
static_round-AllTried entries net threshold now polite n r =
    let all =
      visit_statics-AllTried (Ready entries) net threshold now
        (λ m place stub h. greet-Returns entries net threshold now m place stub polite h) n 0
        n.static_neighbors r in
    (record (all.0) { static_neighbors = all.1 }, rw (all.2, static_round) refl, all.3, all.4)
