-- ===== src/Engine/Running/Watching.antt =====
-- A round over the dynamic neighbors (engine/src/TTBroadcasterDiscovery.cpp, `resolveDynamicNeighbors`)
-- in a node that runs.
use mathlib.Core.Path.{subst}
use terminal_teams.Prelude.{
  All, Bool, Bool-cases, Bytes, List, Option, [], ap, arith, false, get_elem?-some, if◌then◌else◌,
  inl, inr, is_empty, length, none, not, refl, some, sym, true, ℕ, ◌&&◌, ◌+◌, ◌-◌, ◌<◌, ◌==◌, ◌>>=◌,
  ◌∙◌, ◌∷◌, ◌≡◌,
}
use terminal_teams.Contacts.Handler
use terminal_teams.Contacts.Handler.{Entry}
use terminal_teams.Contacts.Window as Window
use terminal_teams.Contacts.Operations.{Kept}
use terminal_teams.Contacts.Success.{activate-live, deactivate-live}
use terminal_teams.Engine.Message.{Network, create_stub}
use terminal_teams.Engine.Timer.{expired, kick}
use terminal_teams.Engine.Node.{Node, DynamicNeighbor, inactivity_trials, stop_discovery}
use terminal_teams.Engine.Discovery.{
  get_own, get_identity, Visited, beat, miss, contact, visit_dynamic, visit_dynamics, dynamic_round,
}
use terminal_teams.Engine.Running.{Running, IsBelow, RunsOn, first_contact, moved-Running}
use terminal_teams.Engine.Running.Keys.{SameKeys, SameKeys-IsBelow}

abbrev size : Node → ℕ
size n = length n.contacts.contacts

module _ (entries : List Window.Entry) where
  get_identity-same : (n : Node) → Running entries n → (get_identity n).0 ≡ n
  unfolding get_identity get_own
  get_identity-same n r = rw ((first_contact r).1, get_own) refl

  -- What a heartbeat that was answered, or not, does to the contact.
  pulse-live :
      (n : Node) (id : ℕ) (alive : Bool)
      → Running entries n
      → id < size n
      → (h : Handler.Handler) × ((if alive
            then Handler.activate n.contacts id
            else Handler.deactivate n.contacts id)
          ≡ some (h, true))
        × Kept entries n.contacts h
  pulse-live n id true r lt = activate-live entries n.contacts id r.ready.inv r.ready.live lt
  pulse-live n id false r lt = deactivate-live entries n.contacts id r.ready.inv r.ready.live lt

  Kept-Running :
      (n : Node) (h : Handler.Handler)
      → Running entries n
      → Kept entries n.contacts h
      → Running entries (record n { contacts = h })
  Kept-Running n h r k =
      moved-Running h n.chat r.current.0 r
        (record {
          inv = k.0;
          live = k.1.same_stopped ∙ r.ready.live;
          chat_live = record {
            live = r.ready.chat_live.live;
            at = r.ready.chat_live.at ∙ sym k.1.same_current;
            many = r.ready.chat_live.many ∙ sym k.1.same_size;
          };
        })
        (k.1.same_current ∙ r.current.1) (omega (arith, k.1.same_size))

  -- The visit has a defined result, with as many contacts, and the loop goes on.
  abbrev Watches : Node → Option Visited → Type 0
  Watches n o =
      (v : Visited) × (o ≡ some v)
      × Running entries v.node
      × (size v.node ≡ size n)
      × (v.goes_on ≡ true)

  beat-Watches :
      (net : Network) (now : ℕ) (n : Node) (id : ℕ) (stub : Bytes) (nb : DynamicNeighbor)
      → Running entries n
      → id < size n
      → Watches n (beat net now n id stub nb)
  unfolding beat
  beat-Watches net now n id stub nb r lt =
      let me = get_identity n in
      let same_node = get_identity-same n r in
      let response = net.heartbeats id stub (record { identity = me.1 }) in
      let alive = response.status && not (is_empty response.identity) in
      let renewed : DynamicNeighbor =
        if alive then record nb { trials = inactivity_trials + 1 } else nb in
      let r' = subst (Running entries) (sym same_node) r in
      let same_size = ap size same_node in
      let done = pulse-live me.0 id alive r' (omega (arith, same_size, lt)) in
      (
        record {
          node = record (me.0) { contacts = done.0 };
          neighbor = record renewed { trials = renewed.trials - 1; timer = kick renewed.timer now };
          goes_on = true;
        },
        rw (done.1, beat) refl,
        Kept-Running me.0 done.0 r' done.2,
        done.2.1.same_size ∙ same_size,
        refl,
      )

  linked-Watches :
      (net : Network) (now : ℕ) (n : Node) (id : ℕ) (nb : DynamicNeighbor) (stub : Option Bytes)
      → Running entries n
      → id < size n
      → Watches n (elim stub [ none ↦ some (miss now n nb) | some s ↦ beat net now n id s nb ])
  unfolding miss
  linked-Watches net now n id nb none r lt = (miss now n nb, refl, r, refl, refl)
  linked-Watches net now n id nb (some s) r lt = beat-Watches net now n id s nb r lt

  contact-Watches :
      (net : Network) (now : ℕ) (n : Node) (id : ℕ) (nb : DynamicNeighbor)
      → Running entries n
      → id < size n
      → Watches n (contact net now n id nb)
  unfolding contact Handler.get
  contact-Watches net now n id nb r lt = go nb.stub
    where
      go :
          (o : Option Bytes)
          → Watches n (elim o [
            | some stub ↦ beat net now n id stub nb
            | none ↦ elim (Handler.get n.contacts id) [
              | none ↦ some (record { node = stop_discovery n; neighbor = nb; goes_on = false })
              | some e ↦
                  let stub = create_stub net e.ip_address_and_port in
                  let nb' = record nb { stub = stub } in
                  elim stub [ none ↦ some (miss now n nb') | some s ↦ beat net now n id s nb' ]
            ]
          ])
      go (some stub) = beat-Watches net now n id stub nb r lt
      go none =
          let at = get_elem?-some n.contacts.contacts id lt in
          let link = create_stub net at.0.ip_address_and_port in
          let met = linked-Watches net now n id (record nb { stub = link }) link r lt in
          (met.0, rw (at.1) met.1, met.2, met.3, met.4)

  visit_dynamic-Watches :
      (net : Network) (now : ℕ) (n : Node) (id : ℕ) (nb : DynamicNeighbor)
      → Running entries n
      → id < size n
      → Watches n (visit_dynamic net now n id nb)
  unfolding visit_dynamic
  visit_dynamic-Watches net now n id nb r lt = elim (Bool-cases (expired nb.timer now)) [
    | inr late ↦ (
      record { node = n; neighbor = nb; goes_on = true },
      rw (late, visit_dynamic) refl,
      r,
      refl,
      refl,
    )
    | inl due ↦ elim (Bool-cases (nb.trials == 0)) [
      | inl over ↦ (
        record { node = n; neighbor = nb; goes_on = true },
        rw (due, over, visit_dynamic) refl,
        r,
        refl,
        refl,
      )
      | inr left ↦
          let met = contact-Watches net now n id nb r lt in
          (met.0, rw (due, left, visit_dynamic) met.1, met.2, met.3, met.4)
    ]
  ]

  visit_dynamics-step :
      (net : Network) (now : ℕ) (n : Node) (id : ℕ) (nb : DynamicNeighbor) (v : Visited)
      (rest rest2 : List (ℕ × DynamicNeighbor)) (n2 : Node)
      → n.discovery_stopped ≡ false
      → visit_dynamic net now n id nb ≡ some v
      → v.goes_on ≡ true
      → visit_dynamics net now v.node rest ≡ some (n2, rest2)
      → visit_dynamics net now n ((id, nb) ∷ rest) ≡ some (n2, (id, v.neighbor) ∷ rest2)
  unfolding visit_dynamics
  visit_dynamics-step net now n id nb v rest rest2 n2 live met goes_on later =
      ap
        (λ (b : Bool).
          if b
          then some (n, (id, nb) ∷ rest)
          else (visit_dynamic net now n id nb >>= λ r. elim r.goes_on [
            | true ↦ visit_dynamics net now r.node rest >>= λ s. some (s.0, (id, r.neighbor) ∷ s.1)
            | false ↦ some (r.node, (id, r.neighbor) ∷ rest)
          ]))
        live
      ∙ ap
          (λ (o : Option Visited). o >>= λ r. elim r.goes_on [
            | true ↦ visit_dynamics net now r.node rest >>= λ s. some (s.0, (id, r.neighbor) ∷ s.1)
            | false ↦ some (r.node, (id, r.neighbor) ∷ rest)
          ])
          met
      ∙ ap
          (λ (b : Bool). elim b [
            | true ↦ visit_dynamics net now v.node rest >>= λ s. some (s.0, (id, v.neighbor) ∷ s.1)
            | false ↦ some (v.node, (id, v.neighbor) ∷ rest)
          ])
          goes_on
      ∙ ap
          (λ (o : Option (Node × List (ℕ × DynamicNeighbor))).
            o >>= λ s. some (s.0, (id, v.neighbor) ∷ s.1))
          later

  visit_dynamics-Runs :
      (net : Network) (now : ℕ) (n : Node) (nbs : List (ℕ × DynamicNeighbor))
      → Running entries n
      → All (IsBelow (size n)) nbs
      → (n' : Node) × (nbs' : List (ℕ × DynamicNeighbor)) × (visit_dynamics net now n nbs
          ≡ some (n', nbs'))
        × Running entries n'
        × (size n' ≡ size n)
        × SameKeys nbs nbs'
  unfolding visit_dynamics
  visit_dynamics-Runs net now n [] r below = (n, [], refl, r, refl, tt)
  visit_dynamics-Runs net now n ((id, nb) ∷ rest) r below =
      let met = visit_dynamic-Watches net now n id nb r below.0 in
      let kept = subst (λ k. All (IsBelow k) rest) (sym met.3) below.1 in
      let later = visit_dynamics-Runs net now met.0.node rest met.2 kept in
      (
        later.0,
        (id, met.0.neighbor) ∷ later.1,
        visit_dynamics-step net now n id nb met.0 rest later.1 later.0 r.going.1 met.1 met.4
            later.2,
        later.3,
        later.4 ∙ met.3,
        (refl, later.5),
      )

  with_dynamics-Running :
      (n : Node) (nbs : List (ℕ × DynamicNeighbor))
      → Running entries n
      → All (IsBelow (size n)) nbs
      → Running entries (record n { dynamic_neighbors = nbs })
  with_dynamics-Running n nbs r below = record {
    ready = r.ready;
    current = r.current;
    ascending = r.ascending;
    known = r.known;
    watched = below;
    going = r.going;
  }

  -- A round over the dynamic neighbors, whatever they answer.
  pub dynamic_round-Running :
      (net : Network) (now : ℕ) (n : Node)
      → Running entries n
      → RunsOn entries (dynamic_round net now n)
  unfolding dynamic_round
  dynamic_round-Running net now n r =
      let all = visit_dynamics-Runs net now n n.dynamic_neighbors r r.watched in
      (
        record (all.0) { dynamic_neighbors = all.1 },
        rw (all.2, dynamic_round) refl,
        with_dynamics-Running all.0 all.1 all.3 (
            SameKeys-IsBelow (size all.0) n.dynamic_neighbors all.1 all.5
              (subst (λ k. All (IsBelow k) n.dynamic_neighbors) (sym all.4) r.watched)),
      )
