-- ===== src/Engine/Activating.antt =====
-- Neighbors that are heard of again (engine/src/TTBroadcasterDiscovery.cpp, `handleHeartbeat` and the first
-- case of `addNeighbor`), in a node that is ready.
use terminal_teams.Prelude.{
  Bool, Bytes, List, Option-cases, [], arith, false, inl, inr, length, refl, some, sym, true, ℕ,
  ◌<◌, ◌∙◌, ◌∷◌, ◌≡◌,
}
use terminal_teams.Contacts.Handler
use terminal_teams.Contacts.Handler.{find_identity}
use terminal_teams.Contacts.Window as Window
use terminal_teams.Contacts.Invariant.{Inv, Known}
use terminal_teams.Contacts.Success.{activate-live}
use terminal_teams.Engine.Message.{HeartbeatRequest}
use terminal_teams.Engine.Node.{Node, Outcome}
use terminal_teams.Engine.Discovery.{activate_known, handle_heartbeat}
use terminal_teams.Engine.Ready.{Ready}

find_identity-Known :
    (n : ℕ) (ids : List (Bytes × ℕ)) (identity : Bytes) (id : ℕ)
    → Known n ids
    → find_identity ids identity ≡ some id
    → id < n
unfolding find_identity
find_identity-Known n [] identity id k found = cc
find_identity-Known n ((key, first) ∷ rest) identity id k found =
    let later =
      λ (h : find_identity rest identity ≡ some id). find_identity-Known n rest identity id k.1 h in
    ground (arith, later, k.0, found)

pub known-lt :
    (entries : List Window.Entry) (c : Handler.Handler) (identity : Bytes) (id : ℕ)
    → Inv entries c
    → Handler.get_by_identity c identity ≡ some id
    → id < length c.contacts
unfolding Handler.get_by_identity
known-lt entries c identity id v found =
    find_identity-Known (length c.contacts) c.identity_map identity id v.known found

-- The call has a defined result; the node is ready after it and no part of it was stopped.
abbrev pub Joined : List Window.Entry → Node → Outcome → Type 0
Joined entries n o =
    (n' : Node) × (done : Bool) × (o ≡ some (n', done))
    × Ready entries n'
    × (n'.contacts.current_contact ≡ n.contacts.current_contact)
    × (n'.discovery_stopped ≡ n.discovery_stopped)
    × (n'.chat_stopped ≡ n.chat_stopped)

pub activate_known-eq :
    (n : Node) (id : ℕ) (h' : Handler.Handler)
    → Handler.activate n.contacts id ≡ some (h', true)
    → activate_known n id ≡ some (record n { contacts = h' }, true)
unfolding activate_known
activate_known-eq n id h' done = rw (done, activate_known) refl

pub activate_known-Joined :
    (entries : List Window.Entry) (n : Node) (id : ℕ)
    → Ready entries n
    → id < length n.contacts.contacts
    → Joined entries n (activate_known n id)
activate_known-Joined entries n id r lt =
    let done = activate-live entries n.contacts id r.inv r.live lt in
    let frame = done.2.1 in
    (
      record n { contacts = done.0 },
      true,
      activate_known-eq n id done.0 done.1,
      record {
        inv = done.2.0;
        live = frame.same_stopped ∙ r.live;
        chat_live = record {
          live = r.chat_live.live;
          at = r.chat_live.at ∙ sym frame.same_current;
          many = r.chat_live.many ∙ sym frame.same_size;
        };
      },
      frame.same_current,
      refl,
      refl,
    )

-- A heartbeat from a neighbor, known or not, leaves a ready node ready and stops nothing.
handle_heartbeat-Ready :
    (entries : List Window.Entry) (n : Node) (request : HeartbeatRequest)
    → Ready entries n
    → (n' : Node) × (done : Bool) × (handle_heartbeat n request ≡ some (n', done))
      × Ready entries n'
      × (n'.contacts.current_contact ≡ n.contacts.current_contact)
      × (n'.discovery_stopped ≡ n.discovery_stopped)
      × (n'.chat_stopped ≡ n.chat_stopped)
unfolding handle_heartbeat
handle_heartbeat-Ready entries n request r =
    elim (Option-cases (Handler.get_by_identity n.contacts request.identity)) [
      | inl missing ↦ (n, false, rw (missing, handle_heartbeat) refl, r, refl, refl, refl)
      | inr found ↦
          let joined =
            activate_known-Joined entries n found.0 r
              (known-lt entries n.contacts request.identity found.0 r.inv found.1) in
          (
            joined.0,
            joined.1,
            rw (found.1, handle_heartbeat) joined.2,
            joined.3,
            joined.4,
            joined.5,
            joined.6,
          )
    ]
