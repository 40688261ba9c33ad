-- ===== src/System/Screen/Listing.antt =====
-- The contacts window lists the contacts of the engine (engine/src, contacts/src).
use mathlib.Core.Path.{subst}
use terminal_teams.Prelude.{
  List, [], ap, arith, false, inl, inr, length, refl, some, sym, true, ℕ, ◌<◌, ◌∙◌, ◌∷◌, ◌≡◌,
}
use terminal_teams.Contacts.Message.{Message}
use terminal_teams.Contacts.Handler
use terminal_teams.Contacts.View.{replay, view}
use terminal_teams.Engine.Node.{Node}
use terminal_teams.System.Screen.{
  System, with_queue, Turn, takes, shows, Reach, IsShown, Turns, stay, turn,
}
use terminal_teams.System.Screen.Drawing.{handle-head}
use terminal_teams.System.Screen.Steps.{Good, queue_of, caught_up, Turn-Good, Reach-Good}

Turns-trans : {s s' s'' : System} → Turns s s' → Turns s' s'' → Turns s s''
Turns-trans stay t = t
Turns-trans (turn one own rest) t = turn one own (Turns-trans rest t)

Turns-Good : {s s' : System} → Turns s s' → Good s → Good s'
Turns-Good stay g = g
Turns-Good (turn one own rest) g = Turns-Good rest (Turn-Good one g)

-- The messages in the hands of the main thread are handed over, one by one.
drain :
    (s : System) (ms : List Message)
    → s.carried ≡ ms
    → Good s
    → (s' : System) × Turns s s' × (s'.node ≡ s.node) × (s'.carried ≡ [])
drain s [] at g = (s, stay, refl, at)
drain s (m ∷ ms) at g =
    let taken =
      handle-head s.window m ms g.entries g.shown
        (subst (λ (q : List Message). replay s.window.entries q ≡ some g.entries) at g.follows) in
    let step : Turn s (record s { carried = ms; window = taken.0 }) =
      shows m ms taken.0 true g.runs.ready.live g.going at taken.1 in
    let rest = drain (record s { carried = ms; window = taken.0 }) ms refl (Turn-Good step g) in
    (rest.0, turn step tt rest.1, rest.2, rest.3)

view-not_empty :
    (c : ℕ) (contacts : List Handler.Entry) → c < length contacts → view contacts ≡ [] → ⊥
view-not_empty c [] lt e = omega arith
view-not_empty c (x ∷ xs) lt e = cc

Good-lists :
    (s : System)
    → Good s
    → s.carried ≡ []
    → s.node.contacts.queued ≡ []
    → (s.window.entries ≡ view s.node.contacts.contacts) × IsShown s.window
Good-lists s g none_carried none_queued =
    let same_entries =
      caught_up s.window.entries g.entries s.carried none_carried g.follows
      ∙ caught_up g.entries (view s.node.contacts.contacts) s.node.contacts.queued none_queued
          (queue_of g.runs) in
    (
      same_entries,
      elim g.shown [
        | inl empty ↦ absurd (
            view-not_empty g.runs.current.0 s.node.contacts.contacts
              (g.runs.ready.inv.in_range g.runs.current.0 g.runs.current.1)
              (sym same_entries ∙ empty))
        | inr drawn ↦ drawn
      ],
    )

-- In every state of an engine and its window that can be reached, where no message waits in the queue of
-- the contacts handler or in the hands of its main thread: the entries of the window are the handler's
-- contacts, and the last picture on the screen is theirs.
pub Reach-lists :
    {s : System}
    → Reach s
    → s.carried ≡ []
    → s.node.contacts.queued ≡ []
    → (s.window.entries ≡ view s.node.contacts.contacts) × IsShown s.window
Reach-lists {s} reached = Good-lists s (Reach-Good reached)

-- From every such state, whatever waits, turns of the main thread, alone or with the window, and of nobody else lead to one where
-- the window lists the contacts that the engine has, and shows them, and has not stopped.
pub Reach-catches_up :
    {s : System}
    → Reach s
    → (s' : System) × Turns s s'
      × (s'.node ≡ with_queue s.node [])
      × (s'.window.entries ≡ view s.node.contacts.contacts)
      × IsShown s'.window
      × (s'.window.stopped ≡ false)
Reach-catches_up {s} reached =
    let g = Reach-Good reached in
    let emptied = drain s s.carried refl g in
    let taken : System = record (emptied.0) {
      node = with_queue emptied.0.node [];
      carried = emptied.0.node.contacts.queued;
    } in
    let emptying : Turn emptied.0 taken =
      takes (Turns-Good emptied.1 g).runs.ready.live emptied.3 in
    let good = Turn-Good emptying (Turns-Good emptied.1 g) in
    let done = drain taken taken.carried refl good in
    let g' = Turns-Good done.1 good in
    let same_node = done.2 ∙ ap (λ (n : Node). with_queue n []) emptied.2 in
    let listed = Good-lists done.0 g' done.3 (ap (λ (n : Node). n.contacts.queued) same_node) in
    (
      done.0,
      Turns-trans emptied.1 (turn emptying tt done.1),
      same_node,
      listed.0 ∙ ap (λ (n : Node). view n.contacts.contacts) same_node,
      listed.1,
      g'.going,
    )
