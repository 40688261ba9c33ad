-- ===== src/Engine/Ready.antt =====
-- The node as the engine keeps it (engine/src/TTEngine.cpp, TTBroadcasterChat.cpp,
-- TTBroadcasterDiscovery.cpp): both handlers are live and agree, so no operation stops the node.
use mathlib.Core.Path.{subst}
use terminal_teams.Prelude.{
  List, arith, false, length, ltb, refl, some, sym, true, ℕ, ◌<◌, ◌∙◌, ◌≡◌,
}
use terminal_teams.Contacts.Handler
use terminal_teams.Contacts.Handler.{Entry}
use terminal_teams.Contacts.Window as Window
use terminal_teams.Contacts.Invariant.{Inv}
use terminal_teams.Contacts.Selection.{select-live}
use terminal_teams.Chat.Handler as ChatHandler
use terminal_teams.Chat.Success.{Live, select-Live}
use terminal_teams.Engine.Node.{Node}
use terminal_teams.Engine.Control.{selection}

-- `entries` are those of the contacts window before it reads what is queued.
pub record Agree (entries : List Window.Entry) (c : Handler.Handler) (chat : ChatHandler.Handler)
    : Type 0 where
  pub inv : Inv entries c
  pub live : c.stopped ≡ false
  pub chat_live : Live c.current_contact (length c.contacts) chat

abbrev pub Ready : List Window.Entry → Node → Type 0
Ready entries n = Agree entries n.contacts n.chat

pub Ready-same :
    (entries : List Window.Entry) (n n' : Node)
    → n'.contacts ≡ n.contacts
    → n'.chat ≡ n.chat
    → Ready entries n
    → Ready entries n'
Ready-same entries n n' c chat r =
    subst (λ (h : Handler.Handler). Agree entries h n'.chat) (sym c)
      (subst (Agree entries n.contacts) (sym chat) r)

pub selection-eq :
    (now : ℕ) (n : Node) (id : ℕ) (h' : Handler.Handler)
    → ltb id (Handler.size n.contacts) ≡ true
    → Handler.select n.contacts id ≡ some (h', true)
    → (ChatHandler.select n.chat id now).1 ≡ true
    → selection now n id
      ≡ some (record n { contacts = h'; chat = (ChatHandler.select n.chat id now).0 })
unfolding selection
selection-eq now n id h' lt chosen shown = rw (lt, chosen, shown, selection) refl

pub size-lt :
    (h : Handler.Handler) (id : ℕ)
    → id < Handler.size h
    → (ltb id (Handler.size h) ≡ true) × (id < length h.contacts)
unfolding Handler.size
size-lt h id lt = (ground arith, lt)

-- The selection of a contact that there is succeeds, keeps the node ready, and makes that contact the
-- current one of both handlers.
pub selection-Ready :
    (entries : List Window.Entry) (now : ℕ) (n : Node) (id : ℕ)
    → Ready entries n
    → id < Handler.size n.contacts
    → (n' : Node) × (selection now n id ≡ some n')
      × Ready entries n'
      × (n'.contacts.current_contact ≡ some id)
      × (n'.engine_stopped ≡ n.engine_stopped)
selection-Ready entries now n id r lt =
    let there = size-lt n.contacts id lt in
    let chosen = select-live entries n.contacts id r.inv r.live there.1 in
    let shown =
      select-Live n.contacts.current_contact (length n.contacts.contacts) n.chat id now r.chat_live
        there.1 in
    (
      record n { contacts = chosen.0; chat = (ChatHandler.select n.chat id now).0 },
      selection-eq now n id chosen.0 there.0 chosen.1 shown.0,
      record {
        inv = chosen.2;
        live = chosen.4;
        chat_live = record {
          live = shown.1.live;
          at = shown.1.at ∙ sym chosen.3;
          many = shown.1.many ∙ sym chosen.5;
        };
      },
      chosen.3,
      refl,
    )
