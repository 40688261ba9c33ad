-- ===== src/System/Peers.antt =====
-- What a call of a neighbor (engine/src/TTNeighborsServiceChat.cpp, TTBroadcasterChat.cpp, `handleReceive`)
-- stores in the chat handler (chat/src/TTChatHandler.cpp) of an engine that runs.
pub mod Serving
pub mod Round
pub mod Tests
use mathlib.Core.Path.{subst}
use terminal_teams.Prelude.{
  Bool, Bool-cases, Bytes, List, Option, [], ap, append-nil, append_assoc, false, get_elem?,
  get_elem?-lt, get_elem?-set_ne, get_elem?-set_self, inl, inr, refl, same, set, some, sym, true, ℕ,
  ◌++◌, ◌∙◌, ◌∷◌, ◌≡◌, ◌≢◌,
}
use terminal_teams.Contacts.State.{is_inactive}
use terminal_teams.Contacts.Handler
use terminal_teams.Contacts.Window as Window
use terminal_teams.Contacts.Success.{receive-live}
use terminal_teams.Chat.Message.{Entry, receiver}
use terminal_teams.Chat.Handler as ChatHandler
use terminal_teams.Chat.Operations.{receive-here, receive-aside, said}
use terminal_teams.Engine.Node.{Node}
use terminal_teams.Engine.Chat.{receive_all, receive_from}
use terminal_teams.Engine.Running.{Running}
use terminal_teams.Engine.Running.Receiving.{receive_all-step, heard-Runs}

abbrev pub received_entry : ℕ → Bytes → Entry
received_entry now m = record { type = receiver; timestamp = now; text = m }

abbrev pub received_entries : ℕ → List Bytes → List Entry
received_entries now [] = []
received_entries now (m ∷ ms) = received_entry now m ∷ received_entries now ms

-- The messages stand behind `storage` at the end of the conversation `id`, and the others are as before.
pub record Grown (id now : ℕ) (ms : List Bytes) (storage : List Entry)
    (before after : ChatHandler.Handler) : Type 0 where
  pub grown : get_elem? after.messages id ≡ some (storage ++ received_entries now ms)
  pub others :
      (other : ℕ) → id ≢ other → get_elem? after.messages other ≡ get_elem? before.messages other

-- A message is received, and nothing but one conversation and the queue changes.
record Received (id now : ℕ) (m : Bytes) (storage : List Entry) (h : ChatHandler.Handler)
    (r : ChatHandler.Handler × Bool) : Type 0 where
  done : r.1 ≡ true
  live : r.0.stopped ≡ false
  stored : r.0.messages ≡ set h.messages id (storage ++ received_entry now m ∷ [])

receive-Received :
    (h : ChatHandler.Handler) (id now : ℕ) (m : Bytes) (storage : List Entry)
    → h.stopped ≡ false
    → get_elem? h.messages id ≡ some storage
    → Received id now m storage h (ChatHandler.receive h id m now)
unfolding said
receive-Received h id now m storage live found = elim (Bool-cases (ChatHandler.is_current h id)) [
  | inl here ↦
      subst (Received id now m storage h) (sym (receive-here h id m now storage live found here))
        (record { done = refl; live = live; stored = refl })
  | inr other ↦
      subst (Received id now m storage h) (sym (receive-aside h id m now storage live found other))
        (record { done = refl; live = live; stored = refl })
]

-- The loop over the messages of a call.
receive_all-Grown :
    (n : Node) (id : ℕ) (ms : List Bytes) (now : ℕ) (storage : List Entry)
    → n.chat.stopped ≡ false
    → get_elem? n.chat.messages id ≡ some storage
    → (n' : Node) × (receive_all n id ms now ≡ some (n', true))
      × Grown id now ms storage n.chat n'.chat
unfolding receive_all
receive_all-Grown n id [] now storage live found = (
  n,
  refl,
  record { grown = found ∙ ap some (sym (append-nil storage)); others = λ other differs. refl },
)
receive_all-Grown n id (m ∷ ms) now storage live found =
    let got = receive-Received n.chat id now m storage live found in
    let n1 : Node = record n { chat = (ChatHandler.receive n.chat id m now).0 } in
    let longer = storage ++ received_entry now m ∷ [] in
    let found1 : get_elem? n1.chat.messages id ≡ some longer =
      ap (λ (xs : List (List Entry)). get_elem? xs id) got.stored
      ∙ get_elem?-set_self n.chat.messages id longer
          (get_elem?-lt n.chat.messages id storage found) in
    let rest = receive_all-Grown n1 id ms now longer got.live found1 in
    (
      rest.0,
      receive_all-step n id m ms now got.done ∙ rest.1,
      record {
        grown =
            rest.2.grown
            ∙ ap some (append_assoc storage (received_entry now m ∷ []) (received_entries now ms));
        others = λ other differs.
            rest.2.others other differs
            ∙ ap (λ (xs : List (List Entry)). get_elem? xs other) got.stored
            ∙ get_elem?-set_ne n.chat.messages id other longer differs;
      },
    )

same_result :
    (o : Option (Node × Bool)) (n n' : Node) (b b' : Bool)
    → o ≡ some (n, b)
    → o ≡ some (n', b')
    → n ≡ n'
same_result o n n' b b' e e' = cc

-- The sender is the contact `id`, which counts as active, and has another address than the node.
pub record Knows (n : Node) (identity : Bytes) (id : ℕ) : Type 0 where
  pub entry : Handler.Entry
  pub named : Handler.get_by_identity n.contacts identity ≡ some id
  pub found : Handler.get n.contacts id ≡ some entry
  pub here : is_inactive entry.state ≡ false
  pub far : same entry.ip_address_and_port n.own_address ≡ false

-- Messages of a contact are taken, and the node runs on.
pub record Takes (entries : List Window.Entry) (id now : ℕ) (ms : List Bytes) (storage : List Entry)
    (n n' : Node) : Type 0 where
  pub runs : Running entries n'
  pub stores : Grown id now ms storage n.chat n'.chat

pub receive_from-Takes :
    {entries : List Window.Entry} (n : Node) (identity : Bytes) (ms : List Bytes) (id now : ℕ)
    (storage : List Entry)
    → Running entries n
    → Knows n identity id
    → get_elem? n.chat.messages id ≡ some storage
    → (n' : Node) × (receive_from n identity ms now ≡ some (n', true))
      × Takes entries id now ms storage n n'
unfolding receive_from Handler.get
receive_from-Takes {entries} n identity ms id now storage r k found =
    let counted =
      receive-live entries n.contacts id k.entry r.ready.inv r.ready.live k.found k.here in
    let stored =
      receive_all-Grown (record n { contacts = counted.0 }) id ms now storage r.ready.chat_live.live
        found in
    let e : receive_from n identity ms now ≡ some (stored.0, true) =
      rw (k.named, k.found, k.far, counted.1, receive_from) stored.1 in
    let ran = heard-Runs entries n identity ms now id k.entry r k.named k.found k.here in
    let same_node =
      same_result (receive_from n identity ms now) ran.0 stored.0 ran.1 true ran.2 e in
    (stored.0, e, record { runs = subst (Running entries) same_node ran.3; stores = stored.2 })
