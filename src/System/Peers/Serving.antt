-- ===== src/System/Peers/Serving.antt =====
-- A tell or a narrate call (engine/src/TTNeighborsServiceChat.cpp) from a neighbor that an engine that runs
-- knows.
use terminal_teams.Prelude.{Bytes, List, [], ap, get_elem?, refl, some, true, ℕ, ◌∙◌, ◌∷◌, ◌≡◌}
use terminal_teams.Contacts.Window as Window
use terminal_teams.Chat.Message.{Entry}
use terminal_teams.Engine.Node.{Node, Outcome}
use terminal_teams.Engine.Chat.{
  receive_from, handle_receive_tell, handle_receive_narrate, get_identity,
}
use terminal_teams.Engine.Services.{Served, ok, tell, narrate, reply_with, chat_identity}
use terminal_teams.Engine.Narration.{narrate-told}
use terminal_teams.Engine.Wire.{requests, told-requests, requests-IsFrom}
use terminal_teams.Engine.Running.{Running, first_contact}
use terminal_teams.Engine.Running.Delivering.{get_identity-same}
use terminal_teams.System.Peers.{Knows, Takes, receive_from-Takes}

-- The call that brings the messages `m ∷ ms`: a tell of one, a narrate of several.
abbrev pub served : (Bytes → ℕ) → Node → Bytes → Bytes → List Bytes → ℕ → Served
served hasher n me m [] now = tell n true (some (record { identity = me; message = m })) true now
served hasher n me m (m' ∷ ms) now =
    narrate hasher n true (some (requests me (m ∷ m' ∷ ms))) true now

reply_with-done :
    {entries : List Window.Entry} (o : Outcome) (n : Node)
    → o ≡ some (n, true)
    → Running entries n
    → (reply : List Bytes) × (reply_with chat_identity o ≡ some (n, ok, reply))
unfolding reply_with chat_identity
reply_with-done {entries} o n e r =
    let own = first_contact r in
    ((get_identity n).1 ∷ [], rw (e, reply_with, get_identity-same n own.0 own.1) refl)

served-eq :
    (hasher : Bytes → ℕ) (n : Node) (me m : Bytes) (ms : List Bytes) (now : ℕ)
    → served hasher n me m ms now ≡ reply_with chat_identity (receive_from n me (m ∷ ms) now)
unfolding tell handle_receive_tell handle_receive_narrate
served-eq hasher n me m [] now = refl
served-eq hasher n me m (m' ∷ ms) now =
    narrate-told hasher n (record { identity = me; message = m }) (requests me (m' ∷ ms)) now
      (requests-IsFrom me (m' ∷ ms))
    ∙ ap (λ (ks : List Bytes). reply_with chat_identity (receive_from n me (m ∷ ks) now))
        (told-requests me (m' ∷ ms))

-- An engine that runs, and knows the sender as a contact that counts as active and has another address,
-- answers a tell or a narrate call with success. It stores the messages whole and in order behind those of
-- that contact, leaves the other conversations alone, and runs on.
pub served-Takes :
    {entries : List Window.Entry} (hasher : Bytes → ℕ) (n : Node) (me m : Bytes) (ms : List Bytes)
    (id now : ℕ) (storage : List Entry)
    → Running entries n
    → Knows n me id
    → get_elem? n.chat.messages id ≡ some storage
    → (n' : Node) × (reply : List Bytes) × (served hasher n me m ms now ≡ some (n', ok, reply))
      × Takes entries id now (m ∷ ms) storage n n'
served-Takes {entries} hasher n me m ms id now storage r k found =
    let taken = receive_from-Takes n me (m ∷ ms) id now storage r k found in
    let replied = reply_with-done (receive_from n me (m ∷ ms) now) taken.0 taken.1 taken.2.runs in
    (taken.0, replied.0, served-eq hasher n me m ms now ∙ replied.1, taken.2)
