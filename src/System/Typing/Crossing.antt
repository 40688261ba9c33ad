-- ===== src/System/Typing/Crossing.antt =====
-- A line from the text box of one engine to the conversations of another (textbox/src, engine/src, chat/src).
mod Tests
use terminal_teams.Prelude.{Bytes, List, [], false, get_elem?, some, true, ℕ, ◌∷◌, ◌≡◌, ◌≤◌}
use terminal_teams.Contacts.Handler
use terminal_teams.Contacts.Window as Window
use terminal_teams.Chat.Message.{Entry}
use terminal_teams.TextBox.Message as TextBoxMessage
use terminal_teams.TextBox.Input.{TextBox}
use terminal_teams.TextBox.Lines.{messages}
use terminal_teams.Engine.Message.{Network}
use terminal_teams.Engine.Node.{Node}
use terminal_teams.Engine.Services.{ok}
use terminal_teams.Engine.Pending.{pending}
use terminal_teams.Engine.Running.{Running}
use terminal_teams.System.Peers.{Knows, Takes}
use terminal_teams.System.Peers.Serving.{served}
use terminal_teams.System.Peers.Round.{answered, called, lookup}
use terminal_teams.System.Typing.{Line, Speaks}
use terminal_teams.System.Typing.Arriving.{IsOpen}

-- The pieces go in one call, which is answered with success.
pub record Crosses (entries : List Window.Entry) (hasher : Bytes → ℕ) (me : Bytes) (from later : ℕ)
    (ps : List Bytes) (storage : List Entry) (b b' : Node) : Type 0 where
  pub first : Bytes
  pub rest : List Bytes
  pub all : ps ≡ first ∷ rest
  pub reply : List Bytes
  pub answer : served hasher b me first rest later ≡ some (b', ok, reply)
  pub takes : Takes entries from later ps storage b b'

-- What is asked of the engine that sends: its current contact counts as active, nothing waits for it, and it
-- has no neighbor in the map or one that is due.
pub record IsSender (net : Network) (threshold soon id : ℕ) (line : Line) (storage : List Entry)
    (n : Node) : Type 0 where
  pub speaks : Speaks id line storage n
  pub active : line.away ≡ false
  pub nothing_waits : pending id n.neighbors ≡ []
  pub open_neighbor : IsOpen net soon line.address (lookup id n.neighbors)
  pub expires : threshold ≤ soon
  pub connects : net.connects line.address ≡ true

-- What is asked of the engine that receives.
pub record IsReceiver (entries : List Window.Entry) (id from : ℕ) (line : Line)
    (storage : List Entry) (b : Node) : Type 0 where
  pub runs : Running entries b
  pub knows : Knows b line.me from
  pub stored : get_elem? b.chat.messages from ≡ some storage

-- The one call of all the pieces arrives at the engine that receives, and gets its answer.
abbrev pub Arrives : (Bytes → ℕ) → Network → ℕ → ℕ → Line → List Bytes → Node → Type 0
Arrives hasher net id later line [] b = Unit {0}
Arrives hasher net id later line (m ∷ ms) b =
    called net id line.address line.me m ms ≡ answered (served hasher b line.me m ms later)
