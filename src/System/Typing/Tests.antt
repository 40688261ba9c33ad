-- ===== src/System/Typing/Tests.antt =====
-- A line that is typed while bob is the current contact.
use terminal_teams.Prelude.{
  Bool, List, Option, [], arith, codes, false, none, refl, same, some, true, ℕ, ◌++◌, ◌∷◌, ◌≡◌,
}
use terminal_teams.Contacts.Handler
use terminal_teams.Contacts.State.{selected_active}
use terminal_teams.Chat.Handler as ChatHandler
use terminal_teams.Engine.Node.{Node}
use terminal_teams.Engine.Pending.{pending}
use terminal_teams.Engine.Tests.{network}
use terminal_teams.Engine.Running.{Running}
use terminal_teams.Engine.Running.Reach.{Reach-Running}
use terminal_teams.Engine.Running.Tests.{bob_selected, Reach-bob_selected}
use terminal_teams.TextBox.Message.{Message, message}
use terminal_teams.TextBox.Input.{TextBox, parse, init}
use terminal_teams.TextBox.Handler.{Callback, receive_loop, receive_try_count}
use terminal_teams.TextBox.Lines.{spaced, texts, messages}
use terminal_teams.System.Typing.Lines.{parse-Speaks}
use terminal_teams.System.Typing.{
  Line, fresh_neighbor, add_all, respond, Speaks, SameOthers, sent_entries, pieces,
}

abbrev box_of : Option (TextBox × Bool) → TextBox
box_of none = init
box_of (some (t, done)) = t

abbrev pub after_line : TextBox
after_line = box_of (parse init (codes "hi bob"))

-- Two receptions fail before the message.
abbrev pub delivered : List (ℕ × Message)
delivered = (2, record { status = message; text = codes "hi bob" }) ∷ []

pub parse-after_line : parse init (codes "hi bob") ≡ some (after_line, true)
unfolding parse
parse-after_line = refl

pub delivered-queued : init.queued ≡ []
unfolding init
delivered-queued = refl

pub delivered-after_line : messages delivered ≡ after_line.queued
unfolding parse init
delivered-after_line = refl

abbrev pub to_bob : Line
to_bob = record { address = codes "h:2"; away = false; me = codes "id-m" }

pub speaks : Speaks 1 to_bob [] bob_selected
unfolding terminal_teams.Engine.Discovery.handle_greet Handler.get_by_identity Handler.find_identity
    terminal_teams.Prelude.same Handler.create terminal_teams.Contacts.Message.state_message
    Handler.push_message ChatHandler.create terminal_teams.Engine.Control.selection Handler.size
    Handler.select Handler.unselect Handler.enter Handler.push_state
    terminal_teams.Contacts.State.on_select terminal_teams.Contacts.State.on_unselect
    ChatHandler.select Handler.new_entry ChatHandler.send_typed ChatHandler.show_stored
    ChatHandler.send_stored terminal_teams.Contacts.State.is_inactive
speaks = record {
  current = refl;
  entry = record {
    nickname = codes "bob";
    identity = codes "id-b";
    ip_address_and_port = codes "h:2";
    sent_messages = 0;
    received_messages = 0;
    state = selected_active;
  };
  found = refl;
  far = refl;
  at = refl;
  state = refl;
  named = refl;
  stored = refl;
}

parse-Speaks_example :
    (callbacks : List Callback) × (n' : Node) × (receive_loop receive_try_count
        (spaced delivered [])
      ≡ some callbacks)
    × (respond network 10 8 bob_selected callbacks ≡ some n')
    × Running [] n'
    × Speaks 1 to_bob ([] ++ sent_entries 8 after_line.queued) n'
    × SameOthers 1 bob_selected n'
    × (pending 1 n'.neighbors ≡ pending 1 bob_selected.neighbors ++ pieces after_line.queued)
    × (texts after_line.queued ≡ codes "hi bob")
    × (n'.neighbors
        ≡ add_all 1
            (fresh_neighbor network 10 8 (codes "h:2"))
            (pieces after_line.queued)
            bob_selected.neighbors)
parse-Speaks_example =
    parse-Speaks init after_line b'h' (codes "i bob") delivered network 10 8 bob_selected 1 to_bob
      [] refl delivered-queued parse-after_line delivered-after_line (omega arith, tt)
      (Reach-Running Reach-bob_selected) speaks
