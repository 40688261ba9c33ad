-- ===== src/System/Typing/Lines.antt =====
-- A line that is entered into the text box (textbox/src/TTTextBox.cpp, `parse`) reaches the engine.
use mathlib.Core.Path.{subst}
use terminal_teams.Prelude.{
  All, Bool, Bytes, List, Option, [], ap, append-nil, arith, false, refl, some, sym, true, ℕ, ◌++◌,
  ◌==◌, ◌∙◌, ◌∷◌, ◌≡◌,
}
use terminal_teams.Contacts.Window as Window
use terminal_teams.Chat.Message.{Entry}
use terminal_teams.TextBox.Handler.{Callback, receive_loop, receive_try_count}
use terminal_teams.TextBox.Input.{TextBox, clear_screen, parse, send, split_line}
use terminal_teams.TextBox.Lines.{
  IsPiece, texts, IsTried, messages, spaced, sent_texts, split_line-pieces, receive_loop-spaced,
}
use terminal_teams.TextBox.Message as TextBoxMessage
use terminal_teams.TextBox.Message.{data_max_length}
use terminal_teams.Engine.Message.{Network}
use terminal_teams.Engine.Node.{Node}
use terminal_teams.Engine.Pending.{pending}
use terminal_teams.Engine.Running.{Running}
use terminal_teams.System.Typing.{
  respond, sent_entries, pieces, Line, Speaks, SameOthers, fresh_neighbor, add_all,
}
use terminal_teams.System.Typing.Sending.{respond-Speaks}

parse-plain :
    (t : TextBox) (c : ℕ) (cs : Bytes)
    → (c == b'#') ≡ false
    → parse t (c ∷ cs)
      ≡ some (
        record t {
          screen = t.screen ++ clear_screen ∷ [];
          queued = t.queued ++ split_line data_max_length (c ∷ cs);
        },
        true,
      )
unfolding parse send
parse-plain t c cs plain = rw (plain, parse) refl

same_box :
    (o : Option (TextBox × Bool)) (t t' : TextBox)
    → o ≡ some (t, true)
    → o ≡ some (t', true)
    → t' ≡ t
same_box o t t' e e' = cc

parse-line :
    (t t' : TextBox) (c : ℕ) (cs : Bytes)
    → (c == b'#') ≡ false
    → t.queued ≡ []
    → parse t (c ∷ cs) ≡ some (t', true)
    → t'.queued ≡ split_line data_max_length (c ∷ cs)
parse-line t t' c cs plain drained e =
    let whole = parse-plain t c cs plain in
    let after : TextBox = record t {
      screen = t.screen ++ clear_screen ∷ [];
      queued = t.queued ++ split_line data_max_length (c ∷ cs);
    } in
    ap (λ (b : TextBox). b.queued) (same_box (parse t (c ∷ cs)) after t' whole e)
    ∙ ap (λ (q : List TextBoxMessage.Message). q ++ split_line data_max_length (c ∷ cs)) drained

-- A line that is no command is entered into a text box with an empty queue, and its messages go through the
-- pipe with at most two failed receptions before each. An engine that runs, the current contact of which is not
-- itself, answers the callbacks: it runs on, the messages stand in order at the end of that contact's
-- conversation and of what waits for it, and make up the line; the other conversations are as before, and
-- in the map of neighbors these messages are added one after the other.
pub parse-Speaks :
    {entries : List Window.Entry} (t t' : TextBox) (c : ℕ) (cs : Bytes)
    (ms : List (ℕ × TextBoxMessage.Message)) (net : Network) (threshold now : ℕ) (n : Node) (id : ℕ)
    (line : Line) (storage : List Entry)
    → (c == b'#') ≡ false
    → t.queued ≡ []
    → parse t (c ∷ cs) ≡ some (t', true)
    → messages ms ≡ t'.queued
    → All IsTried ms
    → Running entries n
    → Speaks id line storage n
    → (callbacks : List Callback) × (n' : Node) × (receive_loop receive_try_count (spaced ms [])
        ≡ some callbacks)
      × (respond net threshold now n callbacks ≡ some n')
      × Running entries n'
      × Speaks id line (storage ++ sent_entries now t'.queued) n'
      × SameOthers id n n'
      × (pending id n'.neighbors ≡ pending id n.neighbors ++ pieces t'.queued)
      × (texts t'.queued ≡ c ∷ cs)
      × (n'.neighbors
          ≡ add_all id
              (fresh_neighbor net threshold now line.address)
              (pieces t'.queued)
              n.neighbors)
unfolding receive_loop
parse-Speaks {entries} t t' c cs ms net threshold now n id line storage plain drained e
      same_messages tried r s =
    let split = parse-line t t' c cs plain drained e in
    let cut = split_line-pieces data_max_length (c ∷ cs) (omega arith) in
    let answered = respond-Speaks net threshold now n id t'.queued line storage r s in
    (
      sent_texts t'.queued,
      answered.0,
      receive_loop-spaced data_max_length ms []
            (subst (All (IsPiece data_max_length)) (sym (same_messages ∙ split)) cut.1) tried
          ∙ ap (λ q. some (sent_texts q ++ [])) same_messages
          ∙ ap some (append-nil (sent_texts t'.queued)),
      answered.1,
      answered.2,
      answered.3,
      answered.4,
      answered.5,
      ap texts split ∙ cut.0,
      answered.6,
    )
