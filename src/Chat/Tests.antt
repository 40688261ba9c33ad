-- ===== src/Chat/Tests.antt =====
-- Instances of what is proved of the chat (chat/src).
use terminal_teams.Prelude.{
  All, Bool, List, Option, [], arith, codes, false, inl, inr, none, refl, some, true, ◌++◌, ◌>>=◌,
  ◌∷◌, ◌≡◌,
}
use terminal_teams.Chat.Message.{Message, Entry, sender, receiver}
use terminal_teams.Chat.Handler.{Handler, split_messages, select, create, receive, dequeue_round}
use terminal_teams.Chat.Handler.Chunks.{Fits, texts, split_messages-texts}
use terminal_teams.Chat.Window.{Window, Settings, clear_screen, run, print, handle}
use terminal_teams.Chat.Delivery.{run-split_messages}
use terminal_teams.Chat.Conversation.{print_entries, select-shows}
use terminal_teams.Chat.Faithful.{IsBlank, conversation}
use terminal_teams.Chat.Pipeline.{
  System, start, Reach, begin, later, receive_message, select_contact, create_contact, take, push,
  show,
}
use terminal_teams.Chat.Pipeline.Showing.{Reach-shows, Reach-handles}

abbrev settings : Settings
settings = record { width = 12; side_width = 8; show_time = λ t. codes "now" }

abbrev window : Window
window = record { stopped = false; chunks = []; screen = [] }

split_messages-texts_example :
    (texts (split_messages 4 sender (codes "hello you") 7) ≡ codes "hello you")
    × All (Fits 4 7) (split_messages 4 sender (codes "hello you") 7)
split_messages-texts_example = split_messages-texts 4 sender (codes "hello you") 7 (omega arith)

run-split_messages_example :
    run settings window (split_messages 4 receiver (codes "hello you") 7 ++ [])
    ≡ (print settings window receiver 7 (codes "hello you") >>= λ w'. run settings w' [])
run-split_messages_example =
    run-split_messages settings window receiver 4 7 (codes "hello you") [] (inr refl) (omega arith)
      refl refl

-- Two conversations, the first of which is on the screen.
abbrev said : List Entry
said =
    record { type = receiver; timestamp = 1; text = codes "hi" }
    ∷ record { type = sender; timestamp = 2; text = codes "hello you" }
    ∷ []

abbrev handler : Handler
handler = record { stopped = false; current_id = some 0; messages = [] ∷ said ∷ []; queued = [] }

select-shows_example :
    ((select handler 1 9).1 ≡ true)
    × ((select handler 1 9).0.current_id ≡ some 1)
    × (run settings window (select handler 1 9).0.queued ≡ (
        print_entries settings (record window { screen = clear_screen ∷ [] }) said >>= λ w'.
        some (record w' { stopped = true })))
select-shows_example =
    select-shows settings window handler 1 9 0 said refl refl refl (λ e. cc) refl
      (inr refl, (inl refl, tt)) refl refl

-- A run of the threads: the first of two conversations is selected, a message comes from the second,
-- which then is selected, and the messages go one by one to the window.
abbrev handled : Option (Window × Bool) → Window
handled none = window
handled (some (w, goes_on)) = w

abbrev typed : System
typed =
    let c = record start { handler = (create start.handler 0).0 } in
    let d = record c { handler = (create c.handler 1).0 } in
    let e = record d { handler = (select d.handler 0 1).0 } in
    record e { handler = (receive e.handler 1 (codes "hello you") 2).0 }

abbrev selected : System
selected = record typed { handler = (select typed.handler 1 3).0 }

abbrev carried : System
carried = record selected {
  handler = record (selected.handler) { queued = [] };
  carried = selected.handler.queued;
}

-- A push of the first message that is carried, and its handling.
abbrev shown : System → System
shown c = elim c.carried [
  | [] ↦ c
  | m ∷ ms ↦ record c { carried = ms; window = handled (handle settings c.window m) }
]

abbrev shown_clear : System
shown_clear = shown carried

abbrev shown_all : System
shown_all = shown shown_clear

Reach-carried : Reach settings carried
unfolding select create receive dequeue_round terminal_teams.Chat.Handler.init
    terminal_teams.Chat.Handler.show_stored terminal_teams.Chat.Handler.send_stored
    terminal_teams.Chat.Handler.send_typed terminal_teams.Chat.Handler.store
    terminal_teams.Chat.Handler.split_messages
Reach-carried =
    later
      (later
        (later
          (later (later (later begin (create_contact 0)) (create_contact 1)) (select_contact 0 1))
          (receive_message 1 (codes "hello you") 2))
        (select_contact 1 3))
      (take 4 selected.handler.queued (record (selected.handler) { queued = [] }) refl refl)

Reach-shown_clear : Reach settings shown_clear
unfolding select create receive dequeue_round handle terminal_teams.Chat.Handler.init
    terminal_teams.Chat.Handler.show_stored terminal_teams.Chat.Handler.send_stored
    terminal_teams.Chat.Handler.send_typed terminal_teams.Chat.Handler.store
    terminal_teams.Chat.Handler.split_messages terminal_teams.Chat.Layout.layout
    terminal_teams.Chat.Layout.normalize terminal_teams.Chat.Layout.squeeze
    terminal_teams.Chat.Layout.trim_end terminal_teams.Chat.Layout.wrap
    terminal_teams.Chat.Layout.split_words terminal_teams.Chat.Layout.measure
    terminal_teams.Chat.Layout.fill_line
Reach-shown_clear =
    later (later Reach-carried (push _ _ refl (omega arith))) (show _ _ _ true refl refl)

-- The message that is next.
abbrev next : Message
next = record { type = receiver; timestamp = 2; text = codes "hello you" }

abbrev pushed : System
pushed = record shown_clear { carried = []; mq = next ∷ [] }

Reach-pushed : Reach settings pushed
unfolding select create receive dequeue_round handle terminal_teams.Chat.Handler.init
    terminal_teams.Chat.Handler.show_stored terminal_teams.Chat.Handler.send_stored
    terminal_teams.Chat.Handler.send_typed terminal_teams.Chat.Handler.store
    terminal_teams.Chat.Handler.split_messages
Reach-pushed = later Reach-shown_clear (push next [] refl (omega arith))

Reach-shown_all : Reach settings shown_all
unfolding select create receive dequeue_round handle terminal_teams.Chat.Handler.init
    terminal_teams.Chat.Handler.show_stored terminal_teams.Chat.Handler.send_stored
    terminal_teams.Chat.Handler.send_typed terminal_teams.Chat.Handler.store
    terminal_teams.Chat.Handler.split_messages terminal_teams.Chat.Layout.layout
    terminal_teams.Chat.Layout.normalize terminal_teams.Chat.Layout.squeeze
    terminal_teams.Chat.Layout.trim_end terminal_teams.Chat.Layout.wrap
    terminal_teams.Chat.Layout.split_words terminal_teams.Chat.Layout.measure
    terminal_teams.Chat.Layout.fill_line
Reach-shown_all = later Reach-pushed (show _ _ _ true refl refl)

Reach-shows_example :
    (base : Window) × IsBlank base.screen
    × (print_entries settings base (conversation shown_all.handler) ≡ some shown_all.window)
unfolding select create receive handle terminal_teams.Chat.Handler.init
    terminal_teams.Chat.Handler.show_stored terminal_teams.Chat.Handler.send_stored
    terminal_teams.Chat.Handler.send_typed terminal_teams.Chat.Handler.store
    terminal_teams.Chat.Handler.split_messages terminal_teams.Chat.Layout.layout
    terminal_teams.Chat.Layout.normalize terminal_teams.Chat.Layout.squeeze
    terminal_teams.Chat.Layout.trim_end terminal_teams.Chat.Layout.wrap
    terminal_teams.Chat.Layout.split_words terminal_teams.Chat.Layout.measure
    terminal_teams.Chat.Layout.fill_line
Reach-shows_example = Reach-shows (omega arith) Reach-shown_all refl refl refl

Reach-handles_example : (w : Window) × (handle settings pushed.window next ≡ some (w, true))
Reach-handles_example = Reach-handles (omega arith) Reach-pushed next [] refl
