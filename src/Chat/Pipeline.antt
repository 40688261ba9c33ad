-- ===== src/Chat/Pipeline.antt =====
-- The chat handler's threads, the system queue and the window process, interleaved (chat/src).
pub mod Showing
use terminal_teams.Prelude.{Bool, Bytes, List, [], false, length, some, ℕ, ◌++◌, ◌<◌, ◌∷◌, ◌≡◌}
use terminal_teams.Chat.Message.{Message}
use terminal_teams.Chat.Handler.{
  Handler, taken, again, send, receive, select, create, dequeue_round, init,
}
use terminal_teams.Chat.Window.{Settings, Window, handle}

-- `carried` are the messages that the sending thread took from the handler's queue and has not sent;
-- `mq` is the system queue, of at most eight messages.
pub record System : Type 0 where
  pub handler : Handler
  pub carried : List Message
  pub mq : List Message
  pub window : Window

abbrev pub mq_size : ℕ
mq_size = 8

abbrev pub start : System
start = record {
  handler = init;
  carried = [];
  mq = [];
  window = record { stopped = false; chunks = []; screen = [] };
}

-- A step of one of the threads. Those of the engine call the operations of the handler; `take`, `beat`
-- and `push` are the sending thread, `show` is the window. A push waits for room in the system queue; one
-- that gave up would end the thread and stop the handler, and is no step here.
pub data Step (s : Settings) (c : System) : System → Type 0 where
  send_message :
      (id : ℕ) (message : Bytes) (now : ℕ)
      → Step s c (record c { handler = (send c.handler id message now).0 })
  receive_message :
      (id : ℕ) (message : Bytes) (now : ℕ)
      → Step s c (record c { handler = (receive c.handler id message now).0 })
  select_contact : (id now : ℕ) → Step s c (record c { handler = (select c.handler id now).0 })
  create_contact : (id : ℕ) → Step s c (record c { handler = (create c.handler id).0 })
  take :
      (now : ℕ) (ms : List Message) (h : Handler)
      → c.carried ≡ []
      → dequeue_round c.handler now ≡ taken ms h
      → Step s c (record c { handler = h; carried = ms })
  beat :
      (now : ℕ) (h : Handler)
      → c.carried ≡ []
      → dequeue_round c.handler now ≡ again h
      → Step s c (record c { handler = h })
  push :
      (m : Message) (ms : List Message)
      → c.carried ≡ m ∷ ms
      → length c.mq < mq_size
      → Step s c (record c { carried = ms; mq = c.mq ++ m ∷ [] })
  show :
      (m : Message) (ms : List Message) (w : Window) (goes_on : Bool)
      → c.mq ≡ m ∷ ms
      → handle s c.window m ≡ some (w, goes_on)
      → Step s c (record c { mq = ms; window = w })

pub data Reach (s : Settings) : System → Type 0 where
  begin : Reach s start
  later : {c d : System} → Reach s c → Step s c d → Reach s d
