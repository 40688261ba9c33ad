-- ===== src/TextBox/Handler.antt =====
-- textbox/src/TTTextBoxHandler.cpp: the loop that reads the pipe and makes the callbacks.
use terminal_teams.Prelude.{
  Bytes, List, Option, [], if◌then◌else◌, length, ltb, none, some, suc, zero, ℕ, ◌++◌, ◌>>=◌, ◌∷◌,
}
use terminal_teams.TextBox.Message.{
  Message, Status, undefined, heartbeat, contacts_select, message, goodbye, unknown, size_of_bytes,
  size_width,
}

-- What a call of `receive` finds.
pub data Reception : Type 0 where
  failed : Reception
  received : Message → Reception

pub data Callback : Type 0 where
  message_sent : Bytes → Callback
  contact_selected : ℕ → Callback

-- `RECEIVE_TRY_COUNT`.
abbrev pub receive_try_count : ℕ
receive_try_count = 3

-- What the `switch` does: a callback or none, or the end of the loop by an exception. Copying more
-- than a `size_t` has room for is undefined behaviour.
pub data Verdict : Type 0 where
  calls : List Callback → Verdict
  throws : Verdict
  overflows : Verdict

unfoldable pub dispatch : Status → Bytes → Verdict
unfolding size_of_bytes
dispatch heartbeat bytes = calls []
dispatch contacts_select bytes =
    if ltb size_width (length bytes)
    then overflows
    else calls (contact_selected (size_of_bytes bytes) ∷ [])
dispatch message bytes = calls (message_sent bytes ∷ [])
dispatch goodbye bytes = throws
dispatch undefined bytes = throws
dispatch (unknown n) bytes = throws

-- The loop, with `tries` left, over what the pipe delivers; the list ends where the handler is found
-- stopped. The result is the callbacks made, in order. A reception sets the tries to their number
-- again: to one more, less the step of the loop.
unfoldable pub receive_loop : ℕ → List Reception → Option (List Callback)
receive_loop zero events = some []
receive_loop (suc tries) [] = some []
receive_loop (suc tries) (failed ∷ events) = receive_loop tries events
receive_loop (suc tries) (received m ∷ events) = elim (dispatch m.status m.text) [
  | calls made ↦ receive_loop receive_try_count events >>= λ later. some (made ++ later)
  | throws ↦ some []
  | overflows ↦ none
]

unfoldable pub run : List Reception → Option (List Callback)
unfolding receive_loop
run events = receive_loop receive_try_count events
