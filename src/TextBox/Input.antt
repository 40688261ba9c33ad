-- ===== src/TextBox/Input.antt =====
-- textbox/src/TTTextBox.cpp: the process that reads lines from the user. `none` is undefined
-- behaviour.
use terminal_teams.Prelude.{
  Bool, Bytes, List, Option, [], codes, drop, false, get_elem?, if◌then◌else◌, is_empty, leb,
  length, ltb, none, not, same, some, suc, take, true, zero, ℕ, ◌&&◌, ◌*◌, ◌++◌, ◌+◌, ◌-◌, ◌/◌,
  ◌==◌, ◌>>=◌, ◌∷◌,
}
use terminal_teams.TextBox.Message.{
  Message, heartbeat, contacts_select, message, goodbye, data_max_digits, data_max_length,
  bytes_of_size, size_width,
}

pub data Output : Type 0 where
  clear_screen endl : Output
  text : Bytes → Output

pub record TextBox : Type 0 where
  pub stopped : Bool
  pub queued : List Message
  pub screen : List Output

unfoldable pub init : TextBox
init = record { stopped = false; queued = []; screen = [] }

unfoldable pub queue : TextBox → Message → TextBox
queue t m = record t { queued = t.queued ++ m ∷ [] }

unfoldable pub put_back : ℕ → List Bytes → List Bytes
put_back c [] = (c ∷ []) ∷ []
put_back c (w ∷ ws) = (c ∷ w) ∷ ws

-- The arguments that `std::getline` reads with the delimiter ' ': no empty one at the end.
unfoldable pub arguments : Bytes → List Bytes
unfolding put_back
arguments [] = []
arguments (c ∷ cs) = let rest = arguments cs in if c == b' ' then [] ∷ rest else put_back c rest

abbrev pub is_digit : ℕ → Bool
is_digit c = leb b'0' c && leb c b'9'

unfoldable pub all_digits : Bytes → Bool
all_digits [] = true
all_digits (c ∷ cs) = is_digit c && all_digits cs

-- `std::from_chars` on digits, which refuses the empty text. (At most four digits do not overflow.)
unfoldable pub digits_value : ℕ → Bytes → ℕ
digits_value acc [] = acc
digits_value acc (c ∷ cs) = digits_value (acc * 10 + (c - b'0')) cs

unfoldable pub from_chars : Bytes → Option ℕ
unfolding digits_value
from_chars [] = none
from_chars (c ∷ cs) = some (digits_value 0 (c ∷ cs))

abbrev pub help_lines : List Bytes
help_lines =
    codes "Type #help to print a help message"
    ∷ codes "Type #quit to quit the application"
    ∷ codes "Type #select <id> to select contact"
    ∷ codes "Skip # and send a message to the currently selected contact."
    ∷ []

unfoldable pub print_all : List Bytes → List Output
print_all [] = []
print_all (l ∷ ls) = text l ∷ endl ∷ print_all ls

-- The command `select` from the test of its argument on.
unfoldable pub select_contact : TextBox → Bytes → TextBox × Bool
unfolding queue all_digits from_chars bytes_of_size
select_contact t identity =
    if not (all_digits identity)
    then (t, false)
    else if ltb data_max_digits (length identity)
    then (t, false)
    else elim (from_chars identity) [
      | none ↦ (t, false)
      | some id ↦
          (queue t (record { status = contacts_select; text = bytes_of_size size_width id }), true)
    ]

-- `args[1]` is read with no test that it is there.
unfoldable pub execute : TextBox → List Bytes → Option (TextBox × Bool)
unfolding select_contact print_all
execute t [] = some (t, false)
execute t (command ∷ args) =
    if same command (codes "help")
    then (if ltb 1 (length (command ∷ args))
        then some (t, false)
        else some (record t { screen = t.screen ++ print_all help_lines }, true))
    else if same command (codes "quit")
    then (if ltb 1 (length (command ∷ args))
        then some (t, false)
        else some (record t { stopped = true }, true))
    else if same command (codes "select")
    then (if ltb 2 (length (command ∷ args))
        then some (t, false)
        else get_elem? (command ∷ args) 1 >>= λ identity. some (select_contact t identity))
    else some (t, false)

-- The messages of a line: `rounds` full ones, and what is left.
unfoldable pub line_messages : ℕ → ℕ → Bytes → List Message
line_messages max zero line =
    if is_empty line then [] else record { status = message; text = line } ∷ []
line_messages max (suc rounds) line =
    record { status = message; text = take max line } ∷ line_messages max rounds (drop max line)

unfoldable pub split_line : ℕ → Bytes → List Message
unfolding line_messages
split_line max line = line_messages max (length line / max) line

unfoldable pub send : TextBox → Bytes → TextBox × Bool
unfolding split_line
send t line = (record t { queued = t.queued ++ split_line data_max_length line }, true)

unfoldable pub parse : TextBox → Bytes → Option (TextBox × Bool)
unfolding execute send arguments
parse t [] = some (record t { screen = t.screen ++ clear_screen ∷ [] }, false)
parse t (c ∷ cs) =
    let t' = record t { screen = t.screen ++ clear_screen ∷ [] } in
    if c == b'#' then execute t' (arguments cs) else some (send t' (c ∷ cs))

-- The loop of `asynchronousRead` over the lines that the user enters.
unfoldable pub read_lines : TextBox → List Bytes → Option TextBox
read_lines t [] = some t
read_lines t (l ∷ ls) = if t.stopped then some t else (parse t l >>= λ r. read_lines r.0 ls)

unfoldable pub asynchronous_read : TextBox → List Bytes → Option TextBox
unfolding read_lines print_all
asynchronous_read t = read_lines (record t {
  screen = t.screen ++ clear_screen ∷ print_all (codes "Type #help to print a help message" ∷ []);
})

unfoldable pub heartbeat_message : Message
heartbeat_message = record { status = heartbeat; text = [] }

unfoldable pub goodbye_message : Message
goodbye_message = record { status = goodbye; text = [] }

-- The loop of `main` that writes messages to the pipe, the list `sent`; `accept` says whether it
-- takes one. `none` is the exception that a failed write throws.
unfoldable pub forward : (Message → Bool) → List Message → List Message → List Message × Bool
forward accept sent [] = (sent, true)
forward accept sent (m ∷ ms) =
    let rest = forward accept (sent ++ m ∷ []) ms in if accept m then rest else (sent, false)

-- `sendGoodbye`, whose failure is ignored.
unfoldable pub send_goodbye : (Message → Bool) → List Message → List Message
unfolding goodbye_message
send_goodbye accept sent = if accept goodbye_message then sent ++ goodbye_message ∷ [] else sent

-- One round of `main`: the queue, or a heartbeat where it is empty. The loop ends with a goodbye.
unfoldable pub main_round :
    (Message → Bool) → TextBox → List Message → TextBox × (List Message × Bool)
unfolding forward heartbeat_message send_goodbye
main_round accept t sent =
    let batch = if is_empty t.queued then heartbeat_message ∷ [] else t.queued in
    let written = forward accept sent batch in
    if t.stopped
    then (t, (send_goodbye accept sent, false))
    else if written.1
    then (record t { queued = [] }, (written.0, true))
    else (record t { stopped = true; queued = [] }, (send_goodbye accept written.0, false))
