-- ===== src/Chat/Window.antt =====
-- chat/src/TTChat.cpp: the window process, from a received message to the terminal.
use terminal_teams.Prelude.{
  Bool, Bytes, List, Option, [], false, flatten, if◌then◌else◌, is_empty, last?, length, map, none,
  not, some, suc, take, true, zero, ℕ, ◌%◌, ◌++◌, ◌+◌, ◌-◌, ◌>>=◌, ◌^◌, ◌∷◌,
}
use terminal_teams.Chat.Message.{
  MessageType, clear, sender, sender_chunk, receiver, receiver_chunk, heartbeat, goodbye, unknown,
  Message, same_type,
}
use terminal_teams.Chat.Layout.{space, layout}

-- The calls of the output stream.
pub data Output : Type 0 where
  clear_screen endl : Output
  text : Bytes → Output

-- `show_time` is the conversion of a timestamp to text, by the C library.
pub record Settings : Type 0 where
  pub width : ℕ
  pub side_width : ℕ
  pub show_time : ℕ → Bytes

pub record Window : Type 0 where
  pub stopped : Bool
  pub chunks : List Message
  pub screen : List Output

unfoldable pub init : Window
init = record { stopped = false; chunks = []; screen = [] }

abbrev pub spaces : ℕ → Bytes
spaces Prim.Native.Nat.zero = []
spaces (Prim.Native.Nat.suc n) = space ∷ spaces n

-- `mBlankLine.substr(0, mBlankLine.size() - n)`: the difference wraps, and `substr` cuts at the end.
unfoldable pub padding : ℕ → ℕ → Bytes
padding width n = take ((width + 2 ^ 64 - n) % 2 ^ 64) (spaces width)

unfoldable pub print_left : List Bytes → List Output
print_left [] = []
print_left (l ∷ ls) = text l ∷ endl ∷ print_left ls

unfoldable pub print_right : ℕ → List Bytes → List Output
unfolding padding
print_right width [] = []
print_right width (l ∷ ls) = text (padding width (length l)) ∷ text l ∷ endl ∷ print_right width ls

-- What `print` writes once the lines are known.
unfoldable pub print_lines : Settings → MessageType → ℕ → List Bytes → List Output
unfolding same_type print_left print_right
print_lines s type timestamp lines =
    let time = s.show_time timestamp in
    (if same_type type receiver
      then text time ∷ endl ∷ print_left lines
      else text (padding s.width (length time)) ∷ text time ∷ endl ∷ print_right s.width lines)
    ++ endl ∷ []

-- `none` when the loop that makes the lines does not end.
unfoldable pub print : Settings → Window → MessageType → ℕ → Bytes → Option Window
print s w type timestamp bytes = layout s.side_width bytes >>= λ lines.
    some (record w { screen = w.screen ++ print_lines s type timestamp lines })

-- Whether the chunks gathered so far, if any, end with one of type `expected`.
unfoldable pub chunks_match : MessageType → List Message → Bool
unfolding same_type
chunks_match expected chunks = elim (last? chunks) [
  | none ↦ true
  | some m ↦ same_type m.type expected
]

-- The cases of a whole message and of a chunk.
unfoldable pub finish : Settings → Window → MessageType → Message → Option (Window × Bool)
unfolding chunks_match print
finish s w expected m =
    if not (chunks_match expected w.chunks)
    then some (w, false)
    else (print s (record w { chunks = [] }) m.type m.timestamp
          (flatten (map (λ (c : Message). c.text) w.chunks) ++ m.text)
        >>= λ w'. some (w', true))

unfoldable pub gather : Window → Message → Window × Bool
unfolding chunks_match
gather w m =
    if not (chunks_match m.type w.chunks)
    then (w, false)
    else (record w { chunks = w.chunks ++ m ∷ [] }, true)

unfoldable pub dispatch : MessageType → Settings → Window → Message → Option (Window × Bool)
unfolding finish gather
dispatch clear s w m = some (
    if not (is_empty w.chunks)
    then (w, false)
    else (record w { screen = w.screen ++ clear_screen ∷ [] }, true))
dispatch sender s w m = finish s w sender_chunk m
dispatch sender_chunk s w m = some (gather w m)
dispatch receiver s w m = finish s w receiver_chunk m
dispatch receiver_chunk s w m = some (gather w m)
dispatch heartbeat s w m = some (w, true)
dispatch goodbye s w m = some (record w { stopped = true }, false)
dispatch (unknown n) s w m = some (record w { stopped = true }, false)

unfoldable pub handle : Settings → Window → Message → Option (Window × Bool)
unfolding dispatch
handle s w m = dispatch m.type s w m

-- `run` over the messages that the system queue delivers; the list ends where `receive` fails, or
-- where `isStopped` is found set.
unfoldable pub run : Settings → Window → List Message → Option Window
run s w [] = some (record w { stopped = true })
run s w (m ∷ ms) =
    if w.stopped
    then some (record w { stopped = true })
    else (handle s w m >>= λ r. elim r.1 [
      | true ↦ run s r.0 ms
      | false ↦ some (record r.0 { stopped = true })
    ])
