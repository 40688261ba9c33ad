-- ===== src/TextBox/Lines.antt =====
-- From a line of the user to the callbacks of the engine (textbox/src/TTTextBox.cpp,
-- TTTextBoxHandler.cpp).
use native.Mathlib.Nat.{div-add-mod, mod-lt, mul_comm, suc-mul}
use terminal_teams.Prelude.{
  >>=-some, All, Bytes, List, Option, [], ap, append-nil, arith, drop, length, length-drop,
  length-take, none, refl, some, suc, sym, take, take-append-drop, zero, ℕ, ◌*◌, ◌++◌, ◌+◌, ◌/◌,
  ◌<◌, ◌>>=◌, ◌∙◌, ◌∷◌, ◌≡◌, ◌≤◌,
}
use terminal_teams.TextBox.Message.{Message, message}
use terminal_teams.TextBox.Input.{line_messages, split_line}
use terminal_teams.TextBox.Handler.{
  Reception, Callback, message_sent, failed, received, calls, receive_loop, receive_try_count,
  dispatch,
}

-- What the callbacks of some messages are given.
abbrev pub sent_texts : List Message → List Callback
sent_texts [] = []
sent_texts (m ∷ ms) = message_sent m.text ∷ sent_texts ms

abbrev pub texts : List Message → Bytes
texts [] = []
texts (m ∷ ms) = m.text ++ texts ms

-- A message of a line: neither empty nor longer than `max`.
abbrev pub IsPiece : ℕ → Message → Type 0
IsPiece max m = (m.status ≡ message) × (0 < length m.text) × (length m.text ≤ max)

line_messages-pieces :
    (max rounds : ℕ) (line : Bytes)
    → 0 < max
    → rounds * max ≤ length line
    → length line < rounds * max + max
    → (texts (line_messages max rounds line) ≡ line)
      × All (IsPiece max) (line_messages max rounds line)
unfolding line_messages
line_messages-pieces max zero [] h low high = (refl, tt)
line_messages-pieces max zero (c ∷ cs) h low high =
    (append-nil (c ∷ cs), ((refl, omega arith, omega arith), tt))
line_messages-pieces max (suc rounds) line h low high =
    let (whole, pieces) =
      line_messages-pieces max rounds (drop max line) h
        (omega (arith, suc-mul rounds max, length-drop max line))
        (omega (arith, suc-mul rounds max, length-drop max line)) in
    (
      ap (◌++◌ (take max line)) whole ∙ take-append-drop max line,
      (
        (
          refl,
          omega (arith, suc-mul rounds max, length-take max line),
          omega (arith, length-take max line),
        ),
        pieces,
      ),
    )

-- A line is cut into messages that make it up again, in order, none of them empty or too long.
pub split_line-pieces :
    (max : ℕ) (line : Bytes)
    → 0 < max
    → (texts (split_line max line) ≡ line) × All (IsPiece max) (split_line max line)
unfolding split_line
split_line-pieces max line h =
    line_messages-pieces max (length line / max) line h
      (omega (arith, div-add-mod (length line) max, mul_comm max (length line / max)))
      (omega (
        arith,
        div-add-mod (length line) max,
        mul_comm max (length line / max),
        mod-lt (length line) {m = max} h,
      ))

-- What the pipe delivers: before each message some failures, after all of them `events`.
abbrev pub failures : ℕ → List Reception → List Reception
failures zero events = events
failures (suc k) events = failed ∷ failures k events

abbrev pub spaced : List (ℕ × Message) → List Reception → List Reception
spaced [] events = events
spaced ((k, m) ∷ rest) events = failures k (received m ∷ spaced rest events)

abbrev pub messages : List (ℕ × Message) → List Message
messages [] = []
messages ((k, m) ∷ rest) = m ∷ messages rest

-- Fewer failures than there are tries.
abbrev pub IsTried : ℕ × Message → Type 0
IsTried (k, m) = k < receive_try_count

receive-step :
    (tries : ℕ) (m : Message) (events : List Reception) (made : List Callback)
    → dispatch m.status m.text ≡ calls made
    → receive_loop (suc tries) (received m ∷ events)
      ≡ (receive_loop receive_try_count events >>= λ later. some (made ++ later))
unfolding receive_loop
receive-step tries m events made e = rw (e, receive_loop) refl

receive-failures :
    (k : ℕ) (m : Message) (events : List Reception) (made : List Callback)
    → k < receive_try_count
    → dispatch m.status m.text ≡ calls made
    → receive_loop receive_try_count (failures k (received m ∷ events))
      ≡ (receive_loop receive_try_count events >>= λ later. some (made ++ later))
unfolding receive_loop
receive-failures zero m events made h e = receive-step 2 m events made e
receive-failures (suc zero) m events made h e = receive-step 1 m events made e
receive-failures (suc (suc zero)) m events made h e = receive-step 0 m events made e
receive-failures (suc (suc (suc k))) m events made h e = absurd (omega arith)

bind-more :
    (o : Option (List Callback)) (c : Callback) (cs : List Callback)
    → ((o >>= λ later. some (cs ++ later)) >>= λ later. some (c ∷ later))
      ≡ (o >>= λ later. some (c ∷ (cs ++ later)))
bind-more none c cs = refl
bind-more (some later) c cs = refl

dispatch-message :
    (m : Message) → m.status ≡ message → dispatch m.status m.text ≡ calls (message_sent m.text ∷ [])
unfolding dispatch
dispatch-message m e = rw e refl

-- The receiver makes a callback of every message of a line, in order, also where up to two receptions
-- fail before each, and then goes on with all its tries.
pub receive_loop-spaced :
    (max : ℕ) (ms : List (ℕ × Message)) (events : List Reception)
    → All (IsPiece max) (messages ms)
    → All IsTried ms
    → receive_loop receive_try_count (spaced ms events) ≡ (
        receive_loop receive_try_count events >>= λ later. some (sent_texts (messages ms) ++ later))
receive_loop-spaced max [] events pieces tried =
    sym (>>=-some (receive_loop receive_try_count events))
receive_loop-spaced max ((k, m) ∷ ms) events pieces tried =
    receive-failures k m (spaced ms events) (message_sent m.text ∷ []) tried.0
      (dispatch-message m pieces.0.0)
    ∙ rw (receive_loop-spaced max ms events pieces.1 tried.1) (
        bind-more (receive_loop receive_try_count events) (message_sent m.text)
          (sent_texts (messages ms)))

-- Three failures in a row end the loop, whatever would follow.
pub receive_loop-failures :
    (events : List Reception) → receive_loop receive_try_count (failures 3 events) ≡ some []
unfolding receive_loop
receive_loop-failures [] = refl
receive_loop-failures (e ∷ events) = refl
