-- ===== src/Chat/Heartbeat.antt =====
-- The threads that watch the other side of the secondary queue: `heartbeat` of chat/src/TTChat.cpp sends,
-- `heartbeat` of chat/src/TTChatHandler.cpp receives. A list has what each round finds.
use terminal_teams.Prelude.{
  Bool, Bool-cases, List, Option, [], false, if◌then◌else◌, inl, inr, none, not, refl, some, true,
  ◌&&◌, ◌∷◌, ◌≡◌,
}
use terminal_teams.Chat.Message.{Message, heartbeat, same_type}
use terminal_teams.Chat.Handler.{Handler, stop}
use terminal_teams.Chat.Window.{Window}

-- A round of the receiving loop; `none` is a reception that fails. The second result says whether the loop
-- goes on.
unfoldable pub receive_round : Handler → Option Message → Handler × Bool
unfolding stop same_type
receive_round h received = if h.stopped then (stop h, false) else elim received [
  | none ↦ (stop h, false)
  | some m ↦ if same_type m.type heartbeat then (h, true) else (stop h, false)
]

unfoldable pub receive_rounds : Handler → List (Option Message) → Handler
unfolding receive_round
receive_rounds h [] = h
receive_rounds h (received ∷ rest) =
    let round = receive_round h received in
    let later = receive_rounds round.0 rest in if round.1 then later else round.0

-- A round of the sending loop, with what the queue answers.
unfoldable pub send_round : Window → Bool → Window × Bool
send_round w sent =
    if not w.stopped && sent then (w, true) else (record w { stopped = true }, false)

unfoldable pub send_rounds : Window → List Bool → Window
unfolding send_round
send_rounds w [] = w
send_rounds w (sent ∷ rest) =
    let round = send_round w sent in
    let later = send_rounds round.0 rest in if round.1 then later else round.0

abbrev is_heartbeat : Option Message → Bool
is_heartbeat none = false
is_heartbeat (some m) = same_type m.type heartbeat

abbrev all_heartbeats : List (Option Message) → Bool
all_heartbeats [] = true
all_heartbeats (received ∷ rest) = is_heartbeat received && all_heartbeats rest

receive_round-eq :
    (h : Handler) (received : Option Message)
    → h.stopped ≡ false
    → receive_round h received ≡ (if is_heartbeat received then (h, true) else (stop h, false))
unfolding receive_round
receive_round-eq h none live = rw (live, receive_round) refl
receive_round-eq h (some m) live = rw (live, receive_round) refl

-- The handler stops exactly where a round receives nothing, or another message than a heartbeat.
pub receive_rounds-stops :
    (h : Handler) (rs : List (Option Message))
    → h.stopped ≡ false
    → receive_rounds h rs ≡ (if all_heartbeats rs then h else stop h)
unfolding receive_rounds
receive_rounds-stops h [] live = refl
receive_rounds-stops h (r ∷ rs) live = elim (Bool-cases (is_heartbeat r)) [
  | inl fine ↦ rw (receive_round-eq h r live, fine) (receive_rounds-stops h rs live)
  | inr other ↦ rw (receive_round-eq h r live, other) refl
]
