-- ===== src/Chat/Handler.antt =====
-- chat/src/TTChatHandler.cpp: the storage of every contact's messages, and the queue of messages to
-- the chat window. An operation holds its mutex to its end, so it is one function of the state.
pub mod Chunks
use terminal_teams.Prelude.{
  Bool, Bytes, List, Option, [], drop, false, get_elem?, if◌then◌else◌, is_empty, leb, length, none,
  not, set, some, suc, take, true, zero, ℕ, ◌&&◌, ◌*◌, ◌++◌, ◌+◌, ◌-◌, ◌/◌, ◌==◌, ◌∷◌,
}
use terminal_teams.Chat.Message.{
  MessageType, clear, sender, receiver, heartbeat, goodbye, Message, Entry, type_code, type_of_code,
  max_data_length,
}

-- The members of TTChatHandler that its operations read or write.
pub record Handler : Type 0 where
  pub stopped : Bool
  pub current_id : Option ℕ
  pub messages : List (List Entry)
  pub queued : List Message

unfoldable pub init : Handler
init = record { stopped = false; current_id = none; messages = []; queued = [] }

unfoldable pub stop : Handler → Handler
stop h = record h { stopped = true }

-- `std::string_view(c_str() + from, n)`.
abbrev pub substring : ℕ → ℕ → Bytes → Bytes
substring from n bytes = take n (drop from bytes)

-- The loop over the full chunks: `rounds` are left, the next one has the index `i`.
unfoldable pub chunk_messages : ℕ → MessageType → ℕ → Bytes → ℕ → ℕ → List Message
chunk_messages max type timestamp bytes zero i = []
chunk_messages max type timestamp bytes (suc rounds) i =
    record { type = type; timestamp = timestamp; text = substring (max * i) max bytes }
    ∷ chunk_messages max type timestamp bytes rounds (i + 1)

-- How a text is cut: so many full chunks of `max` bytes, and the length of the last message.
pub record Cut : Type 0 where
  pub full : ℕ
  pub total : ℕ
  pub last : ℕ

unfoldable pub cut : ℕ → ℕ → Cut
cut max size =
    let full = size / max in
    let total = full * max in
    let last = size - total in
    if not (full == 0) && (last == 0)
    then record { full = full - 1; total = total - max; last = max }
    else record { full = full; total = total; last = last }

-- The messages of one text, for any length `max` of a full chunk.
unfoldable pub split_messages : ℕ → MessageType → Bytes → ℕ → List Message
unfolding cut chunk_messages type_code type_of_code
split_messages max type bytes timestamp =
    let c = cut max (length bytes) in
    chunk_messages max (type_of_code (type_code type + 1)) timestamp bytes c.full 0
    ++ record { type = type; timestamp = timestamp; text = substring c.total c.last bytes } ∷ []

-- The private `send(type, data, timestamp)`.
unfoldable pub send_typed : Handler → MessageType → Bytes → ℕ → Handler × Bool
send_typed h type bytes timestamp = if h.stopped then (h, false) else (
  record h { queued = h.queued ++ split_messages max_data_length type bytes timestamp },
  true,
)

-- `mMessages[id].push_back(entry)`.
unfoldable pub store : Handler → ℕ → Entry → Handler
store h id entry = elim (get_elem? h.messages id) [
  | none ↦ h
  | some storage ↦ record h { messages = set h.messages id (storage ++ entry ∷ []) }
]

abbrev pub is_current : Handler → ℕ → Bool
is_current h id = elim h.current_id [ none ↦ false | some c ↦ c == id ]

unfoldable pub send : Handler → ℕ → Bytes → ℕ → Handler × Bool
send h id message timestamp =
    if h.stopped
    then (h, false)
    else if not (is_current h id)
    then (h, false)
    else if leb (length h.messages) id
    then (h, false)
    else send_typed (store h id (record { type = sender; timestamp = timestamp; text = message }))
        sender message timestamp

unfoldable pub receive : Handler → ℕ → Bytes → ℕ → Handler × Bool
receive h id message timestamp =
    if h.stopped
    then (h, false)
    else if leb (length h.messages) id
    then (h, false)
    else let h' = store h id (record { type = receiver; timestamp = timestamp; text = message }) in
      if is_current h' id then send_typed h' receiver message timestamp else (h', true)

-- The loop that sends a contact's stored messages again.
unfoldable pub send_stored : Handler → List Entry → Handler × Bool
send_stored h [] = (h, true)
send_stored h (e ∷ es) =
    let sent = send_typed h e.type e.text e.timestamp in
    let rest = send_stored sent.0 es in if sent.1 then rest else (sent.0, false)

-- From `mCurrentId = id` on.
unfoldable pub show_stored : Handler → ℕ → Handler × Bool
show_stored h id = elim (get_elem? h.messages id) [
  | none ↦ (h, false)
  | some storage ↦ send_stored (record h { current_id = some id }) storage
]

-- `now` is the clock at the call.
unfoldable pub select : Handler → ℕ → ℕ → Handler × Bool
select h id now =
    if h.stopped
    then (h, false)
    else if leb (length h.messages) id
    then (h, false)
    else if is_current h id
    then (h, true)
    else elim h.current_id [
      | none ↦ show_stored h id
      | some c ↦
          let cleared = send_typed h clear [] now in
          if cleared.1 then show_stored cleared.0 id else (cleared.0, false)
    ]

unfoldable pub create : Handler → ℕ → Handler × Bool
create h id =
    if h.stopped
    then (h, false)
    else if not (id == length h.messages)
    then (h, false)
    else (record h { messages = h.messages ++ [] ∷ [] }, true)

-- `size()` returns `bool`: whether there is any storage.
unfoldable pub size : Handler → Bool
size h = not (length h.messages == 0)

unfoldable pub get : Handler → ℕ → Option (List Entry)
get h id = get_elem? h.messages id

unfoldable pub current : Handler → Option ℕ
current h = h.current_id

-- What one round of the wait in `dequeue` does, `timed_out` when it ends with the queue empty.
pub data Dequeued : Type 0 where
  taken : List Message → Handler → Dequeued
  again : Handler → Dequeued
  aborted : Handler → Dequeued

unfoldable pub dequeue_round : Handler → ℕ → Dequeued
dequeue_round h now =
    if h.stopped
    then aborted h
    else if is_empty h.queued
    then (let beat = send_typed h heartbeat [] now in
        if beat.1 then again beat.0 else aborted beat.0)
    else taken h.queued (record h { queued = [] })

-- The loop of `main` over the messages of one `dequeue`. The system queue is the list `sent`;
-- `accept` says whether it takes a message. The result tells whether `main` goes on.
unfoldable pub forward : (Message → Bool) → Bool → List Message → List Message → List Message × Bool
forward accept stopped sent [] = (sent, true)
forward accept stopped sent (m ∷ ms) =
    let rest = forward accept stopped (sent ++ m ∷ []) ms in
    if stopped then (sent, false) else if accept m then rest else (sent, false)

unfoldable pub goodbye_message : Message
goodbye_message = record { type = goodbye; timestamp = 0; text = [] }
