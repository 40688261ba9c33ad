-- ===== src/Contacts/Message.antt =====
-- contacts/src/TTContactsStatus.hpp and TTContactsMessage.hpp: what the handler tells the window.
use terminal_teams.Prelude.{
  Bool, Bytes, Option, false, if◌then◌else◌, length, ltb, none, same, some, true, ℕ, ◌&&◌, ◌==◌,
}
use terminal_teams.Contacts.State.{State, same_state}

-- `TTCONTACTS_DATA_MAX_LENGTH`.
abbrev pub data_max_length : ℕ
data_max_length = 256

-- A message by its status; the code leaves the other members of the last two uninitialised. A status
-- that is no enumerator is `unknown`.
pub data Message : Type 0 where
  state_of : State → ℕ → Bytes → Message
  heartbeat : Message
  goodbye : Message
  unknown : ℕ → Message

-- The message that a handler makes of a contact; `none` where `setNickname` asserts that the
-- nickname fits, and would write past the end of the buffer.
unfoldable pub state_message : State → ℕ → Bytes → Option Message
state_message state identity nickname =
    if ltb (length nickname) data_max_length then some (state_of state identity nickname) else none

unfoldable pub same_message : Message → Message → Bool
unfolding same_state
same_message (state_of s i n) (state_of s' i' n') = same_state s s' && (i == i') && same n n'
same_message heartbeat heartbeat = true
same_message goodbye goodbye = true
same_message _ _ = false
