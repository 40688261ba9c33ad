-- ===== src/Chat/Message.antt =====
-- chat/src/TTChatMessageType.hpp, TTChatMessage.hpp and TTChatEntry.hpp. A timestamp is the number
-- that `system_clock` counts.
use terminal_teams.Prelude.{Bool, Bytes, false, same, suc, zero, ℕ, ◌&&◌, ◌==◌}

-- An `unsigned int` that names no enumerator is `unknown`, counted from 7.
pub data MessageType : Type 0 where
  clear sender sender_chunk receiver receiver_chunk heartbeat goodbye : MessageType
  unknown : ℕ → MessageType

-- `static_cast<size_t>(type)`.
unfoldable pub type_code : MessageType → ℕ
type_code clear = 0
type_code sender = 1
type_code sender_chunk = 2
type_code receiver = 3
type_code receiver_chunk = 4
type_code heartbeat = 5
type_code goodbye = 6
type_code (unknown n) = suc (suc (suc (suc (suc (suc (suc n))))))

-- `static_cast<TTChatMessageType>(n)`.
unfoldable pub type_of_code : ℕ → MessageType
type_of_code zero = clear
type_of_code (suc zero) = sender
type_of_code (suc (suc zero)) = sender_chunk
type_of_code (suc (suc (suc zero))) = receiver
type_of_code (suc (suc (suc (suc zero)))) = receiver_chunk
type_of_code (suc (suc (suc (suc (suc zero))))) = heartbeat
type_of_code (suc (suc (suc (suc (suc (suc zero)))))) = goodbye
type_of_code (suc (suc (suc (suc (suc (suc (suc n))))))) = unknown n

-- `TTChatMessage::MAX_DATA_LENGTH`.
abbrev pub max_data_length : ℕ
max_data_length = 2048

pub record Message : Type 0 where
  pub type : MessageType
  pub timestamp : ℕ
  pub text : Bytes

pub record Entry : Type 0 where
  pub type : MessageType
  pub timestamp : ℕ
  pub text : Bytes

unfoldable pub same_type : MessageType → MessageType → Bool
unfolding type_code
same_type a b = type_code a == type_code b

-- `operator==` of two messages: the commands are compared by their type alone.
unfoldable pub same_message : Message → Message → Bool
unfolding same_type
same_message lhs rhs = dispatch lhs.type
  where
    all : Bool
    all = same_type lhs.type rhs.type && (lhs.timestamp == rhs.timestamp) && same lhs.text rhs.text

    dispatch : MessageType → Bool
    dispatch sender = all
    dispatch sender_chunk = all
    dispatch receiver = all
    dispatch receiver_chunk = all
    dispatch clear = same_type lhs.type rhs.type
    dispatch heartbeat = same_type lhs.type rhs.type
    dispatch goodbye = same_type lhs.type rhs.type
    dispatch (unknown n) = false

unfoldable pub same_entry : Entry → Entry → Bool
unfolding same_type
same_entry lhs rhs = dispatch lhs.type
  where
    all : Bool
    all = same_type lhs.type rhs.type && (lhs.timestamp == rhs.timestamp) && same lhs.text rhs.text

    dispatch : MessageType → Bool
    dispatch sender = all
    dispatch receiver = all
    dispatch _ = false
