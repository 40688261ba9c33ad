-- ===== src/TextBox/Message.antt =====
-- textbox/src/TTTextBoxStatus.hpp and TTTextBoxMessage.hpp. A message is its status and the first
-- `dataLength` bytes of its buffer; the rest of the buffer is zero.
use terminal_teams.Prelude.{
  Bool, Bytes, [], length, same, suc, zero, ℕ, ◌%◌, ◌&&◌, ◌*◌, ◌+◌, ◌/◌, ◌==◌, ◌∷◌,
}

-- A status that is no enumerator is `unknown`.
pub data Status : Type 0 where
  undefined heartbeat contacts_select message goodbye : Status
  unknown : ℕ → Status

pub record Message : Type 0 where
  pub status : Status
  pub text : Bytes

-- `DATA_MAX_DIGITS` and `DATA_MAX_LENGTH`.
abbrev pub data_max_digits : ℕ
data_max_digits = 4

abbrev pub data_max_length : ℕ
data_max_length = 2048

unfoldable pub status_code : Status → ℕ
status_code undefined = 0
status_code heartbeat = 1
status_code contacts_select = 2
status_code message = 3
status_code goodbye = 4
status_code (unknown n) = suc (suc (suc (suc (suc n))))

unfoldable pub same_message : Message → Message → Bool
unfolding status_code
same_message lhs rhs =
    (status_code lhs.status == status_code rhs.status)
    && (length lhs.text == length rhs.text)
    && same lhs.text rhs.text

-- The bytes of a `size_t`, as `memcpy` copies it on a little-endian machine, and back.
unfoldable pub bytes_of_size : ℕ → ℕ → Bytes
bytes_of_size zero n = []
bytes_of_size (suc k) n = (n % 256) ∷ bytes_of_size k (n / 256)

unfoldable pub size_of_bytes : Bytes → ℕ
size_of_bytes [] = 0
size_of_bytes (b ∷ bs) = b + 256 * size_of_bytes bs

-- `sizeof(size_t)`.
abbrev pub size_width : ℕ
size_width = 8
