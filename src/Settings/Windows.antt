-- ===== src/Settings/Windows.antt =====
-- chat/src/TTChatSettings.cpp, contacts/src/TTContactsSettings.cpp and textbox/src/TTTextBoxSettings.cpp.
-- The arguments are a list, the name of the program first. `extract` is the operator `>>` of a string
-- stream into a `size_t`, of the C++ library; the sizes of the message types are arguments.
use terminal_teams.Prelude.{Bytes, List, Option, [], codes, if◌then◌else◌, ℕ, ◌++◌, ◌==◌, ◌∷◌}
use terminal_teams.Settings.Parsing.{
  Parsed, parsed, thrown, undefined, and_then, or_throw, size_from_chars,
}
use terminal_teams.Utils.MessageQueue as MessageQueue
use terminal_teams.Utils.SharedMem as SharedMem
use terminal_teams.Utils.NamedPipe as NamedPipe

pub record ChatSettings : Type 0 where
  pub width : ℕ
  pub height : ℕ
  pub message_queue_name : Bytes

pub record ContactsSettings : Type 0 where
  pub width : ℕ
  pub height : ℕ
  pub shared_memory_name : Bytes

pub record TextBoxSettings : Type 0 where
  pub width : ℕ
  pub height : ℕ
  pub unique_path : Bytes

-- A name gets a slash in front where it has none; `front` of an empty text is undefined.
unfoldable pub queue_name : Bytes → Parsed Bytes
queue_name [] = undefined
queue_name (c ∷ cs) = parsed (if c == b'/' then c ∷ cs else b'/' ∷ c ∷ cs)

unfoldable pub chat_settings : List Bytes → Parsed ChatSettings
unfolding queue_name size_from_chars
chat_settings (program ∷ width ∷ height ∷ name ∷ []) =
    and_then (or_throw (size_from_chars width)) (λ w.
      and_then (or_throw (size_from_chars height)) (λ h.
        and_then (queue_name name)
          (λ q. parsed (record { width = w; height = h; message_queue_name = q }))))
chat_settings args = thrown

abbrev pub primary_postfix : Bytes
primary_postfix = codes "-primary"

abbrev pub secondary_postfix : Bytes
secondary_postfix = codes "-secondary"

unfoldable pub get_primary_message_queue : ChatSettings → ℕ → MessageQueue.MessageQueue
unfolding MessageQueue.init
get_primary_message_queue s message_size =
    MessageQueue.init (s.message_queue_name ++ primary_postfix) 8 message_size

unfoldable pub get_secondary_message_queue : ChatSettings → ℕ → MessageQueue.MessageQueue
unfolding MessageQueue.init
get_secondary_message_queue s message_size =
    MessageQueue.init (s.message_queue_name ++ secondary_postfix) 8 message_size

unfoldable pub contacts_settings : (Bytes → Option ℕ) → List Bytes → Parsed ContactsSettings
contacts_settings extract (program ∷ width ∷ height ∷ name ∷ []) =
    and_then (or_throw (extract width)) (λ w.
      and_then (or_throw (extract height))
        (λ h. parsed (record { width = w; height = h; shared_memory_name = name })))
contacts_settings extract args = thrown

unfoldable pub get_shared_memory : ContactsSettings → ℕ → SharedMem.SharedMem
unfolding SharedMem.init
get_shared_memory s message_size =
    SharedMem.init s.shared_memory_name (s.shared_memory_name ++ codes "-data-consumed")
      (s.shared_memory_name ++ codes "-data-produced") message_size

unfoldable pub text_box_settings : (Bytes → Option ℕ) → List Bytes → Parsed TextBoxSettings
text_box_settings extract (program ∷ width ∷ height ∷ name ∷ []) =
    and_then (or_throw (extract width)) (λ w. and_then (or_throw (extract height)) (λ h.
      parsed
        (record { width = w; height = h; unique_path = codes "/tmp/" ++ name ++ codes "-pipe" })))
text_box_settings extract args = thrown

unfoldable pub get_named_pipe : TextBoxSettings → ℕ → NamedPipe.NamedPipe
unfolding NamedPipe.init
get_named_pipe s message_size = NamedPipe.init s.unique_path message_size
