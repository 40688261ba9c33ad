-- ===== src/Settings/Tests.antt =====
-- Instances of what is proved of the settings (chat/src, contacts/src, textbox/src, engine/src).
use terminal_teams.Prelude.{
  Bool, Bytes, List, Option, [], codes, false, ltb, refl, some, ℕ, ◌∷◌, ◌≡◌,
}
use terminal_teams.Settings.Parsing.{parsed, size_from_chars}
use terminal_teams.Settings.Windows.{
  ChatSettings, ContactsSettings, TextBoxSettings, chat_settings, contacts_settings,
  text_box_settings, get_primary_message_queue, get_secondary_message_queue, get_shared_memory,
  get_named_pipe,
}
use terminal_teams.Settings.Engine.{EngineSettings, engine_settings}
use terminal_teams.Settings.Channels.{engine_settings-channels}
use terminal_teams.Settings.Checked.{IsUsable, AllAddresses, engine_settings-checked}

-- One digit, and texts that start with a digit.
abbrev extract : Bytes → Option ℕ
extract = size_from_chars

abbrev is_address : Bytes → Bool
is_address [] = false
is_address (c ∷ cs) = ltb c 58

abbrev neighbors : List Bytes
neighbors = codes "10.0.0.2" ∷ []

abbrev args : List Bytes
args =
    codes "engine"
    ∷ codes "memory"
    ∷ codes "queue"
    ∷ codes "pipe"
    ∷ codes "nick"
    ∷ codes "id"
    ∷ codes "eth0"
    ∷ codes "10.0.0.1"
    ∷ codes "17888"
    ∷ neighbors

abbrev made : EngineSettings
made = record {
  contacts = record { width = 0; height = 0; shared_memory_name = codes "memory" };
  chat = record { width = 0; height = 0; message_queue_name = codes "/queue" };
  text_box = record { width = 0; height = 0; unique_path = codes "/tmp/pipe-pipe" };
  nickname = codes "nick";
  identity = codes "id";
  network_interface = record {
    name = codes "eth0";
    ip_address = codes "10.0.0.1";
    port = codes "17888";
  };
  neighbors = neighbors;
}

engine_made : engine_settings extract is_address args ≡ parsed made
unfolding engine_settings
engine_made = refl

engine_settings-channels_example :
    ((c : ContactsSettings)
      → contacts_settings extract (codes "contacts" ∷ codes "80" ∷ codes "24" ∷ codes "memory" ∷ [])
        ≡ parsed c
      → get_shared_memory c 300 ≡ get_shared_memory made.contacts 300)
    × ((c : ChatSettings)
        → chat_settings (codes "contacts" ∷ codes "80" ∷ codes "24" ∷ codes "queue" ∷ []) ≡ parsed c
        → (get_primary_message_queue c 300 ≡ get_primary_message_queue made.chat 300)
          × (get_secondary_message_queue c 300 ≡ get_secondary_message_queue made.chat 300))
    × ((t : TextBoxSettings)
        → text_box_settings extract (codes "contacts" ∷ codes "80" ∷ codes "24" ∷ codes "pipe" ∷ [])
          ≡ parsed t
        → get_named_pipe t 300 ≡ get_named_pipe made.text_box 300)
engine_settings-channels_example =
    engine_settings-channels extract is_address (codes "engine") (codes "memory") (codes "queue")
      (codes "pipe") (codes "nick") (codes "id") (codes "eth0") (codes "10.0.0.1") (codes "17888")
      neighbors made engine_made (codes "contacts") (codes "80") (codes "24") 300

engine_settings-checked_example :
    IsUsable is_address made.network_interface
    × (made.neighbors ≡ neighbors)
    × AllAddresses is_address made.neighbors
engine_settings-checked_example =
    engine_settings-checked extract is_address (codes "engine") (codes "memory") (codes "queue")
      (codes "pipe") (codes "nick") (codes "id") (codes "eth0") (codes "10.0.0.1") (codes "17888")
      neighbors made engine_made

-- A port is not read to its end.
port_with_letters : size_from_chars (codes "80abc") ≡ some 80
unfolding size_from_chars
port_with_letters = refl
