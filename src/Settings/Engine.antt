-- ===== src/Settings/Engine.antt =====
-- engine/src/TTEngineSettings.cpp and TTNetworkInterface.hpp. `is_address` says whether `inet_pton` takes
-- a text as an IPv4 address.
use terminal_teams.Prelude.{
  Bool, Bytes, List, Option, [], codes, if◌then◌else◌, ltb, not, ℕ, ◌++◌, ◌∷◌,
}
use terminal_teams.Settings.Parsing.{Parsed, parsed, thrown, and_then, or_throw, size_from_chars}
use terminal_teams.Settings.Windows.{
  ChatSettings, ContactsSettings, TextBoxSettings, chat_settings, contacts_settings,
  text_box_settings,
}

pub record NetworkInterface : Type 0 where
  pub name : Bytes
  pub ip_address : Bytes
  pub port : Bytes

unfoldable pub get_ip_address_and_port : NetworkInterface → Bytes
get_ip_address_and_port i = i.ip_address ++ codes ":" ++ i.port

pub record EngineSettings : Type 0 where
  pub contacts : ContactsSettings
  pub chat : ChatSettings
  pub text_box : TextBoxSettings
  pub nickname : Bytes
  pub identity : Bytes
  pub network_interface : NetworkInterface
  pub neighbors : List Bytes

-- The arguments that the engine makes for the settings of a window.
abbrev pub window_args : Bytes → Bytes → List Bytes
window_args program name = program ∷ codes "0" ∷ codes "0" ∷ name ∷ []

unfoldable pub network_interface : (Bytes → Bool) → Bytes → Bytes → Bytes → Parsed NetworkInterface
unfolding size_from_chars
network_interface is_address name ip_address port =
    if not (is_address ip_address)
    then thrown
    else and_then (or_throw (size_from_chars port)) (λ p.
      if ltb 65535 p
      then thrown
      else parsed (record { name = name; ip_address = ip_address; port = port }))

-- The loop over the rest of the arguments.
unfoldable pub read_neighbors : (Bytes → Bool) → List Bytes → Parsed (List Bytes)
read_neighbors is_address [] = parsed []
read_neighbors is_address (neighbor ∷ rest) =
    if not (is_address neighbor)
    then thrown
    else and_then (read_neighbors is_address rest) (λ neighbors. parsed (neighbor ∷ neighbors))

unfoldable pub engine_settings :
    (Bytes → Option ℕ) → (Bytes → Bool) → List Bytes → Parsed EngineSettings
unfolding chat_settings contacts_settings text_box_settings network_interface read_neighbors
engine_settings extract is_address
      (program ∷ memory ∷ queue ∷ pipe ∷ nickname ∷ identity ∷ name ∷ ip_address ∷ port ∷ rest) =
    and_then (contacts_settings extract (window_args program memory)) (λ contacts.
      and_then (chat_settings (window_args program queue)) (λ chat.
        and_then (text_box_settings extract (window_args program pipe)) (λ text_box.
          and_then (network_interface is_address name ip_address port) (λ interface.
            and_then (read_neighbors is_address rest) (λ neighbors. parsed (record {
              contacts = contacts;
              chat = chat;
              text_box = text_box;
              nickname = nickname;
              identity = identity;
              network_interface = interface;
              neighbors = neighbors;
            }))))))
engine_settings extract is_address args = thrown
