-- ===== src/Settings/Channels.antt =====
-- What the settings of chat/src, contacts/src, textbox/src and engine/src give: the names of the channels,
-- and that what an engine starts with was checked.
use terminal_teams.Prelude.{Bool, Bytes, List, Option, [], ap, codes, sym, ℕ, ◌++◌, ◌∙◌, ◌∷◌, ◌≡◌}
use terminal_teams.Settings.Parsing.{parsed, and_then-parsed, or_throw, size_from_chars}
use terminal_teams.Settings.Windows.{
  ChatSettings, ContactsSettings, TextBoxSettings, queue_name, chat_settings, contacts_settings,
  text_box_settings, get_primary_message_queue, get_secondary_message_queue, get_shared_memory,
  get_named_pipe, primary_postfix, secondary_postfix,
}
use terminal_teams.Settings.Engine.{
  EngineSettings, window_args, network_interface, read_neighbors, engine_settings,
}
use terminal_teams.Utils.MessageQueue as MessageQueue
use terminal_teams.Utils.SharedMem as SharedMem
use terminal_teams.Utils.NamedPipe as NamedPipe

pub parsed-same : {A : Type 0} → (a b : A) → parsed a ≡ parsed b → a ≡ b
parsed-same a b e = cc

contacts_settings-name :
    (extract : Bytes → Option ℕ) (program width height name : Bytes) (c : ContactsSettings)
    → contacts_settings extract (program ∷ width ∷ height ∷ name ∷ []) ≡ parsed c
    → c.shared_memory_name ≡ name
unfolding contacts_settings
contacts_settings-name extract program width height name c e =
    let w = and_then-parsed (or_throw (extract width)) _ c e in
    let h = and_then-parsed (or_throw (extract height)) _ c w.2 in
    ap (λ (s : ContactsSettings). s.shared_memory_name) (sym (parsed-same _ c h.2))

text_box_settings-path :
    (extract : Bytes → Option ℕ) (program width height name : Bytes) (t : TextBoxSettings)
    → text_box_settings extract (program ∷ width ∷ height ∷ name ∷ []) ≡ parsed t
    → t.unique_path ≡ codes "/tmp/" ++ name ++ codes "-pipe"
unfolding text_box_settings
text_box_settings-path extract program width height name t e =
    let w = and_then-parsed (or_throw (extract width)) _ t e in
    let h = and_then-parsed (or_throw (extract height)) _ t w.2 in
    ap (λ (s : TextBoxSettings). s.unique_path) (sym (parsed-same _ t h.2))

pub chat_settings-name :
    (program width height name : Bytes) (c : ChatSettings)
    → chat_settings (program ∷ width ∷ height ∷ name ∷ []) ≡ parsed c
    → queue_name name ≡ parsed c.message_queue_name
unfolding chat_settings
chat_settings-name program width height name c e =
    let w = and_then-parsed (or_throw (size_from_chars width)) _ c e in
    let h = and_then-parsed (or_throw (size_from_chars height)) _ c w.2 in
    let q = and_then-parsed (queue_name name) _ c h.2 in
    q.1 ∙ ap (λ (s : ChatSettings). parsed s.message_queue_name) (parsed-same _ c q.2)

module _ (extract : Bytes → Option ℕ) (is_address : Bytes → Bool)
    (program memory queue pipe nickname identity name ip_address port : Bytes) (rest : List Bytes)
    (s : EngineSettings)
    (done : engine_settings extract is_address
        (program ∷ memory ∷ queue ∷ pipe ∷ nickname ∷ identity ∷ name ∷ ip_address ∷ port ∷ rest)
      ≡ parsed s) where
  -- What the parts of the engine's settings were made of.
  pub engine_settings-parts :
      (contacts_settings extract (window_args program memory) ≡ parsed s.contacts)
      × (chat_settings (window_args program queue) ≡ parsed s.chat)
      × (text_box_settings extract (window_args program pipe) ≡ parsed s.text_box)
      × (network_interface is_address name ip_address port ≡ parsed s.network_interface)
      × (read_neighbors is_address rest ≡ parsed s.neighbors)
  unfolding engine_settings
  engine_settings-parts =
      let c = and_then-parsed (contacts_settings extract (window_args program memory)) _ s done in
      let q = and_then-parsed (chat_settings (window_args program queue)) _ s c.2 in
      let t = and_then-parsed (text_box_settings extract (window_args program pipe)) _ s q.2 in
      let i = and_then-parsed (network_interface is_address name ip_address port) _ s t.2 in
      let n = and_then-parsed (read_neighbors is_address rest) _ s i.2 in
      let same_s = parsed-same _ s n.2 in
      (
        c.1 ∙ ap (λ (e : EngineSettings). parsed e.contacts) same_s,
        q.1 ∙ ap (λ (e : EngineSettings). parsed e.chat) same_s,
        t.1 ∙ ap (λ (e : EngineSettings). parsed e.text_box) same_s,
        i.1 ∙ ap (λ (e : EngineSettings). parsed e.network_interface) same_s,
        n.1 ∙ ap (λ (e : EngineSettings). parsed e.neighbors) same_s,
      )

  -- An engine and a window that are given the same name of a channel, and whose settings are made, make
  -- the same channel of it, whatever the other arguments of the window are.
  pub engine_settings-channels :
      (window width height : Bytes) (message_size : ℕ)
      → ((c : ContactsSettings)
          → contacts_settings extract (window ∷ width ∷ height ∷ memory ∷ []) ≡ parsed c
          → get_shared_memory c message_size ≡ get_shared_memory s.contacts message_size)
        × ((c : ChatSettings)
            → chat_settings (window ∷ width ∷ height ∷ queue ∷ []) ≡ parsed c
            → (get_primary_message_queue c message_size
                ≡ get_primary_message_queue s.chat message_size)
              × (get_secondary_message_queue c message_size
                  ≡ get_secondary_message_queue s.chat message_size))
        × ((t : TextBoxSettings)
            → text_box_settings extract (window ∷ width ∷ height ∷ pipe ∷ []) ≡ parsed t
            → get_named_pipe t message_size ≡ get_named_pipe s.text_box message_size)
  unfolding get_shared_memory get_primary_message_queue get_secondary_message_queue get_named_pipe
  engine_settings-channels window width height message_size =
      let parts = engine_settings-parts in
      (
        λ c e.
            ap
              (λ (n : Bytes).
                SharedMem.init n (n ++ codes "-data-consumed") (n ++ codes "-data-produced")
                  message_size)
              (contacts_settings-name extract window width height memory c e
                ∙ sym (
                    contacts_settings-name extract program (codes "0") (codes "0") memory s.contacts
                      parts.0)),
        λ c e.
            let same_name = parsed-same c.message_queue_name s.chat.message_queue_name (
              sym (chat_settings-name window width height queue c e)
              ∙ chat_settings-name program (codes "0") (codes "0") queue s.chat parts.1) in
            (
              ap (λ (n : Bytes). MessageQueue.init (n ++ primary_postfix) 8 message_size) same_name,
              ap (λ (n : Bytes). MessageQueue.init (n ++ secondary_postfix) 8 message_size)
                  same_name,
            ),
        λ t e.
            ap (λ (p : Bytes). NamedPipe.init p message_size)
              (text_box_settings-path extract window width height pipe t e
                ∙ sym (
                    text_box_settings-path extract program (codes "0") (codes "0") pipe s.text_box
                      parts.2)),
      )
