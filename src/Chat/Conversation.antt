-- ===== src/Chat/Conversation.antt =====
-- Selecting a contact (`TTChatHandler::select`, chat/src/TTChatHandler.cpp), up to what the window
-- then shows (`TTChat`, chat/src/TTChat.cpp).
use terminal_teams.Prelude.{
  All, Bool, Bytes, List, Option, Option-cases, [], ap, append-nil, append_assoc, arith, false,
  get_elem?, get_elem?-lt, inl, inr, leb, length, none, refl, some, sym, true, ℕ, ◌++◌, ◌>>=◌, ◌∙◌,
  ◌∷◌, ◌≡◌, ◌≢◌,
}
use terminal_teams.Chat.Message.{MessageType, Message, Entry, clear, max_data_length}
use terminal_teams.Chat.Handler.{
  Handler, split_messages, send_typed, send_stored, show_stored, select, is_current,
}
use terminal_teams.Chat.Window.{Settings, Window, clear_screen, print, print_lines, handle, run}
use terminal_teams.Chat.Layout.{layout}
use terminal_teams.Chat.Delivery.{IsWhole, run-split_messages, run-step}

-- What a stored conversation is sent as.
abbrev pub stored_messages : List Entry → List Message
stored_messages [] = []
stored_messages (e ∷ es) =
    split_messages max_data_length e.type e.text e.timestamp ++ stored_messages es

-- The entries of a conversation, printed in turn.
abbrev pub print_entries : Settings → Window → List Entry → Option Window
print_entries s w [] = some w
print_entries s w (e ∷ es) = print s w e.type e.timestamp e.text >>= λ w'. print_entries s w' es

abbrev pub IsStored : Entry → Type 0
IsStored e = IsWhole e.type

send_stored-eq :
    (h : Handler) (es : List Entry)
    → h.stopped ≡ false
    → send_stored h es ≡ (record h { queued = h.queued ++ stored_messages es }, true)
unfolding send_stored send_typed
send_stored-eq h [] live = rw append-nil
send_stored-eq h (e ∷ es) live = simp (
  live,
  send_stored-eq
      (record h {
        stopped = false;
        queued = h.queued ++ split_messages max_data_length e.type e.text e.timestamp;
      })
      es refl,
  append_assoc,
)

-- The command that clears the window.
abbrev pub clear_message : ℕ → Message
clear_message now = record { type = clear; timestamp = now; text = [] }

split_messages-clear :
    (now : ℕ) → split_messages max_data_length clear [] now ≡ clear_message now ∷ []
unfolding split_messages
split_messages-clear now = refl

-- What precedes the conversation in the queue: nothing where no contact was selected before.
abbrev pub clear_messages : Option ℕ → ℕ → List Message
clear_messages none now = []
clear_messages (some c) now = clear_message now ∷ []

show_stored-eq :
    (h : Handler) (id : ℕ) (storage : List Entry)
    → h.stopped ≡ false
    → get_elem? h.messages id ≡ some storage
    → show_stored h id
      ≡ (record h { current_id = some id; queued = h.queued ++ stored_messages storage }, true)
unfolding show_stored
show_stored-eq h id storage live found =
    rw (found, show_stored) (send_stored-eq (record h { current_id = some id }) storage live)

-- The members one by one, for a split on the current contact.
select_members :
    (stopped : Bool) (cur : Option ℕ) (messages : List (List Entry)) (queued : List Message)
    (id now : ℕ) (storage : List Entry)
    → let h : Handler = record {
      stopped = stopped;
      current_id = cur;
      messages = messages;
      queued = queued;
    } in
      stopped ≡ false
      → leb (length messages) id ≡ false
      → is_current h id ≡ false
      → get_elem? messages id ≡ some storage
      → select h id now ≡ (
        record h {
          current_id = some id;
          queued = queued ++ clear_messages cur now ++ stored_messages storage;
        },
        true,
      )
unfolding select send_typed
select_members true cur messages queued id now storage live range other found = cc
select_members false none messages queued id now storage live range other found =
    rw (range, append-nil) (show_stored-eq _ id storage refl found)
select_members false (some c) messages queued id now storage live range other found =
    rw (range, other, split_messages-clear now) (show_stored-eq _ id storage refl found)

-- A selection of another contact that there is succeeds, and queues that contact's conversation.
pub select-eq :
    (h : Handler) (id now : ℕ) (storage : List Entry)
    → h.stopped ≡ false
    → is_current h id ≡ false
    → get_elem? h.messages id ≡ some storage
    → select h id now ≡ (
      record h {
        current_id = some id;
        queued = h.queued ++ clear_messages h.current_id now ++ stored_messages storage;
      },
      true,
    )
select-eq h id now storage live other found =
    select_members h.stopped h.current_id h.messages h.queued id now storage live
      (ground (arith, get_elem?-lt h.messages id storage found)) other found

-- The window prints the conversation that it is sent, entry by entry.
pub print-keeps :
    (s : Settings) (w : Window) (type : MessageType) (timestamp : ℕ) (bytes : Bytes) (w' : Window)
    → print s w type timestamp bytes ≡ some w'
    → (w'.stopped ≡ w.stopped) × (w'.chunks ≡ w.chunks)
unfolding print
print-keeps s w type timestamp bytes w' e = elim (Option-cases (layout s.side_width bytes)) [
  | inl none_made ↦ absurd (none≢some (rw none_made at e))
  | inr (lines, made) ↦ kept lines (rw made at e)
]
  where
    none≢some : none ≡ some w' → ⊥
    none≢some e' = cc

    kept :
        (lines : List Bytes)
        → some (record w { screen = w.screen ++ print_lines s type timestamp lines }) ≡ some w'
        → (w'.stopped ≡ w.stopped) × (w'.chunks ≡ w.chunks)
    kept lines e' = ground arith

run-stored_messages :
    (s : Settings) (w : Window) (es : List Entry) (ms : List Message)
    → All IsStored es
    → w.stopped ≡ false
    → w.chunks ≡ []
    → run s w (stored_messages es ++ ms) ≡ (print_entries s w es >>= λ w'. run s w' ms)
run-stored_messages s w [] ms k live none_yet = refl
run-stored_messages s w (e ∷ es) ms k live none_yet =
    ap (run s w) (append_assoc (split_messages max_data_length e.type e.text e.timestamp) _ ms)
    ∙ run-split_messages s w e.type max_data_length e.timestamp e.text (stored_messages es ++ ms)
        k.0 (omega arith) live none_yet
    ∙ next (λ w'. run-stored_messages s w' es ms k.1) (print s w e.type e.timestamp e.text) refl
  where
    next :
        ((w' : Window)
          → w'.stopped ≡ false
          → w'.chunks ≡ []
          → run s w' (stored_messages es ++ ms) ≡ (print_entries s w' es >>= λ v. run s v ms))
        → (p : Option Window) → print s w e.type e.timestamp e.text ≡ p
        → (p >>= λ w'. run s w' (stored_messages es ++ ms))
          ≡ (p >>= (λ w'. print_entries s w' es) >>= λ w'. run s w' ms)
    next ih none eq = refl
    next ih (some w') eq =
        let kept = print-keeps s w e.type e.timestamp e.text w' eq in
        ih w' (kept.0 ∙ live) (kept.1 ∙ none_yet)

pub handle-clear :
    (s : Settings) (w : Window) (now : ℕ)
    → w.chunks ≡ []
    → handle s w (clear_message now)
      ≡ some (record w { screen = w.screen ++ clear_screen ∷ [] }, true)
unfolding handle
handle-clear s w now none_yet = simp none_yet

-- Selecting another contact of a live handler succeeds. Where a contact was selected before, and the
-- live window has taken all that was queued and holds no chunks, the window then is cleared and
-- prints every stored message of the contact, whole and in order.
pub select-shows :
    (s : Settings) (w : Window) (h : Handler) (id now before : ℕ) (storage : List Entry)
    → h.stopped ≡ false
    → h.queued ≡ []
    → h.current_id ≡ some before
    → before ≢ id
    → get_elem? h.messages id ≡ some storage
    → All IsStored storage
    → w.stopped ≡ false
    → w.chunks ≡ []
    → ((select h id now).1 ≡ true)
      × ((select h id now).0.current_id ≡ some id)
      × (run s w (select h id now).0.queued ≡ (
          print_entries s (record w { screen = w.screen ++ clear_screen ∷ [] }) storage >>= λ w'.
          some (record w' { stopped = true })))
unfolding run
select-shows s w h id now before storage live drained cur other found stored wlive none_yet =
    (ap (λ r. r.1) eq, ap (λ r. r.0.current_id) eq, ap (λ r. run s w r.0.queued) eq ∙ rest)
  where
    not_current : is_current h id ≡ false
    not_current = ground arith

    eq : select h id now ≡ (
      record h {
        current_id = some id;
        queued = h.queued ++ clear_messages h.current_id now ++ stored_messages storage;
      },
      true,
    )
    eq = select-eq h id now storage live not_current found

    cleared : Window
    cleared = record w { screen = w.screen ++ clear_screen ∷ [] }

    rest :
        run s w (h.queued ++ clear_messages h.current_id now ++ stored_messages storage)
        ≡ (print_entries s cleared storage >>= λ w'. some (record w' { stopped = true }))
    rest =
        rw (drained, cur)
          (run-step s w (clear_message now) (stored_messages storage) cleared wlive
              (handle-clear s w now none_yet)
            ∙ ap (run s cleared) (sym (append-nil (stored_messages storage)))
            ∙ run-stored_messages s cleared storage [] stored wlive none_yet)
