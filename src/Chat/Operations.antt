-- ===== src/Chat/Operations.antt =====
-- Each operation of the chat handler (chat/src/TTChatHandler.cpp) keeps what the window is to show in
-- step with the current conversation.
pub mod Keeping
use terminal_teams.Prelude.{
  All, All-append, All-get_elem?, All-set, Bool, Bytes, List, Option, [], ap, arith, false,
  get_elem?, get_elem?-lt, get_elem?-set_ne, get_elem?-set_self, if◌then◌else◌, leb, length,
  length-set, none, refl, set, some, sym, true, ℕ, ◌++◌, ◌<◌, ◌==◌, ◌∙◌, ◌∷◌, ◌≡◌,
}
use terminal_teams.Chat.Message.{Message, Entry, max_data_length, receiver}
use terminal_teams.Chat.Handler.{
  Handler, split_messages, store, send_typed, send, receive, select, create, is_current,
}
use terminal_teams.Chat.Window.{Settings, Window}
use terminal_teams.Chat.Conversation.{IsStored}
use terminal_teams.Chat.Success.{send_typed-eq, store-some, at-current}
use terminal_teams.Chat.Faithful.{Faithful, IsSound, conversation, entries_at}

-- What is kept: the handler is sound, and the window will show its current conversation.
abbrev pub Kept : Settings → Window → List Message → Handler → Type 0
Kept s w under_way h = IsSound h × Faithful s h w under_way

-- The handler with an entry at the end of a conversation.
abbrev pub stored_at : Handler → ℕ → List Entry → Entry → Handler
stored_at h id storage e = record h { messages = set h.messages id (storage ++ e ∷ []) }

opposite : (b : Bool) → b ≡ true → b ≡ false → ⊥
opposite b yes_it no_it = cc

module _ (h : Handler) (sound : IsSound h) where
  pub stored_at-IsSound :
      (id : ℕ) (storage : List Entry) (e : Entry) (queue : List Message)
      → get_elem? h.messages id ≡ some storage
      → IsStored e
      → IsSound (record (stored_at h id storage e) { queued = queue })
  stored_at-IsSound id storage e queue found kind = record {
    running = sound.running;
    in_range =
        λ c cur. omega (arith, sound.in_range c cur, length-set h.messages id (storage ++ e ∷ []));
    stored = All-set (All IsStored) h.messages id (storage ++ e ∷ []) sound.stored (
        All-append IsStored storage (e ∷ [])
          (All-get_elem? (All IsStored) h.messages id storage sound.stored found) (kind, tt));
  }

  pub grown :
      (id : ℕ) (storage : List Entry) (e : Entry)
      → get_elem? h.messages id ≡ some storage
      → h.current_id ≡ some id
      → conversation (stored_at h id storage e) ≡ conversation h ++ e ∷ []
  grown id storage e found cur =
      ap (entries_at (set h.messages id (storage ++ e ∷ []))) cur
      ∙ ap (λ (o : Option (List Entry)). elim o [ none ↦ [] | some es ↦ es ])
          (get_elem?-set_self h.messages id (storage ++ e ∷ [])
            (get_elem?-lt h.messages id storage found))
      ∙ ap (λ es. es ++ e ∷ [])
          (sym (
            ap (entries_at h.messages) cur
            ∙ ap (λ (o : Option (List Entry)). elim o [ none ↦ [] | some es ↦ es ]) found))

  -- Another conversation than the current one.
  pub aside :
      (id : ℕ) (storage : List Entry)
      → is_current h id ≡ false
      → entries_at (set h.messages id storage) h.current_id ≡ conversation h
  aside id storage other = go h.current_id refl
    where
      go :
          (c : Option ℕ)
          → h.current_id ≡ c
          → entries_at (set h.messages id storage) c ≡ entries_at h.messages c
      go none e = refl
      go (some c) e =
          ap (λ (o : Option (List Entry)). elim o [ none ↦ [] | some es ↦ es ])
            (get_elem?-set_ne h.messages id c storage (λ same_id.
              opposite (is_current h id) (at-current h id (e ∙ ap some (sym same_id))) other))

pub send-refused :
    (h : Handler) (id : ℕ) (message : Bytes) (now : ℕ)
    → h.stopped ≡ false
    → is_current h id ≡ false
    → send h id message now ≡ (h, false)
unfolding send
send-refused h id message now live other = ground (arith, live, other)

pub range-of : (h : Handler) (id : ℕ) → id < length h.messages → leb (length h.messages) id ≡ false
range-of h id lt = ground arith

-- An entry of the current conversation that is stored and sent.
unfoldable pub said : Handler → ℕ → List Entry → Entry → Handler
said h id storage e = record (stored_at h id storage e) {
  queued = h.queued ++ split_messages max_data_length e.type e.text e.timestamp;
}

pub said-eq :
    (h : Handler) (id : ℕ) (e : Entry) (storage : List Entry)
    → h.stopped ≡ false
    → get_elem? h.messages id ≡ some storage
    → send_typed (store h id e) e.type e.text e.timestamp ≡ (said h id storage e, true)
unfolding said
said-eq h id e storage live found =
    ap (λ (h' : Handler). send_typed h' e.type e.text e.timestamp) (store-some h id e storage found)
    ∙ send_typed-eq (stored_at h id storage e) e.type e.text e.timestamp live

pub receive-refused :
    (h : Handler) (id : ℕ) (message : Bytes) (now : ℕ)
    → h.stopped ≡ false
    → leb (length h.messages) id ≡ true
    → receive h id message now ≡ (h, false)
unfolding receive
receive-refused h id message now live beyond = ground (arith, live, beyond)

-- What `receive` does once the conversation is found.
abbrev received_by : Handler → ℕ → Bytes → ℕ → Handler × Bool
received_by h id message now =
    if is_current h id then send_typed h receiver message now else (h, true)

receive-stored :
    (h : Handler) (id : ℕ) (message : Bytes) (now : ℕ)
    → h.stopped ≡ false
    → leb (length h.messages) id ≡ false
    → receive h id message now
      ≡ received_by
          (store h id (record { type = receiver; timestamp = now; text = message }))
          id
          message
          now
unfolding receive
receive-stored h id message now live range = ground (arith, live, range)

receive-found :
    (h : Handler) (id : ℕ) (message : Bytes) (now : ℕ) (storage : List Entry)
    → h.stopped ≡ false
    → get_elem? h.messages id ≡ some storage
    → receive h id message now
      ≡ received_by
          (stored_at h id storage (record { type = receiver; timestamp = now; text = message }))
          id
          message
          now
receive-found h id message now storage live found =
    let e : Entry = record { type = receiver; timestamp = now; text = message } in
    receive-stored h id message now live (range-of h id (get_elem?-lt h.messages id storage found))
    ∙ ap (λ (h' : Handler). received_by h' id message now) (store-some h id e storage found)

pub receive-here :
    (h : Handler) (id : ℕ) (message : Bytes) (now : ℕ) (storage : List Entry)
    → h.stopped ≡ false
    → get_elem? h.messages id ≡ some storage
    → is_current h id ≡ true
    → receive h id message now
      ≡ (said h id storage (record { type = receiver; timestamp = now; text = message }), true)
unfolding said
receive-here h id message now storage live found here =
    let e : Entry = record { type = receiver; timestamp = now; text = message } in
    receive-found h id message now storage live found
    ∙ ap
        (λ (b : Bool).
          if b
          then send_typed (stored_at h id storage e) receiver message now
          else (stored_at h id storage e, true))
        here
    ∙ send_typed-eq (stored_at h id storage e) receiver message now live

pub receive-aside :
    (h : Handler) (id : ℕ) (message : Bytes) (now : ℕ) (storage : List Entry)
    → h.stopped ≡ false
    → get_elem? h.messages id ≡ some storage
    → is_current h id ≡ false
    → receive h id message now
      ≡ (stored_at h id storage (record { type = receiver; timestamp = now; text = message }), true)
receive-aside h id message now storage live found other =
    let e : Entry = record { type = receiver; timestamp = now; text = message } in
    receive-found h id message now storage live found
    ∙ ap
        (λ (b : Bool).
          if b
          then send_typed (stored_at h id storage e) receiver message now
          else (stored_at h id storage e, true))
        other

pub select-refused :
    (h : Handler) (id now : ℕ)
    → h.stopped ≡ false
    → leb (length h.messages) id ≡ true
    → select h id now ≡ (h, false)
unfolding select
select-refused h id now live beyond = ground (arith, live, beyond)

pub create-refused :
    (h : Handler) (id : ℕ)
    → h.stopped ≡ false
    → (id == length h.messages) ≡ false
    → create h id ≡ (h, false)
unfolding create
create-refused h id live wrong = ground (arith, live, wrong)
