-- ===== src/Chat/Consume.antt =====
-- The window process (chat/src/TTChat.cpp) as a consumer of messages: all of a list, each handled with
-- success. What it makes of the messages that one text is cut into, in front of any others.
use terminal_teams.Prelude.{
  All, Bool, Bytes, List, Option, [], ap, append-nil, append_assoc, arith, drop, false, length,
  none, refl, some, suc, sym, take, true, zero, ℕ, ◌*◌, ◌++◌, ◌+◌, ◌<◌, ◌>>=◌, ◌∙◌, ◌∷◌, ◌≡◌,
}
use terminal_teams.Chat.Message.{MessageType, Message, Entry, max_data_length}
use terminal_teams.Chat.Handler.{Cut, chunk_messages, cut, split_messages}
use terminal_teams.Chat.Handler.Chunks.{texts, texts-append, texts-split_messages}
use terminal_teams.Chat.Window.{Settings, Window, chunks_match, print, gather, handle, clear_screen}
use terminal_teams.Chat.Delivery.{
  IsWhole, chunk_of, handle-chunk, handle-whole, last?-append, same_type_refl, chunks_match-append,
  finish-print,
}
use terminal_teams.Chat.Conversation.{
  stored_messages, print_entries, IsStored, clear_message, handle-clear, print-keeps,
}

-- `none` where the window would end its loop, or not come to an end.
unfoldable pub consume : Settings → Window → List Message → Option Window
consume s w [] = some w
consume s w (m ∷ ms) = handle s w m >>= λ r. elim r.1 [ true ↦ consume s r.0 ms | false ↦ none ]

pub consume-append :
    (s : Settings) (w : Window) (xs ys : List Message)
    → consume s w (xs ++ ys) ≡ (consume s w xs >>= λ w'. consume s w' ys)
unfolding consume
consume-append s w [] ys = refl
consume-append s w (m ∷ ms) ys = go (λ w'. consume-append s w' ms ys) (handle s w m)
  where
    go :
        ((w' : Window) → consume s w' (ms ++ ys) ≡ (consume s w' ms >>= λ w''. consume s w'' ys))
        → (o : Option (Window × Bool))
        → (o >>= λ r. elim r.1 [ true ↦ consume s r.0 (ms ++ ys) | false ↦ none ]) ≡ (
            (o >>= λ r. elim r.1 [ true ↦ consume s r.0 ms | false ↦ none ]) >>= λ w'.
            consume s w' ys)
    go ih none = refl
    go ih (some (w', true)) = ih w'
    go ih (some (w', false)) = refl

pub consume-step :
    (s : Settings) (w : Window) (m : Message) (ms : List Message) (w' : Window)
    → handle s w m ≡ some (w', true)
    → consume s w (m ∷ ms) ≡ consume s w' ms
unfolding consume
consume-step s w m ms w' e = rw (e, consume) refl

-- The first message of a list that is consumed is handled with success.
pub consume-head :
    (s : Settings) (w : Window) (m : Message) (ms : List Message) (final : Window)
    → consume s w (m ∷ ms) ≡ some final
    → (w' : Window) × (handle s w m ≡ some (w', true)) × (consume s w' ms ≡ some final)
unfolding consume
consume-head s w m ms final e = go (handle s w m) refl e
  where
    go :
        (o : Option (Window × Bool))
        → handle s w m ≡ o
        → (o >>= λ r. elim r.1 [ true ↦ consume s r.0 ms | false ↦ none ]) ≡ some final
        → (w' : Window) × (handle s w m ≡ some (w', true)) × (consume s w' ms ≡ some final)
    go none at found = cc
    go (some (w', true)) at found = (w', at, found)
    go (some (w', false)) at found = cc

consume-bind :
    (s : Settings) (w : Window) (m : Message) (p : Option Window)
    → handle s w m ≡ (p >>= λ w'. some (w', true))
    → consume s w (m ∷ []) ≡ p
unfolding consume
consume-bind s w m none e = rw (e, consume) refl
consume-bind s w m (some w') e = rw (e, consume) refl

consume-chunk_messages :
    (s : Settings) (w : Window) (type : MessageType) (max timestamp : ℕ) (bytes : Bytes)
    (rounds i : ℕ)
    → IsWhole type
    → chunks_match (chunk_of type) w.chunks ≡ true
    → consume s w (chunk_messages max (chunk_of type) timestamp bytes rounds i)
      ≡ some (record w {
        chunks = w.chunks ++ chunk_messages max (chunk_of type) timestamp bytes rounds i;
      })
unfolding chunk_messages gather consume
consume-chunk_messages s w type max timestamp bytes zero i k ok = rw append-nil refl
consume-chunk_messages s w type max timestamp bytes (suc rounds) i k ok =
    let m : Message = record {
      type = chunk_of type;
      timestamp = timestamp;
      text = take max (drop (max * i) bytes);
    } in
    let w' : Window = record w { chunks = w.chunks ++ m ∷ [] } in
    let rest = chunk_messages max (chunk_of type) timestamp bytes rounds (i + 1) in
    consume-step s w m rest w' (handle-chunk s w type m k refl ∙ simp ok)
    ∙ consume-chunk_messages s w' type max timestamp bytes rounds (i + 1) k
        (rw (last?-append w.chunks m, chunks_match) (same_type_refl (chunk_of type)))
    ∙ ap (λ held. some (record w { chunks = held })) (append_assoc w.chunks (m ∷ []) rest)

pub consume-split_messages :
    (s : Settings) (w : Window) (type : MessageType) (max timestamp : ℕ) (bytes : Bytes)
    → IsWhole type
    → 0 < max
    → w.chunks ≡ []
    → consume s w (split_messages max type bytes timestamp) ≡ print s w type timestamp bytes
unfolding split_messages chunks_match
consume-split_messages s w type max timestamp bytes k h none_yet =
    consume-append s w chunks (last ∷ [])
    ∙ ap (λ (o : Option Window). o >>= λ v. consume s v (last ∷ []))
        (consume-chunk_messages s w type max timestamp bytes c.full 0 k
          (rw (none_yet, chunks_match) refl))
    ∙ consume-bind s w' last (print s (record w { chunks = [] }) type timestamp bytes) (
        handle-whole s w' type last k refl
        ∙ finish-print s w' (chunk_of type) last bytes
            (rw none_yet (chunks_match-append max timestamp (chunk_of type) bytes [] c.full 0 refl))
            (rw none_yet joined))
    ∙ ap (λ held. print s (record w { chunks = held }) type timestamp bytes) (sym none_yet)
  where
    c : Cut
    c = cut max (length bytes)

    chunks : List Message
    chunks = chunk_messages max (chunk_of type) timestamp bytes c.full 0

    last : Message
    last = record { type = type; timestamp = timestamp; text = take c.last (drop c.total bytes) }

    w' : Window
    w' = record w { chunks = w.chunks ++ chunks }

    joined : texts chunks ++ last.text ≡ bytes
    joined =
        ap (◌++◌ (texts chunks)) (sym (append-nil last.text))
        ∙ sym (texts-append chunks (last ∷ []))
        ∙ texts-split_messages max type bytes timestamp h

pub consume-stored_messages :
    (s : Settings) (w : Window) (es : List Entry)
    → All IsStored es
    → w.chunks ≡ []
    → consume s w (stored_messages es) ≡ print_entries s w es
unfolding consume
consume-stored_messages s w [] k none_yet = refl
consume-stored_messages s w (e ∷ es) k none_yet =
    consume-append s w (split_messages max_data_length e.type e.text e.timestamp)
      (stored_messages es)
    ∙ ap (λ (o : Option Window). o >>= λ v. consume s v (stored_messages es))
        (consume-split_messages s w e.type max_data_length e.timestamp e.text k.0 (omega arith)
          none_yet)
    ∙ next (λ w'. consume-stored_messages s w' es k.1) (print s w e.type e.timestamp e.text) refl
  where
    next :
        ((w' : Window) → w'.chunks ≡ [] → consume s w' (stored_messages es) ≡ print_entries s w' es)
        → (p : Option Window) → print s w e.type e.timestamp e.text ≡ p
        → (p >>= λ w'. consume s w' (stored_messages es)) ≡ (p >>= λ w'. print_entries s w' es)
    next ih none eq = refl
    next ih (some w') eq = ih w' ((print-keeps s w e.type e.timestamp e.text w' eq).1 ∙ none_yet)

pub consume-clear :
    (s : Settings) (w : Window) (now : ℕ)
    → w.chunks ≡ []
    → consume s w (clear_message now ∷ [])
      ≡ some (record w { screen = w.screen ++ clear_screen ∷ [] })
unfolding consume
consume-clear s w now none_yet =
    consume-step s w (clear_message now) [] (record w { screen = w.screen ++ clear_screen ∷ [] })
      (handle-clear s w now none_yet)
