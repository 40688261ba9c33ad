-- ===== src/Chat/Faithful.antt =====
-- What the window shows once it has taken all that the handler has sent (chat/src/TTChatHandler.cpp and
-- TTChat.cpp): the current conversation.
use terminal_teams.Prelude.{
  >>=-some, All, Bytes, List, Option, [], ap, append-nil, append_assoc, arith, false, get_elem?,
  inr, length, none, refl, some, sym, ℕ, ◌++◌, ◌<◌, ◌>>=◌, ◌∙◌, ◌∷◌, ◌≡◌, ◌⊎◌,
}
use terminal_teams.Chat.Message.{MessageType, Message, Entry, max_data_length}
use terminal_teams.Chat.Handler.{Handler, split_messages}
use terminal_teams.Chat.Window.{Settings, Window, Output, clear_screen, print, print_lines}
use terminal_teams.Chat.Layout.{layout}
use terminal_teams.Chat.Layout.Wrap.{Lines, layout-Lines}
use terminal_teams.Chat.Conversation.{
  stored_messages, print_entries, IsStored, clear_messages, print-keeps,
}
use terminal_teams.Chat.Consume.{
  consume, consume-append, consume-split_messages, consume-stored_messages, consume-clear,
}

-- The entries of the current conversation; none where nothing was selected.
abbrev pub entries_at : List (List Entry) → Option ℕ → List Entry
entries_at messages none = []
entries_at messages (some c) = elim (get_elem? messages c) [ none ↦ [] | some es ↦ es ]

abbrev pub conversation : Handler → List Entry
conversation h = entries_at h.messages h.current_id

-- A screen that is blank: nothing was printed since it was cleared, or since the start.
abbrev pub IsBlank : List Output → Type 0
IsBlank screen = (screen ≡ []) ⊎ ((before : List Output) × (screen ≡ before ++ clear_screen ∷ []))

-- After the messages that are under way and then those of the queue, a window that was blank at `base`
-- has printed the current conversation.
pub record Faithful (s : Settings) (h : Handler) (w : Window) (under_way : List Message)
    : Type 0 where
  pub base : Window
  pub final : Window
  pub blank : IsBlank base.screen
  pub live : base.stopped ≡ false
  pub no_chunks : base.chunks ≡ []
  pub unselected : h.current_id ≡ none → base.screen ≡ []
  pub printed : print_entries s base (conversation h) ≡ some final
  pub consumed : consume s w (under_way ++ h.queued) ≡ some final

-- The handler is not stopped, and what it stores can be sent.
pub record IsSound (h : Handler) : Type 0 where
  pub running : h.stopped ≡ false
  pub in_range : (c : ℕ) → h.current_id ≡ some c → c < length h.messages
  pub stored : All (All IsStored) h.messages

pub print-total :
    (s : Settings) (w : Window) (type : MessageType) (timestamp : ℕ) (bytes : Bytes)
    → 0 < s.side_width
    → (w' : Window) × (print s w type timestamp bytes ≡ some w')
unfolding print
print-total s w type timestamp bytes h =
    go (layout s.side_width bytes) refl (layout-Lines s.side_width bytes h)
  where
    go :
        (o : Option (List Bytes))
        → layout s.side_width bytes ≡ o
        → Lines s.side_width o
        → (w' : Window) × (print s w type timestamp bytes ≡ some w')
    go none e l = absurd l
    go (some lines) e l =
        (record w { screen = w.screen ++ print_lines s type timestamp lines }, rw (e, print) refl)

pub print_entries-total :
    (s : Settings) (w : Window) (es : List Entry)
    → 0 < s.side_width
    → (w' : Window) × (print_entries s w es ≡ some w')
      × (w'.stopped ≡ w.stopped)
      × (w'.chunks ≡ w.chunks)
print_entries-total s w [] h = (w, refl, refl, refl)
print_entries-total s w (e ∷ es) h =
    let first = print-total s w e.type e.timestamp e.text h in
    let kept = print-keeps s w e.type e.timestamp e.text first.0 first.1 in
    let rest = print_entries-total s first.0 es h in
    (rest.0, rw first.1 rest.1, rest.2 ∙ kept.0, rest.3 ∙ kept.1)

pub print_entries-append :
    (s : Settings) (w : Window) (es : List Entry) (e : Entry)
    → print_entries s w (es ++ e ∷ [])
      ≡ (print_entries s w es >>= λ w'. print s w' e.type e.timestamp e.text)
print_entries-append s w [] e = >>=-some (print s w e.type e.timestamp e.text)
print_entries-append s w (x ∷ xs) e =
    go (λ w'. print_entries-append s w' xs e) (print s w x.type x.timestamp x.text)
  where
    go :
        ((w' : Window)
          → print_entries s w' (xs ++ e ∷ [])
            ≡ (print_entries s w' xs >>= λ v. print s v e.type e.timestamp e.text))
        → (p : Option Window)
        → (p >>= λ w'. print_entries s w' (xs ++ e ∷ []))
          ≡ ((p >>= λ w'. print_entries s w' xs) >>= λ v. print s v e.type e.timestamp e.text)
    go ih none = refl
    go ih (some w') = ih w'

some_injective : (o : Option Window) (a b : Window) → o ≡ some a → o ≡ some b → a ≡ b
some_injective o a b e e' = cc

module _ (s : Settings) (h : Handler) (w : Window) (under_way : List Message)
    (wide : 0 < s.side_width) (f : Faithful s h w under_way) where
  final_chunks : f.final.chunks ≡ []
  final_chunks =
      let all = print_entries-total s f.base (conversation h) wide in
      ap (λ (v : Window). v.chunks)
        (some_injective (print_entries s f.base (conversation h)) f.final all.0 f.printed all.1)
      ∙ all.3
      ∙ f.no_chunks

  final_live : f.final.stopped ≡ false
  final_live =
      let all = print_entries-total s f.base (conversation h) wide in
      ap (λ (v : Window). v.stopped)
        (some_injective (print_entries s f.base (conversation h)) f.final all.0 f.printed all.1)
      ∙ all.2
      ∙ f.live

  -- More messages at the end of the queue are taken by the window as it then is.
  pub consume_more :
      (queue ms : List Message)
      → queue ≡ h.queued ++ ms
      → consume s w (under_way ++ queue) ≡ consume s f.final ms
  consume_more queue ms e =
      ap (λ q. consume s w (under_way ++ q)) e
      ∙ ap (consume s w) (sym (append_assoc under_way h.queued ms))
      ∙ consume-append s w (under_way ++ h.queued) ms
      ∙ ap (λ (o : Option Window). o >>= λ v. consume s v ms) f.consumed

-- A conversation grows at its end by an entry that was sent.
pub grown-Faithful :
    (s : Settings) (h h' : Handler) (w : Window) (under_way : List Message) (e : Entry)
    → 0 < s.side_width
    → IsStored e
    → Faithful s h w under_way
    → h'.current_id ≡ h.current_id
    → conversation h' ≡ conversation h ++ e ∷ []
    → h'.queued ≡ h.queued ++ split_messages max_data_length e.type e.text e.timestamp
    → Faithful s h' w under_way
grown-Faithful s h h' w under_way e wide kind f cur more queue =
    let next = print-total s f.final e.type e.timestamp e.text wide in
    record {
      base = f.base;
      final = next.0;
      blank = f.blank;
      live = f.live;
      no_chunks = f.no_chunks;
      unselected = λ absent. f.unselected (sym cur ∙ absent);
      printed =
          ap (print_entries s f.base) more
          ∙ print_entries-append s f.base (conversation h) e
          ∙ ap (λ (o : Option Window). o >>= λ v. print s v e.type e.timestamp e.text) f.printed
          ∙ next.1;
      consumed =
          consume_more s h w under_way wide f h'.queued
            (split_messages max_data_length e.type e.text e.timestamp) queue
          ∙ consume-split_messages s f.final e.type max_data_length e.timestamp e.text kind
              (omega arith) (final_chunks s h w under_way wide f)
          ∙ next.1;
    }

-- What the window is to show stays the same.
pub same-Faithful :
    (s : Settings) (h h' : Handler) (w : Window) (under_way : List Message)
    → Faithful s h w under_way
    → h'.current_id ≡ h.current_id
    → conversation h' ≡ conversation h
    → h'.queued ≡ h.queued
    → Faithful s h' w under_way
same-Faithful s h h' w under_way f cur same_entries queue = record {
  base = f.base;
  final = f.final;
  blank = f.blank;
  live = f.live;
  no_chunks = f.no_chunks;
  unselected = λ absent. f.unselected (sym cur ∙ absent);
  printed = ap (print_entries s f.base) same_entries ∙ f.printed;
  consumed = ap (λ q. consume s w (under_way ++ q)) queue ∙ f.consumed;
}

-- The first selection shows a conversation, a later one clears the window before.
pub selected-Faithful :
    (s : Settings) (h h' : Handler) (w : Window) (under_way : List Message) (id now : ℕ)
    (storage : List Entry)
    → 0 < s.side_width
    → All IsStored storage
    → Faithful s h w under_way
    → h'.current_id ≡ some id
    → conversation h' ≡ storage
    → h'.queued ≡ h.queued ++ clear_messages h.current_id now ++ stored_messages storage
    → Faithful s h' w under_way
selected-Faithful s h h' w under_way id now storage wide kinds f cur entries queue =
    go h.current_id refl
  where
    blanked : Window
    blanked = record (f.final) { screen = f.final.screen ++ clear_screen ∷ [] }

    selected : some id ≡ none → ⊥
    selected absent = cc

    go : (c : Option ℕ) → h.current_id ≡ c → Faithful s h' w under_way
    go none e =
        let empty : conversation h ≡ [] = ap (entries_at h.messages) e in
        let still : f.final ≡ f.base =
          some_injective (print_entries s f.base (conversation h)) f.final f.base f.printed
            (ap (print_entries s f.base) empty) in
        let shown = print_entries-total s f.base storage wide in
        record {
          base = f.base;
          final = shown.0;
          blank = f.blank;
          live = f.live;
          no_chunks = f.no_chunks;
          unselected = λ absent. absurd (selected (sym cur ∙ absent));
          printed = ap (print_entries s f.base) entries ∙ shown.1;
          consumed =
              consume_more s h w under_way wide f h'.queued (stored_messages storage) (
                queue
                ∙ ap (λ o. h.queued ++ clear_messages o now ++ stored_messages storage) e
                ∙ ap (λ q. q ++ stored_messages storage) (append-nil h.queued))
              ∙ ap (λ v. consume s v (stored_messages storage)) still
              ∙ consume-stored_messages s f.base storage kinds f.no_chunks
              ∙ shown.1;
        }
    go (some c) e =
        let shown = print_entries-total s blanked storage wide in
        record {
          base = blanked;
          final = shown.0;
          blank = inr (f.final.screen, refl);
          live = final_live s h w under_way wide f;
          no_chunks = final_chunks s h w under_way wide f;
          unselected = λ absent. absurd (selected (sym cur ∙ absent));
          printed = ap (print_entries s blanked) entries ∙ shown.1;
          consumed =
              consume_more s h w under_way wide f h'.queued
                (clear_messages h.current_id now ++ stored_messages storage)
                (queue
                  ∙ append_assoc h.queued (clear_messages h.current_id now)
                      (stored_messages storage))
              ∙ ap (λ o. consume s f.final (clear_messages o now ++ stored_messages storage)) e
              ∙ consume-append s f.final (clear_messages (some c) now) (stored_messages storage)
              ∙ ap (λ (o : Option Window). o >>= λ v. consume s v (stored_messages storage))
                  (consume-clear s f.final now (final_chunks s h w under_way wide f))
              ∙ consume-stored_messages s blanked storage kinds
                  (final_chunks s h w under_way wide f)
              ∙ shown.1;
        }
