-- ===== src/Chat/Delivery.antt =====
-- From the handler's queue to the window (chat/src): the messages that one text is cut into, as the
-- window takes them.
use terminal_teams.Prelude.{
  Bytes, List, Option, [], ap, append-nil, append_assoc, arith, drop, false, flatten, last?, length,
  map, none, refl, some, suc, sym, take, true, zero, ℕ, ◌*◌, ◌++◌, ◌+◌, ◌<◌, ◌>>=◌, ◌∙◌, ◌∷◌, ◌≡◌,
  ◌⊎◌,
}
use terminal_teams.Chat.Message.{
  MessageType, Message, sender, receiver, type_code, type_of_code, same_type,
}
use terminal_teams.Chat.Handler.{Cut, chunk_messages, cut, split_messages}
use terminal_teams.Chat.Handler.Chunks.{texts, texts-append, texts-split_messages}
use terminal_teams.Chat.Window.{Settings, Window, chunks_match, print, finish, gather, handle, run}

-- The two types of a stored message.
abbrev pub IsWhole : MessageType → Type 0
IsWhole type = (type ≡ sender) ⊎ (type ≡ receiver)

abbrev pub chunk_of : MessageType → MessageType
chunk_of type = type_of_code (type_code type + 1)

pub handle-chunk :
    (s : Settings) (w : Window) (type : MessageType) (m : Message)
    → IsWhole type
    → m.type ≡ chunk_of type
    → handle s w m ≡ some (gather w m)
unfolding handle type_code type_of_code
handle-chunk s w type m k e = ground arith

pub handle-whole :
    (s : Settings) (w : Window) (type : MessageType) (m : Message)
    → IsWhole type
    → m.type ≡ type
    → handle s w m ≡ finish s w (chunk_of type) m
unfolding handle type_code type_of_code finish
handle-whole s w type m k e = ground arith

pub same_type_refl : (t : MessageType) → same_type t t ≡ true
unfolding same_type
same_type_refl t = ground arith

pub last?-append {ℓ} : {A : Type ℓ} (xs : List A) (x : A) → last? (xs ++ x ∷ []) ≡ some x
last?-append [] x = refl
last?-append (y ∷ []) x = refl
last?-append (y ∷ z ∷ zs) x = last?-append (z ∷ zs) x

pub run-step :
    (s : Settings) (w : Window) (m : Message) (ms : List Message) (w' : Window)
    → w.stopped ≡ false
    → handle s w m ≡ some (w', true)
    → run s w (m ∷ ms) ≡ run s w' ms
unfolding run
run-step s w m ms w' live e = simp (live, e)

-- The window gathers the full chunks.
run-chunk_messages :
    (s : Settings) (w : Window) (type : MessageType) (max timestamp : ℕ) (bytes : Bytes)
    (rounds i : ℕ) (ms : List Message)
    → IsWhole type
    → w.stopped ≡ false
    → chunks_match (chunk_of type) w.chunks ≡ true
    → run s w (chunk_messages max (chunk_of type) timestamp bytes rounds i ++ ms)
      ≡ run s
          (record w {
            chunks = w.chunks ++ chunk_messages max (chunk_of type) timestamp bytes rounds i;
          })
          ms
unfolding chunk_messages gather
run-chunk_messages s w type max timestamp bytes zero i ms k live ok = rw append-nil
run-chunk_messages s w type max timestamp bytes (suc rounds) i ms k live ok =
    run-step s w m (rest ++ ms) w' live (handle-chunk s w type m k refl ∙ simp ok)
    ∙ run-chunk_messages s w' type max timestamp bytes rounds (i + 1) ms k live
        (rw (last?-append w.chunks m, chunks_match) (same_type_refl (chunk_of type)))
    ∙ rw append_assoc
  where
    m : Message
    m = record {
      type = chunk_of type;
      timestamp = timestamp;
      text = take max (drop (max * i) bytes);
    }

    w' : Window
    w' = record w { chunks = w.chunks ++ m ∷ [] }

    rest : List Message
    rest = chunk_messages max (chunk_of type) timestamp bytes rounds (i + 1)

run-bind :
    (s : Settings) (w : Window) (m : Message) (ms : List Message) (p : Option Window)
    → w.stopped ≡ false
    → handle s w m ≡ (p >>= λ w'. some (w', true))
    → run s w (m ∷ ms) ≡ (p >>= λ w'. run s w' ms)
unfolding run
run-bind s w m ms none live e = simp (live, e)
run-bind s w m ms (some w') live e = simp (live, e)

pub chunks_match-append :
    (max timestamp : ℕ) (type : MessageType) (bytes : Bytes) (before : List Message) (rounds i : ℕ)
    → chunks_match type before ≡ true
    → chunks_match type (before ++ chunk_messages max type timestamp bytes rounds i) ≡ true
unfolding chunk_messages chunks_match
chunks_match-append max timestamp type bytes before zero i ok = rw append-nil ok
chunks_match-append max timestamp type bytes before (suc rounds) i ok =
    rw (← append_assoc before (m ∷ []) (chunk_messages max type timestamp bytes rounds (i + 1))) (
      chunks_match-append max timestamp type bytes (before ++ m ∷ []) rounds (i + 1)
        (rw (last?-append before m, chunks_match) (same_type_refl type)))
  where
    m : Message
    m = record { type = type; timestamp = timestamp; text = take max (drop (max * i) bytes) }

flatten-texts : (ms : List Message) → flatten (map (λ (c : Message). c.text) ms) ≡ texts ms
flatten-texts [] = refl
flatten-texts (m ∷ ms) = ap (◌++◌ m.text) (flatten-texts ms)

pub finish-print :
    (s : Settings) (w : Window) (expected : MessageType) (m : Message) (bytes : Bytes)
    → chunks_match expected w.chunks ≡ true
    → texts w.chunks ++ m.text ≡ bytes
    → finish s w expected m
      ≡ (print s (record w { chunks = [] }) m.type m.timestamp bytes >>= λ w'. some (w', true))
unfolding finish
finish-print s w expected m bytes ok e = simp (ok, flatten-texts, e)

-- What one text is cut into prints that text, once and as a whole, whatever messages follow; the
-- window is live and holds no chunks before, and holds none after.
pub run-split_messages :
    (s : Settings) (w : Window) (type : MessageType) (max timestamp : ℕ) (bytes : Bytes)
    (ms : List Message)
    → IsWhole type
    → 0 < max
    → w.stopped ≡ false
    → w.chunks ≡ []
    → run s w (split_messages max type bytes timestamp ++ ms)
      ≡ (print s w type timestamp bytes >>= λ w'. run s w' ms)
unfolding split_messages chunks_match
run-split_messages s w type max timestamp bytes ms k h live none_yet =
    ap (run s w) (append_assoc chunks (last ∷ []) ms)
    ∙ run-chunk_messages s w type max timestamp bytes c.full 0 (last ∷ ms) k live
        (rw (none_yet, chunks_match) refl)
    ∙ run-bind s w' last ms (print s (record w { chunks = [] }) type timestamp bytes) live (
        handle-whole s w' type last k refl
        ∙ finish-print s w' (chunk_of type) last bytes
            (rw none_yet (chunks_match-append max timestamp (chunk_of type) bytes [] c.full 0 refl))
            (rw none_yet joined))
    ∙ ap (λ held. print s (record w { chunks = held }) type timestamp bytes >>= λ v. run s v ms)
        (sym none_yet)
  where
    c : Cut
    c = cut max (length bytes)

    chunks : List Message
    chunks = chunk_messages max (chunk_of type) timestamp bytes c.full 0

    last : Message
    last = record { type = type; timestamp = timestamp; text = take c.last (drop c.total bytes) }

    w' : Window
    w' = record w { chunks = w.chunks ++ chunks }

    joined : texts chunks ++ last.text ≡ bytes
    joined =
        ap (◌++◌ (texts chunks)) (sym (append-nil last.text))
        ∙ sym (texts-append chunks (last ∷ []))
        ∙ texts-split_messages max type bytes timestamp h
