-- ===== src/Chat/Handler/Chunks.antt =====
-- The cutting of a text into messages by `TTChatHandler::send` (chat/src/TTChatHandler.cpp).
use native.Mathlib.Nat.{div-add-mod, mod-lt, mul_comm, suc-mul}
use terminal_teams.Prelude.{
  All, All-append, Bytes, List, [], ap, append-nil, append_assoc, arith, drop, drop-drop, length,
  length-drop, length-take, refl, suc, sym, take, take-append-drop, take-length, zero, ℕ, ◌*◌, ◌++◌,
  ◌+◌, ◌-◌, ◌/◌, ◌<◌, ◌∙◌, ◌∷◌, ◌≡◌, ◌≤◌,
}
use terminal_teams.Chat.Message.{type_code, type_of_code, MessageType, Message}
use terminal_teams.Chat.Handler.{Cut, split_messages, chunk_messages, cut}

-- The texts of some messages, one after the other.
abbrev pub texts : List Message → Bytes
texts [] = []
texts (m ∷ ms) = m.text ++ texts ms

pub texts-append : (xs ys : List Message) → texts (xs ++ ys) ≡ texts xs ++ texts ys
texts-append [] ys = refl
texts-append (x ∷ xs) ys = rw (texts-append xs ys) (sym (append_assoc x.text (texts xs) (texts ys)))

-- The full chunks make the text up to where they end.
texts-chunk_messages :
    (max : ℕ) (type : MessageType) (timestamp : ℕ) (bytes : Bytes) (rounds i j : ℕ)
    → i + rounds ≡ j
    → texts (chunk_messages max type timestamp bytes rounds i) ++ drop (max * j) bytes
      ≡ drop (max * i) bytes
unfolding chunk_messages
texts-chunk_messages max type timestamp bytes zero i j e = let e' : i ≡ j = omega arith in rw e'
texts-chunk_messages max type timestamp bytes (suc rounds) i j e =
    append_assoc (take max (drop (max * i) bytes)) _ _
    ∙ ap (◌++◌ (take max (drop (max * i) bytes)))
        (texts-chunk_messages max type timestamp bytes rounds (i + 1) j (omega arith) ∙ next)
    ∙ take-append-drop max (drop (max * i) bytes)
  where
    next : drop (max * (i + 1)) bytes ≡ drop max (drop (max * i) bytes)
    next =
        let e : max * (i + 1) ≡ max * i + max = grind arith in
        rw e (sym (drop-drop max (max * i) bytes))

cut_nonlinear : (max q : ℕ) → 0 < q → (q * max - max ≡ max * (q - 1)) × (max ≤ q * max)
cut_nonlinear max zero h = absurd (omega arith)
cut_nonlinear max (suc q) h =
    let e : suc q - 1 ≡ q = omega arith in
    (rw e (omega (arith, mul_comm max q, suc-mul q max)), omega (arith, suc-mul q max))

-- The numbers that `send` computes: the chunks and the last message make up the size, and the last
-- message is empty only if the text is.
pub cut_lem :
    (max size : ℕ)
    → 0 < max
    → let c = cut max size in
      (c.total ≡ max * c.full)
      × (c.total + c.last ≡ size)
      × (c.last ≤ max)
      × (0 < size → 0 < c.last)
unfolding cut
cut_lem max size h = ground (
  arith,
  div-add-mod size max,
  mod-lt size {m = max} h,
  mul_comm max (size / max),
  cut_nonlinear max (size / max),
)

-- Cutting a text into messages loses and reorders nothing: their texts make up the text again.
pub texts-split_messages :
    (max : ℕ) (type : MessageType) (bytes : Bytes) (timestamp : ℕ)
    → 0 < max
    → texts (split_messages max type bytes timestamp) ≡ bytes
unfolding split_messages
texts-split_messages max type bytes timestamp h =
    texts-append chunks (last ∷ [])
    ∙ ap (◌++◌ (texts chunks)) (
        append-nil last.text
        ∙ take-length c.last rest (omega (arith, facts, length-drop c.total bytes)))
    ∙ ap (λ n. texts chunks ++ drop n bytes) facts.0
    ∙ texts-chunk_messages max chunk_type timestamp bytes c.full 0 c.full (omega arith)
    ∙ (let e : max * 0 ≡ 0 = omega arith in rw e)
  where
    c : Cut
    c = cut max (length bytes)

    facts :
        (c.total ≡ max * c.full)
        × (c.total + c.last ≡ length bytes)
        × (c.last ≤ max)
        × (0 < length bytes → 0 < c.last)
    facts = cut_lem max (length bytes) h

    chunk_type : MessageType
    chunk_type = type_of_code (type_code type + 1)

    chunks : List Message
    chunks = chunk_messages max chunk_type timestamp bytes c.full 0

    rest : Bytes
    rest = drop c.total bytes

    last : Message
    last = record { type = type; timestamp = timestamp; text = take c.last rest }

-- No message of a cut text has more than `max` bytes, and all have the timestamp.
abbrev pub Fits : ℕ → ℕ → Message → Type 0
Fits max timestamp m = (length m.text ≤ max) × (m.timestamp ≡ timestamp)

chunk_messages-Fits :
    (max : ℕ) (type : MessageType) (timestamp : ℕ) (bytes : Bytes) (rounds i : ℕ)
    → All (Fits max timestamp) (chunk_messages max type timestamp bytes rounds i)
unfolding chunk_messages
chunk_messages-Fits max type timestamp bytes zero i = tt
chunk_messages-Fits max type timestamp bytes (suc rounds) i = (
  (omega (arith, length-take max (drop (max * i) bytes)), refl),
  chunk_messages-Fits max type timestamp bytes rounds (i + 1),
)

split_messages-Fits :
    (max : ℕ) (type : MessageType) (bytes : Bytes) (timestamp : ℕ)
    → 0 < max
    → All (Fits max timestamp) (split_messages max type bytes timestamp)
unfolding split_messages
split_messages-Fits max type bytes timestamp h =
    All-append (Fits max timestamp) _ _
      (chunk_messages-Fits max (type_of_code (type_code type + 1)) timestamp bytes c.full 0)
      (
        (
          omega (arith, cut_lem max (length bytes) h, length-take c.last (drop c.total bytes)),
          refl,
        ),
        tt,
      )
  where
    c : Cut
    c = cut max (length bytes)

-- Cutting a text into messages of a positive length loses and reorders nothing: their texts make up the text
-- again. Each message is within the length, and has the text's timestamp.
pub split_messages-texts :
    (max : ℕ) (type : MessageType) (bytes : Bytes) (timestamp : ℕ)
    → 0 < max
    → (texts (split_messages max type bytes timestamp) ≡ bytes)
      × All (Fits max timestamp) (split_messages max type bytes timestamp)
split_messages-texts max type bytes timestamp h = (
  texts-split_messages max type bytes timestamp h,
  split_messages-Fits max type bytes timestamp h,
)
