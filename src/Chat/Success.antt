-- ===== src/Chat/Success.antt =====
-- When the operations of the chat handler (chat/src/TTChatHandler.cpp) succeed.
use mathlib.Core.Path.{subst}
use terminal_teams.Prelude.{
  Bool, Bool-cases, Bytes, List, Option, Option-cases, [], ap, arith, eq-of-==, false, get_elem?,
  get_elem?-some, if◌then◌else◌, inl, inr, leb, length, length-append, length-set, none, refl, set,
  some, suc, sym, true, ℕ, ◌++◌, ◌<◌, ◌==◌, ◌∙◌, ◌∷◌, ◌≡◌,
}
use terminal_teams.Chat.Message.{MessageType, sender, receiver, max_data_length, Entry}
use terminal_teams.Chat.Handler.{
  Handler, is_current, send, receive, send_typed, split_messages, store, select, create,
}
use terminal_teams.Chat.Conversation.{select-eq}

-- A live handler with the given current conversation and number of conversations.
pub record Live (current : Option ℕ) (n : ℕ) (h : Handler) : Type 0 where
  pub live : h.stopped ≡ false
  pub at : h.current_id ≡ current
  pub many : length h.messages ≡ n

abbrev pub Done : Option ℕ → ℕ → Handler × Bool → Type 0
Done current n r = (r.1 ≡ true) × Live current n r.0

pub held :
    (o : Option ℕ) (id : ℕ) → (elim o [ none ↦ false | some c ↦ c == id ]) ≡ true → o ≡ some id
held none id e = cc
held (some c) id e = ap some (eq-of-== c id e)

pub at-current : (h : Handler) (id : ℕ) → h.current_id ≡ some id → is_current h id ≡ true
at-current h id e =
    ap (λ (o : Option ℕ). elim o [ none ↦ false | some c ↦ c == id ]) e ∙ ground arith

in-range :
    (h : Handler) (id n : ℕ) → length h.messages ≡ n → id < n → leb (length h.messages) id ≡ false
in-range h id n e lt = ground arith

pub select-eq-same :
    (h : Handler) (id now : ℕ)
    → h.stopped ≡ false
    → leb (length h.messages) id ≡ false
    → is_current h id ≡ true
    → select h id now ≡ (h, true)
unfolding select
select-eq-same h id now live some_id same_id = ground (arith, live, some_id, same_id)

pub select-Live :
    (current : Option ℕ) (n : ℕ) (h : Handler) (id now : ℕ)
    → Live current n h
    → id < n
    → Done (some id) n (select h id now)
select-Live current n h id now l lt = elim (Bool-cases (is_current h id)) [
  | inl same_id ↦
      subst (Done (some id) n)
        (sym (select-eq-same h id now l.live (in-range h id n l.many lt) same_id))
        (refl, record { live = l.live; at = held h.current_id id same_id; many = l.many })
  | inr other ↦
      let stored = get_elem?-some h.messages id (omega (arith, l.many)) in
      subst (Done (some id) n) (sym (select-eq h id now stored.0 l.live other stored.1))
        (refl, record { live = l.live; at = refl; many = l.many })
]

store-none : (h : Handler) (id : ℕ) (e : Entry) → get_elem? h.messages id ≡ none → store h id e ≡ h
unfolding store
store-none h id e missing = rw (missing, store) refl

pub store-some :
    (h : Handler) (id : ℕ) (e : Entry) (storage : List Entry)
    → get_elem? h.messages id ≡ some storage
    → store h id e ≡ record h { messages = set h.messages id (storage ++ e ∷ []) }
unfolding store
store-some h id e storage found = rw (found, store) refl

pub send_typed-eq :
    (h : Handler) (type : MessageType) (message : Bytes) (now : ℕ)
    → h.stopped ≡ false
    → send_typed h type message now
      ≡ (record h { queued = h.queued ++ split_messages max_data_length type message now }, true)
unfolding send_typed
send_typed-eq h type message now live =
    ap
      (λ (b : Bool). if b then (h, false) else (
        record h { queued = h.queued ++ split_messages max_data_length type message now },
        true,
      ))
      live

stored-Live :
    (current : Option ℕ) (n : ℕ) (h : Handler) (id : ℕ) (e : Entry)
    → Live current n h
    → Live current n (store h id e)
stored-Live current n h id e l = elim (Option-cases (get_elem? h.messages id)) [
  | inl missing ↦ subst (Live current n) (sym (store-none h id e missing)) l
  | inr found ↦ subst (Live current n) (sym (store-some h id e found.0 found.1)) (record {
    live = l.live;
    at = l.at;
    many = length-set h.messages id (found.0 ++ e ∷ []) ∙ l.many;
  })
]

pub send-eq :
    (h : Handler) (id : ℕ) (message : Bytes) (now : ℕ)
    → h.stopped ≡ false
    → is_current h id ≡ true
    → leb (length h.messages) id ≡ false
    → send h id message now
      ≡ send_typed
          (store h id (record { type = sender; timestamp = now; text = message }))
          sender
          message
          now
unfolding send
send-eq h id message now live cur lt = ground (arith, live, cur, lt)

send_typed-Live :
    (current : Option ℕ) (n : ℕ) (h : Handler) (type : MessageType) (message : Bytes) (now : ℕ)
    → Live current n h
    → Done current n (send_typed h type message now)
send_typed-Live current n h type message now l =
    subst (Done current n) (sym (send_typed-eq h type message now l.live))
      (refl, record { live = l.live; at = l.at; many = l.many })

pub send-Live :
    (n : ℕ) (h : Handler) (id : ℕ) (message : Bytes) (now : ℕ)
    → Live (some id) n h
    → id < n
    → Done (some id) n (send h id message now)
send-Live n h id message now l lt =
    let e : Entry = record { type = sender; timestamp = now; text = message } in
    subst (Done (some id) n)
      (sym (send-eq h id message now l.live (at-current h id l.at) (in-range h id n l.many lt)))
      (send_typed-Live (some id) n (store h id e) sender message now
        (stored-Live (some id) n h id e l))

received-Live :
    (current : Option ℕ) (n : ℕ) (h : Handler) (message : Bytes) (now : ℕ) (shown : Bool)
    → Live current n h
    → Done current n (if shown then send_typed h receiver message now else (h, true))
received-Live current n h message now true l = send_typed-Live current n h receiver message now l
received-Live current n h message now false l = (refl, l)

receive-eq :
    (h : Handler) (id : ℕ) (message : Bytes) (now : ℕ)
    → h.stopped ≡ false
    → leb (length h.messages) id ≡ false
    → receive h id message now ≡ (
        let h' = store h id (record { type = receiver; timestamp = now; text = message }) in
        if is_current h' id then send_typed h' receiver message now else (h', true))
unfolding receive
receive-eq h id message now live lt = ground (arith, live, lt)

pub receive-Live :
    (current : Option ℕ) (n : ℕ) (h : Handler) (id : ℕ) (message : Bytes) (now : ℕ)
    → Live current n h
    → id < n
    → Done current n (receive h id message now)
receive-Live current n h id message now l lt =
    let e : Entry = record { type = receiver; timestamp = now; text = message } in
    subst (Done current n) (sym (receive-eq h id message now l.live (in-range h id n l.many lt))) (
      received-Live current n (store h id e) message now (is_current (store h id e) id)
        (stored-Live current n h id e l))

pub create-eq :
    (h : Handler) (n : ℕ)
    → h.stopped ≡ false
    → length h.messages ≡ n
    → create h n ≡ (record h { messages = h.messages ++ [] ∷ [] }, true)
unfolding create
create-eq h n live many = ground (arith, live, many)

pub create-Live :
    (current : Option ℕ) (n : ℕ) (h : Handler)
    → Live current n h
    → Done current (suc n) (create h n)
create-Live current n h l = subst (Done current (suc n)) (sym (create-eq h n l.live l.many)) (
  refl,
  record {
    live = l.live;
    at = l.at;
    many = length-append h.messages ([] ∷ []) ∙ omega (arith, l.many);
  },
)
