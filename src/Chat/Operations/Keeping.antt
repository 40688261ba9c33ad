-- ===== src/Chat/Operations/Keeping.antt =====
-- `send`, `receive`, `select` and `create` of the chat handler (chat/src/TTChatHandler.cpp) keep what the
-- window is to show in step with the current conversation.
use mathlib.Core.Path.{subst}
use mathlib.Core.Option.{some-injective}
use terminal_teams.Prelude.{
  All, All-append, All-get_elem?, Bool, Bool-cases, Bytes, List, Option, [], ap, arith, eq-of-==,
  get_elem?, get_elem?-append_left, get_elem?-some, inl, inr, leb, length, length-append, lt-of-leb,
  none, refl, some, sym, ℕ, ◌++◌, ◌<◌, ◌==◌, ◌∙◌, ◌∷◌, ◌≡◌,
}
use terminal_teams.Chat.Message.{Message, Entry, max_data_length, sender, receiver}
use terminal_teams.Chat.Handler.{Handler, split_messages, send, receive, select, create, is_current}
use terminal_teams.Chat.Window.{Settings, Window}
use terminal_teams.Chat.Conversation.{IsStored, select-eq, clear_messages, stored_messages}
use terminal_teams.Chat.Success.{send-eq, held, create-eq, select-eq-same}
use terminal_teams.Chat.Faithful.{entries_at, grown-Faithful, same-Faithful, selected-Faithful}
use terminal_teams.Chat.Operations.{
  stored_at-IsSound, grown, aside, send-refused, range-of, said, said-eq, receive-refused,
  receive-here, receive-aside, select-refused, create-refused, Kept, stored_at,
}

module _ (s : Settings) (w : Window) (under_way : List Message) (wide : 0 < s.side_width)
    (h : Handler) (kept : Kept s w under_way h) where
  said-Kept :
      (id : ℕ) (storage : List Entry) (e : Entry)
      → get_elem? h.messages id ≡ some storage
      → h.current_id ≡ some id
      → IsStored e
      → Kept s w under_way (said h id storage e)
  unfolding said
  said-Kept id storage e found cur kind = (
    stored_at-IsSound h kept.0 id storage e
        (h.queued ++ split_messages max_data_length e.type e.text e.timestamp) found kind,
    grown-Faithful s h (said h id storage e) w under_way e wide kind kept.1 refl
        (grown h kept.0 id storage e found cur) refl,
  )

  pub send-Kept :
      (id : ℕ) (message : Bytes) (now : ℕ) → Kept s w under_way (send h id message now).0
  send-Kept id message now = elim (Bool-cases (is_current h id)) [
    | inr other ↦
        subst (λ (r : Handler × Bool). Kept s w under_way r.0)
          (sym (send-refused h id message now kept.0.running other)) kept
    | inl here ↦
        let cur = held h.current_id id here in
        let range = kept.0.in_range id cur in
        let at = get_elem?-some h.messages id range in
        let e : Entry = record { type = sender; timestamp = now; text = message } in
        subst (λ (r : Handler × Bool). Kept s w under_way r.0)
          (sym (
            send-eq h id message now kept.0.running here (range-of h id range)
            ∙ said-eq h id e at.0 kept.0.running at.1))
          (said-Kept id at.0 e at.1 cur (inl refl))
  ]

  pub receive-Kept :
      (id : ℕ) (message : Bytes) (now : ℕ) → Kept s w under_way (receive h id message now).0
  receive-Kept id message now =
      let e : Entry = record { type = receiver; timestamp = now; text = message } in
      elim (Bool-cases (leb (length h.messages) id)) [
        | inl beyond ↦
            subst (λ (r : Handler × Bool). Kept s w under_way r.0)
              (sym (receive-refused h id message now kept.0.running beyond)) kept
        | inr within ↦
            let at = get_elem?-some h.messages id (lt-of-leb (length h.messages) id within) in
            elim (Bool-cases (is_current h id)) [
              | inl here ↦
                  subst (λ (r : Handler × Bool). Kept s w under_way r.0)
                    (sym (receive-here h id message now at.0 kept.0.running at.1 here))
                    (said-Kept id at.0 e at.1 (held h.current_id id here) (inr refl))
              | inr other ↦
                  subst (λ (r : Handler × Bool). Kept s w under_way r.0)
                    (sym (receive-aside h id message now at.0 kept.0.running at.1 other))
                    (
                      stored_at-IsSound h kept.0 id at.0 e h.queued at.1 (inr refl),
                      same-Faithful s h (stored_at h id at.0 e) w under_way kept.1 refl
                          (aside h kept.0 id (at.0 ++ e ∷ []) other) refl,
                    )
            ]
      ]

  pub select-Kept : (id now : ℕ) → Kept s w under_way (select h id now).0
  select-Kept id now = elim (Bool-cases (leb (length h.messages) id)) [
    | inl beyond ↦
        subst (λ (r : Handler × Bool). Kept s w under_way r.0)
          (sym (select-refused h id now kept.0.running beyond)) kept
    | inr within ↦ elim (Bool-cases (is_current h id)) [
      | inl here ↦
          subst (λ (r : Handler × Bool). Kept s w under_way r.0)
            (sym (select-eq-same h id now kept.0.running within here)) kept
      | inr other ↦
          let at = get_elem?-some h.messages id (lt-of-leb (length h.messages) id within) in
          let h' : Handler = record h {
            current_id = some id;
            queued = h.queued ++ clear_messages h.current_id now ++ stored_messages at.0;
          } in
          subst (λ (r : Handler × Bool). Kept s w under_way r.0)
            (sym (select-eq h id now at.0 kept.0.running other at.1))
            (
              record {
                running = kept.0.running;
                in_range = λ c cur.
                    subst (λ i. i < length h.messages) (some-injective id c cur)
                      (lt-of-leb (length h.messages) id within);
                stored = kept.0.stored;
              },
              selected-Faithful s h h' w under_way id now at.0 wide
                  (All-get_elem? (All IsStored) h.messages id at.0 kept.0.stored at.1) kept.1 refl
                  (ap (λ (o : Option (List Entry)). elim o [ none ↦ [] | some es ↦ es ]) at.1) refl,
            )
    ]
  ]

  pub create-Kept : (id : ℕ) → Kept s w under_way (create h id).0
  create-Kept id = elim (Bool-cases (id == length h.messages)) [
    | inr wrong ↦
        subst (λ (r : Handler × Bool). Kept s w under_way r.0)
          (sym (create-refused h id kept.0.running wrong)) kept
    | inl right ↦
        subst (λ (r : Handler × Bool). Kept s w under_way r.0)
          (sym (create-eq h id kept.0.running (sym (eq-of-== id (length h.messages) right))))
          (
            record {
              running = kept.0.running;
              in_range =
                  λ c cur. omega (arith, kept.0.in_range c cur, length-append h.messages ([] ∷ []));
              stored = All-append (All IsStored) h.messages ([] ∷ []) kept.0.stored (tt, tt);
            },
            same-Faithful s h (record h { messages = h.messages ++ [] ∷ [] }) w under_way kept.1
                refl (unmoved h.current_id refl) refl,
          )
  ]
    where
      unmoved :
          (c : Option ℕ)
          → h.current_id ≡ c
          → entries_at (h.messages ++ [] ∷ []) c ≡ entries_at h.messages c
      unmoved none e = refl
      unmoved (some c) e =
          ap (λ (o : Option (List Entry)). elim o [ none ↦ [] | some es ↦ es ])
            (get_elem?-append_left h.messages ([] ∷ []) c (kept.0.in_range c e))
