-- ===== src/Chat/Pipeline/Showing.antt =====
-- What the window shows once the chat handler's threads and the window (chat/src) have taken turns.
use mathlib.Core.Path.{subst}
use terminal_teams.Prelude.{
  Bool, Bool-cases, List, Option, [], ap, append-nil, append_assoc, arith, false, inl, inr,
  is_empty, refl, some, sym, true, ℕ, ◌++◌, ◌<◌, ◌∙◌, ◌∷◌, ◌≡◌,
}
use terminal_teams.Chat.Message.{Message, heartbeat, max_data_length}
use terminal_teams.Chat.Handler.{Handler, taken, again, dequeue_round, init, split_messages}
use terminal_teams.Chat.Window.{Settings, Window, handle}
use terminal_teams.Chat.Conversation.{print_entries}
use terminal_teams.Chat.Success.{send_typed-eq}
use terminal_teams.Chat.Consume.{consume, consume-head}
use terminal_teams.Chat.Faithful.{Faithful, entries_at, IsBlank, conversation, consume_more}
use terminal_teams.Chat.Operations.{Kept}
use terminal_teams.Chat.Operations.Keeping.{send-Kept, receive-Kept, select-Kept, create-Kept}
use terminal_teams.Chat.Pipeline.{
  System, start, Step, send_message, receive_message, select_contact, create_contact, take, beat,
  push, show, Reach, begin, later,
}

abbrev pub Good : Settings → System → Type 0
Good s c = Kept s c.window (c.mq ++ c.carried) c.handler

start-Good : (s : Settings) → Good s start
unfolding init consume
start-Good s = (
  record { running = refl; in_range = λ c e. cc; stored = tt },
  record {
    base = start.window;
    final = start.window;
    blank = inl refl;
    live = refl;
    no_chunks = refl;
    unselected = λ e. refl;
    printed = refl;
    consumed = refl;
  },
)

-- The messages under way may be spread over the queues in any way.
moved-Faithful :
    (s : Settings) (h h' : Handler) (w w' : Window) (u u' : List Message)
    → Faithful s h w u
    → h'.current_id ≡ h.current_id
    → h'.messages ≡ h.messages
    → ((final : Window)
        → consume s w (u ++ h.queued) ≡ some final
        → consume s w' (u' ++ h'.queued) ≡ some final)
    → Faithful s h' w' u'
moved-Faithful s h h' w w' u u' f cur entries same_final = record {
  base = f.base;
  final = f.final;
  blank = f.blank;
  live = f.live;
  no_chunks = f.no_chunks;
  unselected = λ absent. f.unselected (sym cur ∙ absent);
  printed =
      ap (λ m. print_entries s f.base (entries_at m h'.current_id)) entries
      ∙ ap (λ c. print_entries s f.base (entries_at h.messages c)) cur
      ∙ f.printed;
  consumed = same_final f.final f.consumed;
}

dequeue-some :
    (h : Handler) (now : ℕ)
    → h.stopped ≡ false
    → is_empty h.queued ≡ false
    → dequeue_round h now ≡ taken h.queued (record h { queued = [] })
unfolding dequeue_round
dequeue-some h now live filled = ground (arith, live, filled)

-- The heartbeat that the handler queues by itself.
abbrev beating : Handler → ℕ → Handler
beating h now = record h { queued = h.queued ++ split_messages max_data_length heartbeat [] now }

dequeue-none :
    (h : Handler) (now : ℕ)
    → h.stopped ≡ false
    → is_empty h.queued ≡ true
    → dequeue_round h now ≡ again (beating h now)
unfolding dequeue_round
dequeue-none h now live empty = ground (arith, live, empty, send_typed-eq h heartbeat [] now live)

consume-heartbeat :
    (s : Settings) (w : Window) (now : ℕ)
    → consume s w (split_messages max_data_length heartbeat [] now) ≡ some w
unfolding consume handle split_messages
consume-heartbeat s w now = refl

taken-parts : (a b : List Message) (h h' : Handler) → taken a h ≡ taken b h' → (a ≡ b) × (h ≡ h')
taken-parts a b h h' e = (cc, cc)

again-part : (h h' : Handler) → again h ≡ again h' → h ≡ h'
again-part h h' e = cc

taken-again : (a : List Message) (h h' : Handler) → taken a h ≡ again h' → ⊥
taken-again a h h' e = cc

-- What the sending thread takes is the whole queue.
take-all :
    (h h' : Handler) (now : ℕ) (ms : List Message)
    → h.stopped ≡ false
    → dequeue_round h now ≡ taken ms h'
    → (h' ≡ record h { queued = [] }) × (ms ≡ h.queued)
take-all h h' now ms live e = elim (Bool-cases (is_empty h.queued)) [
  | inl empty ↦ absurd (taken-again ms h' (beating h now) (sym e ∙ dequeue-none h now live empty))
  | inr filled ↦
      let parts =
        taken-parts ms h.queued h' (record h { queued = [] })
          (sym e ∙ dequeue-some h now live filled) in
      (parts.1, parts.0)
]

beat-heartbeat :
    (h h' : Handler) (now : ℕ)
    → h.stopped ≡ false
    → dequeue_round h now ≡ again h'
    → h' ≡ beating h now
beat-heartbeat h h' now live e = elim (Bool-cases (is_empty h.queued)) [
  | inl empty ↦ again-part h' (beating h now) (sym e ∙ dequeue-none h now live empty)
  | inr filled ↦ absurd (
      taken-again h.queued (record h { queued = [] }) h' (sym (dequeue-some h now live filled) ∙ e))
]

window-part :
    (o : Option (Window × Bool)) (a b : Window) (x y : Bool)
    → o ≡ some (a, x)
    → o ≡ some (b, y)
    → (a ≡ b) × (x ≡ y)
window-part o a b x y e e' = (cc, cc)

Step-Good : {s : Settings} {c d : System} → 0 < s.side_width → Step s c d → Good s c → Good s d
Step-Good {s} {c} wide (send_message id message now) g =
    send-Kept s c.window (c.mq ++ c.carried) wide c.handler g id message now
Step-Good {s} {c} wide (receive_message id message now) g =
    receive-Kept s c.window (c.mq ++ c.carried) wide c.handler g id message now
Step-Good {s} {c} wide (select_contact id now) g =
    select-Kept s c.window (c.mq ++ c.carried) wide c.handler g id now
Step-Good {s} {c} wide (create_contact id) g =
    create-Kept s c.window (c.mq ++ c.carried) wide c.handler g id
Step-Good {s} {c} wide (take now ms h none_carried e) g =
    let all = take-all c.handler h now ms g.0.running e in
    subst (λ h'. Kept s c.window (c.mq ++ ms) h') (sym all.0)
      (
        record { running = g.0.running; in_range = g.0.in_range; stored = g.0.stored },
        moved-Faithful s c.handler (record (c.handler) { queued = [] }) c.window c.window
            (c.mq ++ c.carried) (c.mq ++ ms) g.1 refl refl
            (λ final done.
              ap (consume s c.window) (
                append-nil (c.mq ++ ms)
                ∙ ap (◌++◌ c.mq) all.1
                ∙ ap (λ q. q ++ c.handler.queued)
                    (sym (append-nil c.mq) ∙ ap (◌++◌ c.mq) (sym none_carried)))
              ∙ done),
      )
Step-Good {s} {c} wide (beat now h none_carried e) g =
    let e' = beat-heartbeat c.handler h now g.0.running e in
    let after = beating c.handler now in
    subst (λ h'. Kept s c.window (c.mq ++ c.carried) h') (sym e')
      (
        record { running = g.0.running; in_range = g.0.in_range; stored = g.0.stored },
        record {
          base = g.1.base;
          final = g.1.final;
          blank = g.1.blank;
          live = g.1.live;
          no_chunks = g.1.no_chunks;
          unselected = g.1.unselected;
          printed = g.1.printed;
          consumed =
              consume_more s c.handler c.window (c.mq ++ c.carried) wide g.1 after.queued
                (split_messages max_data_length heartbeat [] now) refl
              ∙ consume-heartbeat s g.1.final now;
        },
      )
Step-Good {s} {c} wide (push m ms e room) g = (
  g.0,
  moved-Faithful s c.handler c.handler c.window c.window (c.mq ++ c.carried) (c.mq ++ m ∷ [] ++ ms)
      g.1 refl refl
      (λ final done.
        ap (λ u. consume s c.window (u ++ c.handler.queued))
          (append_assoc c.mq (m ∷ []) ms ∙ ap (◌++◌ c.mq) (sym e))
        ∙ done),
)
Step-Good {s} {c} wide (show m ms w goes_on e shown) g = (
  g.0,
  moved-Faithful s c.handler c.handler c.window w (c.mq ++ c.carried) (ms ++ c.carried) g.1 refl
      refl
      (λ final done.
        let head =
          consume-head s c.window m (ms ++ c.carried ++ c.handler.queued) final
            (ap (λ q. consume s c.window (q ++ c.carried ++ c.handler.queued)) (sym e) ∙ done) in
        ap (λ v. consume s v (ms ++ c.carried ++ c.handler.queued))
          (window-part (handle s c.window m) w head.0 goes_on true shown head.1).0
        ∙ head.2),
)

Reach-Good : {s : Settings} {c : System} → 0 < s.side_width → Reach s c → Good s c
Reach-Good {s} wide begin = start-Good s
Reach-Good wide (later r st) = Step-Good wide st (Reach-Good wide r)

-- However the threads of the handler, the system queue, into which a message goes once there is room, and
-- the window take turns: where the side of the window has any width and nothing is under way, the window
-- shows exactly the current conversation, each entry whole and in order, below a screen that is empty or
-- was just cleared.
pub Reach-shows :
    {s : Settings} {c : System}
    → 0 < s.side_width
    → Reach s c
    → c.mq ≡ []
    → c.carried ≡ []
    → c.handler.queued ≡ []
    → (base : Window) × IsBlank base.screen
      × (print_entries s base (conversation c.handler) ≡ some c.window)
unfolding consume
Reach-shows {s} {c} wide r no_mq none_carried none_queued =
    let f = (Reach-Good wide r).1 in
    (
      f.base,
      f.blank,
      f.printed
          ∙ sym f.consumed
          ∙ ap (λ q. consume s c.window (q ++ c.carried ++ c.handler.queued)) no_mq
          ∙ ap (λ q. consume s c.window (q ++ c.handler.queued)) none_carried
          ∙ ap (consume s c.window) none_queued,
    )

-- And the window never gives up: in every reachable state it handles the message at the head of the
-- system queue with success.
pub Reach-handles :
    {s : Settings} {c : System}
    → 0 < s.side_width
    → Reach s c
    → (m : Message) (ms : List Message) → c.mq ≡ m ∷ ms
    → (w : Window) × (handle s c.window m ≡ some (w, true))
Reach-handles {s} {c} wide r m ms e =
    let f = (Reach-Good wide r).1 in
    let head =
      consume-head s c.window m (ms ++ c.carried ++ c.handler.queued) f.final
        (ap (λ q. consume s c.window (q ++ c.carried ++ c.handler.queued)) (sym e) ∙ f.consumed) in
    (head.0, head.1)
