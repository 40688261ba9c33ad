-- ===== src/Utils/SharedMem/InFlight.antt =====
-- What holds between the steps of the two processes of a shared memory channel (`send` and `receive` of
-- utils/src/TTUtilsSharedMem.cpp): at most one message is on its way.
use mathlib.Core.Path.{subst}
use terminal_teams.Prelude.{
  Bytes, List, [], ap, arith, inl, inr, refl, suc, sym, zero, ℕ, ◌++◌, ◌∙◌, ◌∷◌, ◌≡◌, ◌⊎◌,
}
use terminal_teams.Utils.SharedMem.Processes.{
  Sender, Receiver, Ledger, free, written, asking, ended, listening, noticed, copied, closed,
  SenderAction, ReceiverAction, write, announce, announce_fails, confirm, give_up, notice, copy,
  reply, reply_fails, close, sender_step, receiver_step, step, run,
}

abbrev pub Counts : ℕ → ℕ → Ledger → Type 0
Counts p k l = (l.produced ≡ p) × (l.consumed ≡ k)

-- The message in the region is not copied yet.
abbrev pub Before : Ledger → Type 0
Before l = (l.received ≡ l.confirmed) × (l.sent ≡ l.confirmed ++ l.contents ∷ [])

-- It is copied and not confirmed.
abbrev pub After : Ledger → Type 0
After l = (l.received ≡ l.confirmed ++ l.contents ∷ []) × (l.sent ≡ l.confirmed ++ l.contents ∷ [])

abbrev pub InFlight : Receiver → Ledger → Type 0
InFlight listening l = (Counts 1 0 l × Before l) ⊎ (Counts 0 1 l × After l)
InFlight noticed l = Counts 0 0 l × Before l
InFlight copied l = Counts 0 0 l × After l
InFlight closed l =
    ((Counts 1 0 l × Before l) ⊎ (Counts 0 1 l × After l)) ⊎ (Counts 0 0 l × After l)

abbrev pub Quiet : Receiver → Type 0
Quiet listening = Unit {0}
Quiet noticed = ⊥
Quiet copied = ⊥
Quiet closed = Unit {0}

abbrev pub Good : Sender → Receiver → Ledger → Type 0
Good free r l = Quiet r × Counts 0 0 l × (l.received ≡ l.confirmed) × (l.sent ≡ l.confirmed)
Good (written m) r l = Quiet r × Counts 0 0 l × Before l × (l.contents ≡ m)
Good (asking m) r l = InFlight r l × (l.contents ≡ m)
Good ended r l = InFlight r l ⊎ (Quiet r × Counts 0 0 l × Before l)

announced :
    (r : Receiver) (l : Ledger)
    → Quiet r
    → Counts 0 0 l
    → Before l
    → InFlight r (record l { produced = suc l.produced })
announced listening l q c b = inl ((ap suc c.0, c.1), b)
announced closed l q c b = inl (inl ((ap suc c.0, c.1), b))
announced noticed l q c b = absurd q
announced copied l q c b = absurd q

-- A confirmation that waits was given for a message that was copied, by a receiver that is quiet.
confirmed-After :
    (r : Receiver) (l : Ledger) (n : ℕ)
    → InFlight r l
    → l.consumed ≡ suc n
    → Quiet r × (l.produced ≡ 0) × (n ≡ 0) × After l
confirmed-After listening l n (inl (c, b)) e = absurd (omega arith)
confirmed-After listening l n (inr (c, a)) e = (tt, c.0, omega arith, a)
confirmed-After noticed l n (c, b) e = absurd (omega arith)
confirmed-After copied l n (c, b) e = absurd (omega arith)
confirmed-After closed l n (inl (inl (c, b))) e = absurd (omega arith)
confirmed-After closed l n (inl (inr (c, a))) e = (tt, c.0, omega arith, a)
confirmed-After closed l n (inr (c, a)) e = absurd (omega arith)

confirm-Good :
    (r : Receiver) (l : Ledger) (m : Bytes) (k : ℕ)
    → l.consumed ≡ k
    → Good (asking m) r l
    → (let done : Sender × Ledger = elim k [
      | zero ↦ (asking m, l)
      | suc n ↦ (free, record l { consumed = n; confirmed = l.confirmed ++ m ∷ [] })
    ] in
        Good done.0 r done.1)
confirm-Good r l m zero e g = g
confirm-Good r l m (suc n) e g =
    let h = confirmed-After r l n g.0 e in
    let region = ap (λ x. l.confirmed ++ x ∷ []) g.1 in
    (h.0, (h.1, h.2), h.3.0 ∙ region, h.3.1 ∙ region)

sender_step-Good :
    (a : SenderAction) (s : Sender) (r : Receiver) (l : Ledger)
    → Good s r l
    → (let done = sender_step a s l in Good done.0 r done.1)
unfolding sender_step
sender_step-Good (write m) free r l g = (g.0, g.1, (g.2, ap (λ x. x ++ m ∷ []) g.3), refl)
sender_step-Good (write m) (written n) r l g = g
sender_step-Good (write m) (asking n) r l g = g
sender_step-Good (write m) ended r l g = g
sender_step-Good announce free r l g = g
sender_step-Good announce (written m) r l g = (announced r l g.0 g.1 g.2, g.3)
sender_step-Good announce (asking m) r l g = g
sender_step-Good announce ended r l g = g
sender_step-Good announce_fails free r l g = g
sender_step-Good announce_fails (written m) r l g = inr (g.0, g.1, g.2)
sender_step-Good announce_fails (asking m) r l g = g
sender_step-Good announce_fails ended r l g = g
sender_step-Good confirm free r l g = g
sender_step-Good confirm (written m) r l g = g
sender_step-Good confirm (asking m) r l g = confirm-Good r l m l.consumed refl g
sender_step-Good confirm ended r l g = g
sender_step-Good give_up free r l g = g
sender_step-Good give_up (written m) r l g = g
sender_step-Good give_up (asking m) r l g = inl g.0
sender_step-Good give_up ended r l g = g

-- What a step of the receiver does to a message on its way, and where there is none.
notice-InFlight :
    (l : Ledger) (k : ℕ)
    → l.produced ≡ k
    → InFlight listening l
    → (let done : Receiver × Ledger = elim k [
      | zero ↦ (listening, l)
      | suc n ↦ (noticed, record l { produced = n })
    ] in
        InFlight done.0 done.1 × (done.1.contents ≡ l.contents))
notice-InFlight l zero e h = (h, refl)
notice-InFlight l (suc n) e (inl (c, b)) = (((omega arith, c.1), b), refl)
notice-InFlight l (suc n) e (inr (c, a)) = absurd (omega arith)

receiver_step-InFlight :
    (a : ReceiverAction) (r : Receiver) (l : Ledger)
    → InFlight r l
    → (let done = receiver_step a r l in InFlight done.0 done.1 × (done.1.contents ≡ l.contents))
unfolding receiver_step
receiver_step-InFlight notice listening l h = notice-InFlight l l.produced refl h
receiver_step-InFlight copy noticed l h =
    ((h.0, (ap (λ q. q ++ l.contents ∷ []) h.1.0, h.1.1)), refl)
receiver_step-InFlight reply copied l h = (inr ((h.0.0, ap suc h.0.1), h.1), refl)
receiver_step-InFlight reply_fails copied l h = (inr h, refl)
receiver_step-InFlight close listening l h = (inl h, refl)
receiver_step-InFlight a r l h = (h, refl)

notice-Quiet :
    (l : Ledger) (k : ℕ)
    → l.produced ≡ k
    → k ≡ 0
    → (let done : Receiver × Ledger = elim k [
      | zero ↦ (listening, l)
      | suc n ↦ (noticed, record l { produced = n })
    ] in
        Quiet done.0 × (done.1 ≡ l))
notice-Quiet l zero e at_zero = (tt, refl)
notice-Quiet l (suc n) e at_zero = absurd (omega arith)

receiver_step-Quiet :
    (a : ReceiverAction) (r : Receiver) (l : Ledger)
    → Quiet r
    → l.produced ≡ 0
    → (let done = receiver_step a r l in Quiet done.0 × (done.1 ≡ l))
unfolding receiver_step
receiver_step-Quiet notice listening l q e = notice-Quiet l l.produced refl e
receiver_step-Quiet close listening l q e = (tt, refl)
receiver_step-Quiet a noticed l q e = absurd q
receiver_step-Quiet a copied l q e = absurd q
receiver_step-Quiet a r l q e = (q, refl)

receiver_step-Good :
    (a : ReceiverAction) (s : Sender) (r : Receiver) (l : Ledger)
    → Good s r l
    → (let done = receiver_step a r l in Good s done.0 done.1)
receiver_step-Good a free r l g =
    let still = receiver_step-Quiet a r l g.0 g.1.0 in
    subst (Good free (receiver_step a r l).0) (sym still.1) (still.0, g.1, g.2, g.3)
receiver_step-Good a (written m) r l g =
    let still = receiver_step-Quiet a r l g.0 g.1.0 in
    subst (Good (written m) (receiver_step a r l).0) (sym still.1) (still.0, g.1, g.2, g.3)
receiver_step-Good a (asking m) r l g =
    let moved = receiver_step-InFlight a r l g.0 in (moved.0, moved.1 ∙ g.1)
receiver_step-Good a ended r l (inl h) = inl (receiver_step-InFlight a r l h).0
receiver_step-Good a ended r l (inr g) =
    let still = receiver_step-Quiet a r l g.0 g.1.0 in
    subst (Good ended (receiver_step a r l).0) (sym still.1) (inr (still.0, g.1, g.2))

pub run-Good :
    (actions : List (SenderAction ⊎ ReceiverAction))
    → (let c = run actions in Good c.sender c.receiver c.ledger)
unfolding run step
run-Good [] = (tt, (refl, refl), refl, refl)
run-Good (inl a ∷ earlier) =
    let c = run earlier in sender_step-Good a c.sender c.receiver c.ledger (run-Good earlier)
run-Good (inr a ∷ earlier) =
    let c = run earlier in receiver_step-Good a c.sender c.receiver c.ledger (run-Good earlier)
