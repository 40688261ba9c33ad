-- ===== src/Utils/SharedMem/Handover.antt =====
-- The messages that a shared memory channel hands over (`send` and `receive` of
-- utils/src/TTUtilsSharedMem.cpp).
mod Tests
use terminal_teams.Prelude.{Bytes, List, [], inl, inr, sym, ◌++◌, ◌∙◌, ◌∷◌, ◌≡◌, ◌⊎◌}
use terminal_teams.Utils.SharedMem.Processes.{
  Sender, Receiver, Ledger, free, written, asking, ended, listening, noticed, copied, closed,
  SenderAction, ReceiverAction, run,
}
use terminal_teams.Utils.SharedMem.InFlight.{After, InFlight, Good, run-Good}

-- The confirmed messages, the received ones and the sent ones, each list at most one message longer than
-- the one before.
pub data InOrder (l : Ledger) : Type 0 where
  all_settled : l.received ≡ l.confirmed → l.sent ≡ l.confirmed → InOrder l
  not_received : l.received ≡ l.confirmed → (m : Bytes) → l.sent ≡ l.confirmed ++ m ∷ [] → InOrder l
  not_confirmed : l.sent ≡ l.received → (m : Bytes) → l.received ≡ l.confirmed ++ m ∷ [] → InOrder l

After-InOrder : (l : Ledger) → After l → InOrder l
After-InOrder l a = not_confirmed (a.1 ∙ sym a.0) l.contents a.0

InFlight-InOrder : (r : Receiver) (l : Ledger) → InFlight r l → InOrder l
InFlight-InOrder listening l (inl (c, b)) = not_received b.0 l.contents b.1
InFlight-InOrder listening l (inr (c, a)) = After-InOrder l a
InFlight-InOrder noticed l (c, b) = not_received b.0 l.contents b.1
InFlight-InOrder copied l (c, a) = After-InOrder l a
InFlight-InOrder closed l (inl (inl (c, b))) = not_received b.0 l.contents b.1
InFlight-InOrder closed l (inl (inr (c, a))) = After-InOrder l a
InFlight-InOrder closed l (inr (c, a)) = After-InOrder l a

Good-InOrder : (s : Sender) (r : Receiver) (l : Ledger) → Good s r l → InOrder l
Good-InOrder free r l g = all_settled g.2 g.3
Good-InOrder (written m) r l g = not_received g.2.0 l.contents g.2.1
Good-InOrder (asking m) r l g = InFlight-InOrder r l g.0
Good-InOrder ended r l (inl h) = InFlight-InOrder r l h
Good-InOrder ended r l (inr g) = not_received g.2.0 l.contents g.2.1

-- However the sender and the receiver of a channel take turns, and whichever of their calls fail: the
-- receiver copies the messages that are sent, each once, whole and in order, of which at most the last
-- may be missing; and it has copied all those that `send` returned `true` for, and at most one more.
pub run-InOrder : (actions : List (SenderAction ⊎ ReceiverAction)) → InOrder (run actions).ledger
run-InOrder actions =
    let c = run actions in Good-InOrder c.sender c.receiver c.ledger (run-Good actions)

free-settled :
    (s : Sender) (r : Receiver) (l : Ledger)
    → s ≡ free
    → Good s r l
    → (l.received ≡ l.sent) × (l.confirmed ≡ l.sent)
free-settled free r l e g = (g.2 ∙ sym g.3, sym g.3)
free-settled (written m) r l e g = absurd cc
free-settled (asking m) r l e g = absurd cc
free-settled ended r l e g = absurd cc

-- Where every call of `send` so far has returned `true`, every message was received, and no more.
pub run-settled :
    (actions : List (SenderAction ⊎ ReceiverAction))
    → (run actions).sender ≡ free
    → ((run actions).ledger.received ≡ (run actions).ledger.sent)
      × ((run actions).ledger.confirmed ≡ (run actions).ledger.sent)
run-settled actions e =
    let c = run actions in free-settled c.sender c.receiver c.ledger e (run-Good actions)
