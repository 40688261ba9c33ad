-- ===== src/Utils/SharedMem/Handover/Tests.antt =====
-- Two messages through a shared memory channel (utils/src/TTUtilsSharedMem.cpp).
use terminal_teams.Prelude.{List, [], codes, inl, inr, refl, ◌∷◌, ◌≡◌, ◌⊎◌}
use terminal_teams.Utils.SharedMem.Processes.{
  SenderAction, ReceiverAction, write, announce, confirm, notice, copy, reply, run,
}
use terminal_teams.Utils.SharedMem.Handover.{InOrder, run-InOrder, run-settled}

-- Two messages are handed over, the last action first.
abbrev taken_turns : List (SenderAction ⊎ ReceiverAction)
taken_turns =
    inl confirm
    ∷ inr reply
    ∷ inr copy
    ∷ inr notice
    ∷ inl announce
    ∷ inl (write (codes "second"))
    ∷ inl confirm
    ∷ inr reply
    ∷ inr copy
    ∷ inr notice
    ∷ inl announce
    ∷ inl (write (codes "first"))
    ∷ []

run-InOrder_example : InOrder (run taken_turns).ledger
run-InOrder_example = run-InOrder taken_turns

run-settled_example :
    ((run taken_turns).ledger.received ≡ (run taken_turns).ledger.sent)
    × ((run taken_turns).ledger.confirmed ≡ (run taken_turns).ledger.sent)
unfolding run
run-settled_example = run-settled taken_turns refl

run_received : (run taken_turns).ledger.received ≡ codes "first" ∷ codes "second" ∷ []
unfolding run
run_received = refl
