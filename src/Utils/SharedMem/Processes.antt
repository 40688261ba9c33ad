-- ===== src/Utils/SharedMem/Processes.antt =====
-- The sender and the receiver of a shared memory channel as two processes, a system call at a time
-- (`send` and `receive` of utils/src/TTUtilsSharedMem.cpp).
use terminal_teams.Prelude.{Bytes, List, [], inl, inr, suc, zero, ℕ, ◌++◌, ◌∷◌, ◌⊎◌}

-- Where the sender stands: outside of `send`, before `sem_post`, before a `sem_timedwait` that succeeds,
-- or done with a channel that is dead.
pub data Sender : Type 0 where
  free : Sender
  written asking : Bytes → Sender
  ended : Sender

-- The receiver: before a `sem_timedwait` that succeeds, before `memcpy`, before `sem_post`, or done.
pub data Receiver : Type 0 where
  listening noticed copied closed : Receiver

-- The two counts and the region, with the messages that `send` was called with, those that it returned
-- `true` for, and those that the receiver copied.
pub record Ledger : Type 0 where
  pub produced : ℕ
  pub consumed : ℕ
  pub contents : Bytes
  pub sent : List Bytes
  pub confirmed : List Bytes
  pub received : List Bytes

pub data SenderAction : Type 0 where
  write : Bytes → SenderAction
  announce announce_fails confirm give_up : SenderAction

pub data ReceiverAction : Type 0 where
  notice copy reply reply_fails close : ReceiverAction

-- An action that the process is not at, and a wait for a semaphore that stands at 0, change nothing.
unfoldable pub sender_step : SenderAction → Sender → Ledger → Sender × Ledger
sender_step (write m) free l = (written m, record l { contents = m; sent = l.sent ++ m ∷ [] })
sender_step announce (written m) l = (asking m, record l { produced = suc l.produced })
sender_step announce_fails (written m) l = (ended, l)
sender_step confirm (asking m) l = elim l.consumed [
  | zero ↦ (asking m, l)
  | suc n ↦ (free, record l { consumed = n; confirmed = l.confirmed ++ m ∷ [] })
]
sender_step give_up (asking m) l = (ended, l)
sender_step a s l = (s, l)

unfoldable pub receiver_step : ReceiverAction → Receiver → Ledger → Receiver × Ledger
receiver_step notice listening l = elim l.produced [
  | zero ↦ (listening, l)
  | suc n ↦ (noticed, record l { produced = n })
]
receiver_step copy noticed l = (copied, record l { received = l.received ++ l.contents ∷ [] })
receiver_step reply copied l = (listening, record l { consumed = suc l.consumed })
receiver_step reply_fails copied l = (closed, l)
receiver_step close listening l = (closed, l)
receiver_step a r l = (r, l)

pub record Handover : Type 0 where
  pub sender : Sender
  pub receiver : Receiver
  pub ledger : Ledger

abbrev pub start : Handover
start = record {
  sender = free;
  receiver = listening;
  ledger = record {
    produced = 0;
    consumed = 0;
    contents = [];
    sent = [];
    confirmed = [];
    received = [];
  };
}

unfoldable pub step : SenderAction ⊎ ReceiverAction → Handover → Handover
unfolding sender_step receiver_step
step (inl a) c =
    let done = sender_step a c.sender c.ledger in
    record { sender = done.0; receiver = c.receiver; ledger = done.1 }
step (inr a) c =
    let done = receiver_step a c.receiver c.ledger in
    record { sender = c.sender; receiver = done.0; ledger = done.1 }

-- The processes take turns in the order of the list, its last element first.
unfoldable pub run : List (SenderAction ⊎ ReceiverAction) → Handover
unfolding step
run [] = start
run (a ∷ earlier) = step a (run earlier)
