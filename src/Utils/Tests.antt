-- ===== src/Utils/Tests.antt =====
-- Instances of what is proved of the channels (utils/src).
use terminal_teams.Prelude.{
  Bool, Bytes, List, [], ap, codes, false, refl, some, suc, sym, true, zero, ℕ, ◌++◌, ◌∙◌, ◌∷◌, ◌≡◌,
}
use mathlib.Core.Path.{subst}
use terminal_teams.Utils.Syscall.{Os, Answer, ok, failed, Filled, got, not_got, eintr, eagain}
use terminal_teams.Utils.MessageQueue as Queue
use terminal_teams.Utils.MessageQueue.{MessageQueue}
use terminal_teams.Utils.MessageQueue.Delivery.{
  IsFifo, Sends, Receives, send-Sends, receive-Receives,
}
use terminal_teams.Utils.SharedMem as Memory
use terminal_teams.Utils.SharedMem.{SharedMem}
use terminal_teams.Utils.SharedMem.Waiting.{
  Shared, IsShared, Alone, Attended, IsWaited, still, noticed, confirmed, add_produced,
  add_consumed, write,
}
use terminal_teams.Utils.SharedMem.Transfer.{Hands, Takes, send-Hands, receive-Takes}

-- A system with one queue, two semaphores and one region. Every second call on the queue is told to try
-- again.
pub record Machine : Type 0 where
  pub waiting : List Bytes
  pub busy : Bool
  pub shared : Shared

abbrev machine : Machine
machine = record {
  waiting = codes "first" ∷ [];
  busy = true;
  shared = record { produced = 0; consumed = 0; owed = 0; contents = [] };
}

abbrev put : Machine → Bytes → Bool → Machine × Answer
put w m true = (record w { busy = false }, failed eagain)
put w m false = (record w { waiting = w.waiting ++ m ∷ []; busy = true }, ok 0)

abbrev fetch : Machine → Bool → List Bytes → Machine × Filled
fetch w true ms = (record w { busy = false }, not_got eagain)
fetch w false [] = (w, not_got eintr)
fetch w false (m ∷ ms) = (record w { waiting = ms; busy = true }, got m)

-- The semaphore 1 counts what was produced, the semaphore 2 what was consumed.
abbrev post : Machine → ℕ → Machine × Answer
post w zero = (w, ok 0)
post w (suc zero) = (record w { shared = add_produced w.shared }, ok 0)
post w (suc (suc n)) = (record w { shared = add_consumed w.shared }, ok 0)

abbrev wait_produced : Machine → ℕ → Machine × Answer
wait_produced w zero = (w, failed eintr)
wait_produced w (suc n) = (record w { shared = record (w.shared) { produced = n } }, ok 0)

abbrev wait_consumed : Machine → ℕ → Machine × Answer
wait_consumed w zero = (w, failed eintr)
wait_consumed w (suc n) = (record w { shared = record (w.shared) { consumed = n } }, ok 0)

-- The receiver has a turn, in which it confirms an announcement that is there.
abbrev attend : ℕ → Shared → Shared
attend zero s = s
attend (suc n) s = record s { produced = n; consumed = suc s.consumed }

abbrev attended : Machine → Machine
attended w = record w { shared = attend w.shared.produced w.shared }

abbrev wait : Machine → ℕ → Machine × Answer
wait w zero = (w, failed eintr)
wait w (suc zero) = wait_produced w w.shared.produced
wait w (suc (suc n)) = wait_consumed (attended w) (attended w).shared.consumed

abbrev os : Os Machine
os = record {
  mq_open = λ w name new. (w, ok 3);
  mq_unlink = λ w name. (w, ok 0);
  mq_timedsend = λ w d m. put w m w.busy;
  mq_timedreceive = λ w d. fetch w w.busy w.waiting;
  clock_gettime = λ w. (w, ok 0);
  shm_open = λ w name new. (w, ok 4);
  shm_unlink = λ w name. (w, ok 0);
  ftruncate = λ w d size. (w, ok 0);
  mmap = λ w size d. (w, 7);
  sem_open = λ w name new. (w, 1);
  sem_post = post;
  sem_timedwait = wait;
  sem_unlink = λ w name. (w, ok 0);
  store = λ w a m. record w { shared = write m w.shared };
  load = λ w a. w.shared.contents;
  mkfifo = λ w path. (w, ok 0);
  open_file = λ w path writing. (w, ok 5);
  close = λ w d. (w, ok 0);
  unlink = λ w path. (w, ok 0);
  read = λ w d size. (w, not_got eintr);
  write = λ w d m. (w, ok 0);
}

put-sent :
    (w : Machine) (m : Bytes) (n : ℕ) (b : Bool)
    → (put w m b).1 ≡ ok n
    → (put w m b).0.waiting ≡ w.waiting ++ m ∷ []
put-sent w m n true e = absurd cc
put-sent w m n false e = refl

put-not_sent :
    (w : Machine) (m : Bytes) (e : _) (b : Bool)
    → (put w m b).1 ≡ failed e
    → (put w m b).0.waiting ≡ w.waiting
put-not_sent w m e true h = refl
put-not_sent w m e false h = absurd cc

fetch-received :
    (w : Machine) (m : Bytes) (b : Bool) (ms : List Bytes)
    → ms ≡ w.waiting
    → (fetch w b ms).1 ≡ got m
    → w.waiting ≡ m ∷ (fetch w b ms).0.waiting
fetch-received w m true ms all e = absurd cc
fetch-received w m false [] all e = absurd cc
fetch-received w m false (x ∷ ms) all e = sym all ∙ cc

fetch-not_received :
    (w : Machine) (e : _) (b : Bool) (ms : List Bytes)
    → (fetch w b ms).1 ≡ not_got e
    → (fetch w b ms).0.waiting ≡ w.waiting
fetch-not_received w e true ms h = refl
fetch-not_received w e false [] h = refl
fetch-not_received w e false (x ∷ ms) h = absurd cc

fifo : IsFifo os (λ w. w.waiting)
fifo = record {
  clock_keeps = λ w. refl;
  sent = λ w d n m e. put-sent w m n w.busy e;
  not_sent = λ w d m e h. put-not_sent w m e w.busy h;
  received = λ w d m e. fetch-received w m w.busy w.waiting refl e;
  not_received = λ w d e h. fetch-not_received w e w.busy w.waiting h;
}

post-not_posted :
    (w : Machine) (s : ℕ) (e : _) → (post w s).1 ≡ failed e → (post w s).0.shared ≡ w.shared
post-not_posted w zero e h = absurd cc
post-not_posted w (suc zero) e h = absurd cc
post-not_posted w (suc (suc n)) e h = absurd cc

wait_produced-waited :
    (w : Machine) (n k : ℕ)
    → k ≡ w.shared.produced
    → (wait_produced w k).1 ≡ ok n
    → w.shared ≡ add_produced (wait_produced w k).0.shared
wait_produced-waited w n zero e h = absurd cc
wait_produced-waited w n (suc k) e h = ap (λ m. record (w.shared) { produced = m }) (sym e)

wait_consumed-waited :
    (w : Machine) (n k : ℕ)
    → k ≡ w.shared.consumed
    → (wait_consumed w k).1 ≡ ok n
    → w.shared ≡ add_consumed (wait_consumed w k).0.shared
wait_consumed-waited w n zero e h = absurd cc
wait_consumed-waited w n (suc k) e h = ap (λ m. record (w.shared) { consumed = m }) (sym e)

wait_produced-not_waited :
    (w : Machine) (e : _) (k : ℕ)
    → (wait_produced w k).1 ≡ failed e
    → (wait_produced w k).0.shared ≡ w.shared
wait_produced-not_waited w e zero h = refl
wait_produced-not_waited w e (suc k) h = absurd cc

wait_consumed-not_waited :
    (w : Machine) (e : _) (k : ℕ)
    → (wait_consumed w k).1 ≡ failed e
    → (wait_consumed w k).0.shared ≡ w.shared
wait_consumed-not_waited w e zero h = refl
wait_consumed-not_waited w e (suc k) h = absurd cc

shared : IsShared os (λ w. w.shared) 1 2 7
shared = record {
  clock_keeps = λ w. refl;
  stored = λ w m. refl;
  loaded = λ w. refl;
  produced_posted = λ w n e. refl;
  consumed_posted = λ w n e. refl;
  not_posted = λ w s e h. post-not_posted w s e h;
}

attend-Attended : (n : ℕ) (s : Shared) → n ≡ s.produced → Attended s (attend n s)
attend-Attended zero s e = still
attend-Attended (suc n) s e = noticed n (sym e) (confirmed s.owed refl still)

-- The sender waits while the receiver has its turns.
waits_attended : IsWaited os (λ w. w.shared) Attended add_consumed 2
waits_attended = record {
  waited = λ w n e. (
    (attended w).shared,
    attend-Attended w.shared.produced w.shared refl,
    wait_consumed-waited (attended w) n (attended w).shared.consumed refl e,
  );
  not_waited = λ w e h.
      subst (Attended w.shared)
        (sym (wait_consumed-not_waited (attended w) e (attended w).shared.consumed h))
        (attend-Attended w.shared.produced w.shared refl);
}

-- The receiver waits alone.
waits_alone : IsWaited os (λ w. w.shared) Alone add_produced 1
waits_alone = record {
  waited = λ w n e. (w.shared, refl, wait_produced-waited w n w.shared.produced refl e);
  not_waited = λ w e h. sym (wait_produced-not_waited w e w.shared.produced h);
}

abbrev queue : MessageQueue
queue = record {
  name = codes "/queue";
  descriptor = some 3;
  owner = false;
  queue_size = 8;
  message_size = 16;
}

-- The second call succeeds.
send-Sends_example :
    Sends os (λ w. w.waiting) fifo machine (codes "hi") (Queue.send os 5 machine queue (codes "hi"))
send-Sends_example = send-Sends os (λ w. w.waiting) fifo 5 machine queue (codes "hi")

receive-Receives_example :
    Receives os (λ w. w.waiting) fifo machine (Queue.receive os 5 machine queue)
receive-Receives_example = receive-Receives os (λ w. w.waiting) fifo 5 machine queue

send_twice : (Queue.send os 5 machine queue (codes "hi")).1 ≡ true
unfolding Queue.send
send_twice = refl

abbrev memory : SharedMem
memory = record {
  shared_memory_name = codes "/memory";
  data_consumed_sem_name = codes "/consumed";
  data_produced_sem_name = codes "/produced";
  shared_message = 7;
  shared_message_size = 4;
  data_produced_semaphore = 1;
  data_consumed_semaphore = 2;
  alive = true;
  shared_memory_created = true;
  data_consumed_sem_created = true;
  data_produced_sem_created = true;
}

-- The receiver confirms while the sender waits.
send-Hands_example :
    Hands os
      (λ w. w.shared)
      memory
      shared
      machine
      (codes "word")
      (Memory.send os 5 machine memory (codes "word"))
send-Hands_example =
    send-Hands os (λ w. w.shared) memory shared 5 machine (codes "word") refl waits_attended

send_confirmed : (Memory.send os 5 machine memory (codes "word")).2 ≡ true
unfolding Memory.send
send_confirmed = refl

abbrev produced : Machine
produced = record machine {
  shared = record { produced = 1; consumed = 0; owed = 0; contents = codes "word" };
}

receive-Takes_example :
    Takes os
      (λ w. w.shared)
      memory
      shared
      produced
      (Memory.receive os 5 produced memory (codes "    "))
receive-Takes_example =
    receive-Takes os (λ w. w.shared) memory shared 5 produced (codes "    ") refl waits_alone
