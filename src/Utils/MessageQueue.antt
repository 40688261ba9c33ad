-- ===== src/Utils/MessageQueue.antt =====
-- utils/src/TTUtilsMessageQueue.cpp: a system message queue, opened and used with retries.
pub mod Delivery
use terminal_teams.Prelude.{
  Bool, Bytes, Option, false, if◌then◌else◌, none, some, suc, take, true, zero, ℕ,
}
use terminal_teams.Utils.Syscall.{
  Os, ok, failed, got, not_got, Errno, eintr, eagain, etimedout, other,
}

-- `owner` is set where `mDeleter` is; the descriptor -1 is `none`.
pub record MessageQueue : Type 0 where
  pub name : Bytes
  pub descriptor : Option ℕ
  pub owner : Bool
  pub queue_size : ℕ
  pub message_size : ℕ

unfoldable pub init : Bytes → ℕ → ℕ → MessageQueue
init name queue_size message_size = record {
  name = name;
  descriptor = none;
  owner = false;
  queue_size = queue_size;
  message_size = message_size;
}

unfoldable pub alive : MessageQueue → Bool
alive q = elim q.descriptor [ none ↦ false | some d ↦ true ]

-- A failure after which the call is tried again.
unfoldable pub is_soft : Errno → Bool
is_soft eagain = true
is_soft etimedout = true
is_soft eintr = false
is_soft (other n) = false

module _ {W : Type 0} (os : Os W) where
  unfoldable pub create : W → MessageQueue → W × MessageQueue × Bool
  unfolding alive
  create w q =
      if alive q
      then (w, q, false)
      else (let opened = os.mq_open w q.name true in
          elim opened.1 [
            | ok d ↦ (opened.0, record q { descriptor = some d; owner = true }, true)
            | failed e ↦ (opened.0, record q { descriptor = none }, false)
          ])

  -- The loop of `open`, with `attempts` left.
  unfoldable pub open_loop : ℕ → W → MessageQueue → W × MessageQueue
  open_loop zero w q = (w, q)
  open_loop (suc attempts) w q =
      let opened = os.mq_open w q.name false in
      elim opened.1 [
        | ok d ↦ (opened.0, record q { descriptor = some d })
        | failed e ↦ open_loop attempts opened.0 (record q { descriptor = none })
      ]

  unfoldable pub open_queue : ℕ → W → MessageQueue → W × MessageQueue × Bool
  unfolding alive open_loop
  open_queue attempts w q =
      if alive q
      then (w, q, false)
      else (let opened = open_loop attempts w q in (opened.0, opened.1, alive opened.1))

  -- The loops of `receive` and `send`, with `attempts` left.
  unfoldable pub receive_loop : ℕ → W → ℕ → W × Option Bytes
  unfolding is_soft
  receive_loop zero w descriptor = (w, none)
  receive_loop (suc attempts) w descriptor =
      let clock = os.clock_gettime w in
      elim clock.1 [
        | failed e ↦ (clock.0, none)
        | ok n ↦
            let received = os.mq_timedreceive clock.0 descriptor in
            let again = receive_loop attempts received.0 descriptor in
            elim received.1 [
              | got message ↦ (received.0, some message)
              | not_got e ↦ if is_soft e then again else (received.0, none)
            ]
      ]

  unfoldable pub receive : ℕ → W → MessageQueue → W × Option Bytes
  unfolding receive_loop
  receive attempts w q = elim q.descriptor [ none ↦ (w, none) | some d ↦ receive_loop attempts w d ]

  unfoldable pub send_loop : ℕ → W → ℕ → Bytes → W × Bool
  unfolding is_soft
  send_loop zero w descriptor message = (w, false)
  send_loop (suc attempts) w descriptor message =
      let clock = os.clock_gettime w in
      elim clock.1 [
        | failed e ↦ (clock.0, false)
        | ok n ↦
            let sent = os.mq_timedsend clock.0 descriptor message in
            let again = send_loop attempts sent.0 descriptor message in
            elim sent.1 [
              | ok m ↦ (sent.0, true)
              | failed e ↦ if is_soft e then again else (sent.0, false)
            ]
      ]

  unfoldable pub send : ℕ → W → MessageQueue → Bytes → W × Bool
  unfolding send_loop
  send attempts w q message = elim q.descriptor [
    | none ↦ (w, false)
    | some d ↦ send_loop attempts w d (take q.message_size message)
  ]

  -- The destructor.
  unfoldable pub destruct : W → MessageQueue → W × MessageQueue
  destruct w q = (if q.owner then (os.mq_unlink w q.name).0 else w, record q { descriptor = none })
