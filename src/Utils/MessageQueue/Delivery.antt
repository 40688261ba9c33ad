-- ===== src/Utils/MessageQueue/Delivery.antt =====
-- Sending and receiving with retries (utils/src/TTUtilsMessageQueue.cpp), over a system that keeps the
-- messages of a queue in order.
use terminal_teams.Prelude.{
  Bool, Bytes, List, Option, [], ap, false, if◌then◌else◌, none, refl, same, some, suc, sym, take,
  true, zero, ℕ, ◌++◌, ◌∙◌, ◌∷◌, ◌≡◌,
}
use terminal_teams.Utils.Syscall.{Os, Answer, ok, failed, Filled, got, not_got, Errno}
use terminal_teams.Utils.MessageQueue.{
  MessageQueue, is_soft, send_loop, send, receive_loop, receive,
}

-- What POSIX says of a queue, `waiting` being the messages in it: a call that fails leaves it as it is, a
-- successful one puts a message at its end or takes the first, and the clock does not touch it.
pub record IsFifo {W : Type 0} (os : Os W) (waiting : W → List Bytes) : Type 0 where
  pub clock_keeps : (w : W) → waiting (os.clock_gettime w).0 ≡ waiting w
  pub sent :
      (w : W) (d n : ℕ) (m : Bytes)
      → (os.mq_timedsend w d m).1 ≡ ok n
      → waiting (os.mq_timedsend w d m).0 ≡ waiting w ++ m ∷ []
  pub not_sent :
      (w : W) (d : ℕ) (m : Bytes) (e : Errno)
      → (os.mq_timedsend w d m).1 ≡ failed e
      → waiting (os.mq_timedsend w d m).0 ≡ waiting w
  pub received :
      (w : W) (d : ℕ) (m : Bytes)
      → (os.mq_timedreceive w d).1 ≡ got m
      → waiting w ≡ m ∷ waiting (os.mq_timedreceive w d).0
  pub not_received :
      (w : W) (d : ℕ) (e : Errno)
      → (os.mq_timedreceive w d).1 ≡ not_got e
      → waiting (os.mq_timedreceive w d).0 ≡ waiting w

module _ {W : Type 0} (os : Os W) (waiting : W → List Bytes) (fifo : IsFifo os waiting) where
  -- Where the result is `true` the message was put in, otherwise nothing happened.
  abbrev pub Sends : W → Bytes → W × Bool → Type 0
  Sends w m (w', true) = waiting w' ≡ waiting w ++ m ∷ []
  Sends w m (w', false) = waiting w' ≡ waiting w

  abbrev pub Receives : W → W × Option Bytes → Type 0
  Receives w (w', some m) = waiting w ≡ m ∷ waiting w'
  Receives w (w', none) = waiting w' ≡ waiting w

  Sends-from :
      (w w' : W) (m : Bytes) (r : W × Bool) → waiting w' ≡ waiting w → Sends w' m r → Sends w m r
  Sends-from w w' m (v, true) e h = h ∙ ap (λ q. q ++ m ∷ []) e
  Sends-from w w' m (v, false) e h = h ∙ e

  Sends-clock :
      (w w' : W) (m : Bytes) (a : Answer) (rest : W × Bool)
      → waiting w' ≡ waiting w
      → Sends w m rest
      → Sends w m (elim a [ failed e ↦ (w', false) | ok n ↦ rest ])
  Sends-clock w w' m (failed e) rest same h = same
  Sends-clock w w' m (ok n) rest same h = h

  Sends-if :
      (w w' : W) (m : Bytes) (soft : Bool) (again : W × Bool)
      → waiting w' ≡ waiting w
      → Sends w m again
      → Sends w m (if soft then again else (w', false))
  Sends-if w w' m true again same h = h
  Sends-if w w' m false again same h = same

  Sends-answer :
      (w w' : W) (m : Bytes) (a : Answer) (again : W × Bool)
      → ((n : ℕ) → a ≡ ok n → waiting w' ≡ waiting w ++ m ∷ [])
      → ((e : Errno) → a ≡ failed e → waiting w' ≡ waiting w)
      → (waiting w' ≡ waiting w → Sends w m again)
      → Sends w m
          (elim a [ ok n ↦ (w', true) | failed e ↦ if is_soft e then again else (w', false) ])
  Sends-answer w w' m (ok n) again put kept h = put n refl
  Sends-answer w w' m (failed e) again put kept h =
      Sends-if w w' m (is_soft e) again (kept e refl) (h (kept e refl))

  send_loop-Sends :
      (attempts : ℕ) (w : W) (d : ℕ) (m : Bytes) → Sends w m (send_loop os attempts w d m)
  unfolding send_loop
  send_loop-Sends zero w d m = refl
  send_loop-Sends (suc attempts) w d m =
      let clock = os.clock_gettime w in
      let sent = os.mq_timedsend clock.0 d m in
      let ticked = fifo.clock_keeps w in
      Sends-clock w clock.0 m clock.1 _ ticked (
        Sends-from w clock.0 m _ ticked (
          Sends-answer clock.0 sent.0 m sent.1 (send_loop os attempts sent.0 d m)
            (λ n e. fifo.sent clock.0 d n m e) (λ e failure. fifo.not_sent clock.0 d m e failure)
            (λ same.
              Sends-from clock.0 sent.0 m (send_loop os attempts sent.0 d m) same
                (send_loop-Sends attempts sent.0 d m))))

  Receives-from :
      (w w' : W) (r : W × Option Bytes) → waiting w' ≡ waiting w → Receives w' r → Receives w r
  Receives-from w w' (v, some m) e h = sym e ∙ h
  Receives-from w w' (v, none) e h = h ∙ e

  Receives-clock :
      (w w' : W) (a : Answer) (rest : W × Option Bytes)
      → waiting w' ≡ waiting w
      → Receives w rest
      → Receives w (elim a [ failed e ↦ (w', none) | ok n ↦ rest ])
  Receives-clock w w' (failed e) rest same h = same
  Receives-clock w w' (ok n) rest same h = h

  Receives-if :
      (w w' : W) (soft : Bool) (again : W × Option Bytes)
      → waiting w' ≡ waiting w
      → Receives w again
      → Receives w (if soft then again else (w', none))
  Receives-if w w' true again same h = h
  Receives-if w w' false again same h = same

  Receives-answer :
      (w w' : W) (a : Filled) (again : W × Option Bytes)
      → ((m : Bytes) → a ≡ got m → waiting w ≡ m ∷ waiting w')
      → ((e : Errno) → a ≡ not_got e → waiting w' ≡ waiting w)
      → (waiting w' ≡ waiting w → Receives w again)
      → Receives w
          (elim a [ got m ↦ (w', some m) | not_got e ↦ if is_soft e then again else (w', none) ])
  Receives-answer w w' (got m) again taken kept h = taken m refl
  Receives-answer w w' (not_got e) again taken kept h =
      Receives-if w w' (is_soft e) again (kept e refl) (h (kept e refl))

  receive_loop-Receives : (attempts : ℕ) (w : W) (d : ℕ) → Receives w (receive_loop os attempts w d)
  unfolding receive_loop
  receive_loop-Receives zero w d = refl
  receive_loop-Receives (suc attempts) w d =
      let clock = os.clock_gettime w in
      let found = os.mq_timedreceive clock.0 d in
      let ticked = fifo.clock_keeps w in
      Receives-clock w clock.0 clock.1 _ ticked (
        Receives-from w clock.0 _ ticked (
          Receives-answer clock.0 found.0 found.1 (receive_loop os attempts found.0 d)
            (λ m e. fifo.received clock.0 d m e)
            (λ e failure. fifo.not_received clock.0 d e failure)
            (λ same.
              Receives-from clock.0 found.0 (receive_loop os attempts found.0 d) same
                (receive_loop-Receives attempts found.0 d))))

  -- However often a call is tried again, over a system that keeps the messages of a queue in order: `send`
  -- puts the message, cut to the size of the queue's messages, at the end exactly once where it succeeds,
  -- and not at all where it does not.
  pub send-Sends :
      (attempts : ℕ) (w : W) (q : MessageQueue) (m : Bytes)
      → Sends w (take q.message_size m) (send os attempts w q m)
  unfolding send
  send-Sends attempts w q m = go q.descriptor
    where
      go :
          (d : Option ℕ)
          → Sends w (take q.message_size m) (elim d [
            | none ↦ (w, false)
            | some f ↦ send_loop os attempts w f (take q.message_size m)
          ])
      go none = refl
      go (some f) = send_loop-Sends attempts w f (take q.message_size m)

  -- And `receive` takes exactly the first message where it succeeds, and none where it does not.
  pub receive-Receives :
      (attempts : ℕ) (w : W) (q : MessageQueue) → Receives w (receive os attempts w q)
  unfolding receive
  receive-Receives attempts w q = go q.descriptor
    where
      go :
          (d : Option ℕ)
          → Receives w (elim d [ none ↦ (w, none) | some f ↦ receive_loop os attempts w f ])
      go none = refl
      go (some f) = receive_loop-Receives attempts w f
