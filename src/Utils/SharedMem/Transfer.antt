-- ===== src/Utils/SharedMem/Transfer.antt =====
-- One call of `send` and `receive` (utils/src/TTUtilsSharedMem.cpp) over a system that keeps count of its
-- semaphores.
use mathlib.Core.Path.{subst}
use terminal_teams.Prelude.{
  Bool, Bytes, ap, arith, false, if◌then◌else◌, inl, inr, not, refl, sym, take, true, ℕ, ◌∙◌, ◌≡◌,
  ◌⊎◌,
}
use terminal_teams.Utils.Syscall.{Os, Answer, ok, failed, Errno}
use terminal_teams.Utils.SharedMem.{SharedMem, wait_loop, send, receive}
use terminal_teams.Utils.SharedMem.Waiting.{
  Shared, add_produced, add_consumed, write, open_announcements, IsShared, Alone, Attended,
  IsWaited, Alone-IsRely, Attended-IsRely, Attended-open, Waits, wait_loop-Waits,
}

module _ {W : Type 0} (os : Os W) (view : W → Shared) (m : SharedMem)
    (shared : IsShared os view m.data_produced_semaphore m.data_consumed_semaphore
      m.shared_message) where
  -- The region with the message, before the announcement.
  abbrev written : W → Bytes → Shared
  written w message = write (take m.shared_message_size message) (view w)

  -- A call of `send` that succeeds writes the message and announces it once, and after turns of the receiver
  -- takes one confirmation. No more announcements are open than before: where none was, the receiver has taken
  -- this one and confirmed it. A call that fails leaves a channel that is dead and confirms nothing.
  abbrev pub Hands : W → Bytes → W × SharedMem × Bool → Type 0
  Hands w message (w', m', true) =
      (m' ≡ m)
      × ((v : Shared) × Attended (add_produced (written w message)) v
          × (v ≡ add_consumed (view w')))
      × (open_announcements (view w') ≡ open_announcements (view w))
      × ((view w').contents ≡ take m.shared_message_size message)
  Hands w message (w', m', false) =
      (m'.alive ≡ false)
      × ((view w' ≡ written w message) ⊎ Attended (add_produced (written w message)) (view w'))

  -- A call of `receive` that succeeds takes one announcement, copies what the region holds and confirms
  -- once. One that fails leaves a channel that is dead and confirms nothing.
  abbrev pub Takes : W → W × SharedMem × Bytes × Bool → Type 0
  Takes w (w', m', copy, true) =
      (m' ≡ m)
      × (copy ≡ take m.shared_message_size (view w).contents)
      × (add_produced (view w') ≡ add_consumed (view w))
  Takes w (w', m', copy, false) =
      (m'.alive ≡ false) × ((view w' ≡ view w) ⊎ (add_produced (view w') ≡ view w))

  Hands-waited :
      (w v : W) (message : Bytes) (r : W × Bool)
      → m.alive ≡ true
      → view v ≡ add_produced (written w message)
      → Waits os view Attended Attended-IsRely add_consumed v r
      → Hands w message (r.0, record m { alive = r.1 }, r.1)
  Hands-waited w v message (w', true) alive posted (s, turns, taken) =
      let all = subst (λ (x : Shared). Attended x s) posted turns in
      let counts = Attended-open all in
      let before = ap open_announcements (sym taken) in
      (
        ap (λ b. record m { alive = b }) (sym alive),
        (s, all, taken),
        omega (arith, counts.0, before),
        ap (λ (x : Shared). x.contents) (sym taken) ∙ counts.1,
      )
  Hands-waited w v message (w', false) alive posted turns =
      (refl, inr (subst (λ (x : Shared). Attended x (view w')) posted turns))

  Hands-posted :
      (attempts : ℕ) (w v : W) (message : Bytes) (a : Answer)
      → m.alive ≡ true
      → IsWaited os view Attended add_consumed m.data_consumed_semaphore
      → ((n : ℕ) → a ≡ ok n → view v ≡ add_produced (written w message))
      → ((e : Errno) → a ≡ failed e → view v ≡ written w message)
      → Hands w message (elim a [
        | failed e ↦ (v, record m { alive = false }, false)
        | ok n ↦
            let waited = wait_loop os attempts v m.data_consumed_semaphore in
            (waited.0, record m { alive = waited.1 }, waited.1)
      ])
  Hands-posted attempts w v message (failed e) alive law posted kept = (refl, inl (kept e refl))
  Hands-posted attempts w v message (ok n) alive law posted kept =
      Hands-waited w v message (wait_loop os attempts v m.data_consumed_semaphore) alive
        (posted n refl)
        (wait_loop-Waits os view Attended Attended-IsRely add_consumed m.data_consumed_semaphore
          attempts v shared.clock_keeps law)

  -- On a live channel, where the receiver may take and confirm announcements while `send` waits: a call that
  -- succeeds wrote the message, announced it once and took one confirmation, and no more announcements are open
  -- than before. One that fails took no confirmation, announced the message at most once, and leaves the
  -- channel dead.
  pub send-Hands :
      (attempts : ℕ) (w : W) (message : Bytes)
      → m.alive ≡ true
      → IsWaited os view Attended add_consumed m.data_consumed_semaphore
      → Hands w message (send os attempts w m message)
  unfolding send
  send-Hands attempts w message alive law =
      let stored = os.store w m.shared_message (take m.shared_message_size message) in
      let posted = os.sem_post stored m.data_produced_semaphore in
      let kept = shared.stored w (take m.shared_message_size message) in
      subst
        (λ b. Hands w message (
          if not b then (w, m, false) else (elim posted.1 [
            | failed e ↦ (posted.0, record m { alive = false }, false)
            | ok n ↦
                let waited = wait_loop os attempts posted.0 m.data_consumed_semaphore in
                (waited.0, record m { alive = waited.1 }, waited.1)
          ])))
        (sym alive)
        (Hands-posted attempts w posted.0 message posted.1 alive law
          (λ n e. shared.produced_posted stored n e ∙ ap add_produced kept)
          (λ e failure. shared.not_posted stored m.data_produced_semaphore e failure ∙ kept))

  Takes-posted :
      (w v u : W) (copy : Bytes) (a : Answer)
      → view w ≡ add_produced (view v)
      → copy ≡ take m.shared_message_size (view v).contents
      → ((n : ℕ) → a ≡ ok n → view u ≡ add_consumed (view v))
      → ((e : Errno) → a ≡ failed e → view u ≡ view v)
      → Takes w (elim a [
        | failed e ↦ (u, record m { alive = false }, copy, false)
        | ok n ↦ (u, m, copy, true)
      ])
  Takes-posted w v u copy (failed e) waited copied posted kept =
      (refl, inr (ap add_produced (kept e refl) ∙ sym waited))
  Takes-posted w v u copy (ok n) waited copied posted kept = (
    refl,
    copied ∙ ap (λ s. take m.shared_message_size s.contents) (sym waited),
    ap add_produced (posted n refl) ∙ ap add_consumed (sym waited),
  )

  Takes-waited :
      (w : W) (message : Bytes) (r : W × Bool)
      → Waits os view Alone Alone-IsRely add_produced w r
      → Takes w (
          if not r.1
          then (r.0, record m { alive = false }, message, false)
          else (let posted = os.sem_post r.0 m.data_consumed_semaphore in
              let copy = take m.shared_message_size (os.load r.0 m.shared_message) in
              elim posted.1 [
                | failed e ↦ (posted.0, record m { alive = false }, copy, false)
                | ok n ↦ (posted.0, m, copy, true)
              ]))
  Takes-waited w message (v, false) h = (refl, inl (sym h))
  Takes-waited w message (v, true) (x, before, taken) =
      let posted = os.sem_post v m.data_consumed_semaphore in
      Takes-posted w v posted.0 (take m.shared_message_size (os.load v m.shared_message)) posted.1
        (before ∙ taken) (ap (take m.shared_message_size) (shared.loaded v))
        (λ n e. shared.consumed_posted v n e)
        (λ e failure. shared.not_posted v m.data_consumed_semaphore e failure)

  -- On a live channel, where nobody else acts while `receive` waits: a call that succeeds copied what the region
  -- holds, took one announcement and confirmed once. One that fails confirmed nothing, took at most one
  -- announcement, and leaves the channel dead.
  pub receive-Takes :
      (attempts : ℕ) (w : W) (message : Bytes)
      → m.alive ≡ true
      → IsWaited os view Alone add_produced m.data_produced_semaphore
      → Takes w (receive os attempts w m message)
  unfolding receive
  receive-Takes attempts w message alive law =
      let waited = wait_loop os attempts w m.data_produced_semaphore in
      subst
        (λ b. Takes w (
          if not b
          then (w, m, message, false)
          else (if not waited.1
              then (waited.0, record m { alive = false }, message, false)
              else (let posted = os.sem_post waited.0 m.data_consumed_semaphore in
                  let copy = take m.shared_message_size (os.load waited.0 m.shared_message) in
                  elim posted.1 [
                    | failed e ↦ (posted.0, record m { alive = false }, copy, false)
                    | ok n ↦ (posted.0, m, copy, true)
                  ]))))
        (sym alive)
        (Takes-waited w message waited (
          wait_loop-Waits os view Alone Alone-IsRely add_produced m.data_produced_semaphore attempts
            w shared.clock_keeps law))
