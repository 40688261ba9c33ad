-- ===== src/Utils/SharedMem/Names/Sending.antt =====
-- The names during `send` (utils/src/TTUtilsSharedMem.cpp).
use terminal_teams.Prelude.{
  Bool, Bool-cases, Bytes, false, inl, inr, refl, suc, take, true, zero, ℕ, ◌∙◌, ◌≡◌,
}
use terminal_teams.Utils.Syscall.{Os, Answer, ok, failed}
use terminal_teams.Utils.SharedMem.{SharedMem, send, wait_loop}
use terminal_teams.Utils.SharedMem.Names.{Names, IsNaming, Made}

module _ {W : Type 0} (os : Os W) (shared semaphores : W → Names)
    (law : IsNaming os shared semaphores) (s0 z0 : Names) where
  -- The names are the same.
  abbrev Keeps : W → W → Type 0
  Keeps w w' = (shared w' ≡ shared w) × (semaphores w' ≡ semaphores w)

  waited-Keeps :
      (attempts s : ℕ) (w w1 : W) (r : W × Answer)
      → ((w2 : W) → Keeps w2 (wait_loop os attempts w2 s).0)
      → Keeps w w1
      → Keeps w1 r.0
      → let o : W × Bool = elim r.1 [
        | ok m ↦ (r.0, true)
        | failed e ↦ wait_loop os attempts r.0 s
      ] in
        Keeps w o.0
  waited-Keeps attempts s w w1 (w2, ok m) again k k' = (k'.0 ∙ k.0, k'.1 ∙ k.1)
  waited-Keeps attempts s w w1 (w2, failed e) again k k' =
      let rest = again w2 in (rest.0 ∙ k'.0 ∙ k.0, rest.1 ∙ k'.1 ∙ k.1)

  clocked-Keeps :
      (attempts s : ℕ) (w : W) (clock : W × Answer)
      → ((w2 : W) → Keeps w2 (wait_loop os attempts w2 s).0)
      → Keeps w clock.0
      → let o : W × Bool = elim clock.1 [
        | failed e ↦ (clock.0, false)
        | ok n ↦
            let waited = os.sem_timedwait clock.0 s in
            elim waited.1 [ ok m ↦ (waited.0, true) | failed e ↦ wait_loop os attempts waited.0 s ]
      ] in
        Keeps w o.0
  clocked-Keeps attempts s w (w1, failed e) again k = k
  clocked-Keeps attempts s w (w1, ok n) again k =
      waited-Keeps attempts s w w1 (os.sem_timedwait w1 s) again k (law.sem_timedwait_keeps w1 s)

  wait_loop-Keeps : (attempts : ℕ) (w : W) (s : ℕ) → Keeps w (wait_loop os attempts w s).0
  unfolding wait_loop
  wait_loop-Keeps zero w s = (refl, refl)
  wait_loop-Keeps (suc attempts) w s =
      clocked-Keeps attempts s w (os.clock_gettime w) (λ w2. wait_loop-Keeps attempts w2 s)
        (law.clock_keeps w)

  kept-Made :
      (w w' : W) (m : SharedMem) (alive : Bool)
      → Keeps w w'
      → Made shared semaphores s0 z0 w m
      → Made shared semaphores s0 z0 w' (record m { alive = alive })
  kept-Made w w' m alive keeps made = record {
    new = made.new;
    fresh = made.fresh;
    in_shared = keeps.0 ∙ made.in_shared;
    in_semaphores = keeps.1 ∙ made.in_semaphores;
  }

  posted-Made :
      (attempts : ℕ) (w : W) (m : SharedMem) (posted : W × Answer)
      → Keeps w posted.0
      → Made shared semaphores s0 z0 w m
      → let r : W × SharedMem × Bool = elim posted.1 [
        | failed e ↦ (posted.0, record m { alive = false }, false)
        | ok n ↦
            let waited = wait_loop os attempts posted.0 m.data_consumed_semaphore in
            (waited.0, record m { alive = waited.1 }, waited.1)
      ] in
        Made shared semaphores s0 z0 r.0 r.1
  posted-Made attempts w m (w', failed e) keeps made = kept-Made w w' m false keeps made
  posted-Made attempts w m (w', ok n) keeps made =
      let waited = wait_loop os attempts w' m.data_consumed_semaphore in
      let kept = wait_loop-Keeps attempts w' m.data_consumed_semaphore in
      kept-Made w waited.0 m waited.1 (kept.0 ∙ keeps.0, kept.1 ∙ keeps.1) made

  -- A message that is sent leaves the names alone.
  pub send-Made :
      (attempts : ℕ) (w : W) (m : SharedMem) (message : Bytes)
      → Made shared semaphores s0 z0 w m
      → Made shared semaphores s0 z0
          (send os attempts w m message).0
          (send os attempts w m message).1
  unfolding send
  send-Made attempts w m message made = elim (Bool-cases m.alive) [
    | inr dead ↦ rw dead (kept-Made w w m false (refl, refl) made)
    | inl live ↦
        let stored = os.store w m.shared_message (take m.shared_message_size message) in
        let kept = law.store_keeps w m.shared_message (take m.shared_message_size message) in
        let posted = law.sem_post_keeps stored m.data_produced_semaphore in
        rw live (
          posted-Made attempts w m (os.sem_post stored m.data_produced_semaphore)
            (posted.0 ∙ kept.0, posted.1 ∙ kept.1) made)
  ]
