-- ===== src/Utils/SharedMem.antt =====
-- utils/src/TTUtilsSharedMem.cpp: one message in shared memory, handed over by two semaphores.
pub mod Waiting
pub mod Transfer
pub mod Processes
pub mod InFlight
pub mod Handover
pub mod Names
use terminal_teams.Prelude.{
  Bool, Bytes, Option, false, if◌then◌else◌, none, not, some, suc, take, true, zero, ℕ, ◌&&◌, ◌==◌,
  ◌||◌,
}
use terminal_teams.Utils.Syscall.{Os, Answer, ok, failed}

-- Pointers are numbers, 0 where they are null.
pub record SharedMem : Type 0 where
  pub shared_memory_name : Bytes
  pub data_consumed_sem_name : Bytes
  pub data_produced_sem_name : Bytes
  pub shared_message : ℕ
  pub shared_message_size : ℕ
  pub data_produced_semaphore : ℕ
  pub data_consumed_semaphore : ℕ
  pub alive : Bool
  pub shared_memory_created : Bool
  pub data_consumed_sem_created : Bool
  pub data_produced_sem_created : Bool

unfoldable pub init : Bytes → Bytes → Bytes → ℕ → SharedMem
init memory consumed produced size = record {
  shared_memory_name = memory;
  data_consumed_sem_name = consumed;
  data_produced_sem_name = produced;
  shared_message = 0;
  shared_message_size = size;
  data_produced_semaphore = 0;
  data_consumed_semaphore = 0;
  alive = false;
  shared_memory_created = false;
  data_consumed_sem_created = false;
  data_produced_sem_created = false;
}

module _ {W : Type 0} (os : Os W) where
  -- `create` from the second semaphore back to its start.
  unfoldable pub create_consumed : W → SharedMem → W × SharedMem × Bool
  create_consumed w m =
      let opened = os.sem_open w m.data_consumed_sem_name true in
      let m' = record m { data_consumed_semaphore = opened.1 } in
      if opened.1 == 0
      then (opened.0, m', false)
      else (opened.0, record m' { data_consumed_sem_created = true; alive = true }, true)

  unfoldable pub create_produced : W → SharedMem → W × SharedMem × Bool
  unfolding create_consumed
  create_produced w m =
      let opened = os.sem_open w m.data_produced_sem_name true in
      let m' = record m { data_produced_semaphore = opened.1 } in
      if opened.1 == 0
      then (opened.0, m', false)
      else create_consumed opened.0 (record m' { data_produced_sem_created = true })

  unfoldable pub create_mapping : W → SharedMem → ℕ → W × SharedMem × Bool
  unfolding create_produced
  create_mapping w m fd =
      let mapped = os.mmap w m.shared_message_size fd in
      let m' = record m { shared_message = mapped.1 } in
      if mapped.1 == 0 then (mapped.0, m', false) else create_produced mapped.0 m'

  unfoldable pub create : W → SharedMem → W × SharedMem × Bool
  unfolding create_mapping
  create w m =
      if m.alive
      then (w, m, false)
      else (let opened = os.shm_open w m.shared_memory_name true in
          elim opened.1 [
            | failed e ↦ (opened.0, m, false)
            | ok fd ↦
                let m' = record m { shared_memory_created = true } in
                let cut = os.ftruncate opened.0 fd m.shared_message_size in
                elim cut.1 [ failed e ↦ (cut.0, m', false) | ok n ↦ create_mapping cut.0 m' fd ]
          ])

  -- A semaphore that is open is not opened again.
  unfoldable pub ensure_semaphore : W → Bytes → ℕ → W × ℕ
  ensure_semaphore w name semaphore =
      if semaphore == 0 then os.sem_open w name false else (w, semaphore)

  -- `fileDescriptor` is `none` where it is -1.
  unfoldable pub ensure_memory : W → Bytes → Option ℕ → W × Option ℕ
  ensure_memory w name fd =
      let opened = os.shm_open w name false in
      let tried : W × Option ℕ = (opened.0, elim opened.1 [ ok d ↦ some d | failed e ↦ none ]) in
      elim fd [ none ↦ tried | some d ↦ if d == 0 then tried else (w, some d) ]

  abbrev pub is_positive : Option ℕ → Bool
  is_positive none = false
  is_positive (some d) = not (d == 0)

  -- The loop of `open`, with `attempts` left.
  unfoldable pub open_loop : ℕ → W → SharedMem → Option ℕ → W × SharedMem × Option ℕ
  unfolding ensure_semaphore ensure_memory
  open_loop zero w m fd = (w, m, fd)
  open_loop (suc attempts) w m fd =
      let produced = ensure_semaphore w m.data_produced_sem_name m.data_produced_semaphore in
      let consumed =
        ensure_semaphore produced.0 m.data_consumed_sem_name m.data_consumed_semaphore in
      let memory = ensure_memory consumed.0 m.shared_memory_name fd in
      let m' = record m {
        data_produced_semaphore = produced.1;
        data_consumed_semaphore = consumed.1;
      } in
      let again = open_loop attempts memory.0 m' memory.1 in
      if not (produced.1 == 0) && not (consumed.1 == 0) && is_positive memory.1
      then (memory.0, m', memory.1)
      else again

  unfoldable pub open_memory : ℕ → W → SharedMem → W × SharedMem × Bool
  unfolding open_loop
  open_memory attempts w m =
      if m.alive
      then (w, m, false)
      else (let opened = open_loop attempts w m (some 0) in
          let m' = opened.1 in
          if m'.data_produced_semaphore == 0 || m'.data_consumed_semaphore == 0
          then (opened.0, m', false)
          else elim opened.2 [
            | none ↦ (opened.0, m', false)
            | some fd ↦
                let mapped = os.mmap opened.0 m'.shared_message_size fd in
                if mapped.1 == 0
                then (mapped.0, record m' { shared_message = mapped.1 }, false)
                else (mapped.0, record m' { shared_message = mapped.1; alive = true }, true)
          ])

  -- The loops over `sem_timedwait`, with `attempts` left: whether a wait succeeded. Every failure of the
  -- wait is tried again; a failure of the clock ends the loop.
  unfoldable pub wait_loop : ℕ → W → ℕ → W × Bool
  wait_loop zero w semaphore = (w, false)
  wait_loop (suc attempts) w semaphore =
      let clock = os.clock_gettime w in
      elim clock.1 [
        | failed e ↦ (clock.0, false)
        | ok n ↦
            let waited = os.sem_timedwait clock.0 semaphore in
            let again = wait_loop attempts waited.0 semaphore in
            elim waited.1 [ ok m ↦ (waited.0, true) | failed e ↦ again ]
      ]

  -- The second result is the buffer `message` afterwards.
  unfoldable pub receive : ℕ → W → SharedMem → Bytes → W × SharedMem × Bytes × Bool
  unfolding wait_loop
  receive attempts w m message =
      if not m.alive
      then (w, m, message, false)
      else (let waited = wait_loop attempts w m.data_produced_semaphore in
          if not waited.1
          then (waited.0, record m { alive = false }, message, false)
          else (let posted = os.sem_post waited.0 m.data_consumed_semaphore in
              let copy = take m.shared_message_size (os.load waited.0 m.shared_message) in
              elim posted.1 [
                | failed e ↦ (posted.0, record m { alive = false }, copy, false)
                | ok n ↦ (posted.0, m, copy, true)
              ]))

  unfoldable pub send : ℕ → W → SharedMem → Bytes → W × SharedMem × Bool
  unfolding wait_loop
  send attempts w m message =
      if not m.alive
      then (w, m, false)
      else (let stored = os.store w m.shared_message (take m.shared_message_size message) in
          let posted = os.sem_post stored m.data_produced_semaphore in
          elim posted.1 [
            | failed e ↦ (posted.0, record m { alive = false }, false)
            | ok n ↦
                let waited = wait_loop attempts posted.0 m.data_consumed_semaphore in
                (waited.0, record m { alive = waited.1 }, waited.1)
          ])

  -- A part of `destroy`: whether the call succeeded, `true` where nothing was to be done.
  unfoldable pub unlink_if : (W → Bytes → W × Answer) → W → Bytes → Bool → W × Bool
  unlink_if unlink w name created =
      if created
      then (let done = unlink w name in
          elim done.1 [ ok n ↦ (done.0, n == 0) | failed e ↦ (done.0, false) ])
      else (w, true)

  unfoldable pub destroy : W → SharedMem → W × SharedMem × Bool
  unfolding unlink_if
  destroy w m =
      let memory = unlink_if os.shm_unlink w m.shared_memory_name m.shared_memory_created in
      let consumed =
        unlink_if os.sem_unlink memory.0 m.data_consumed_sem_name m.data_consumed_sem_created in
      let produced =
        unlink_if os.sem_unlink consumed.0 m.data_produced_sem_name m.data_produced_sem_created in
      (
        produced.0,
        record m {
          shared_memory_created = false;
          data_consumed_sem_created = false;
          data_produced_sem_created = false;
        },
        memory.1 && consumed.1 && produced.1,
      )
