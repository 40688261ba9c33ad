-- ===== src/Utils/SharedMem/Names/Creating.antt =====
-- The names that `create` makes (utils/src/TTUtilsSharedMem.cpp), whatever it comes to.
use terminal_teams.Prelude.{
  Bool, Bool-cases, ap, false, inl, inr, refl, sym, true, ℕ, ◌==◌, ◌∙◌, ◌≡◌,
}
use terminal_teams.Utils.Syscall.{Os, Answer, ok, failed}
use terminal_teams.Utils.SharedMem.{
  SharedMem, create, create_mapping, create_produced, create_consumed,
}
use terminal_teams.Utils.SharedMem.Names.{Names, IsNaming, Made, AreNew, add, with_name, opposite}

module _ {W : Type 0} (os : Os W) (shared semaphores : W → Names)
    (law : IsNaming os shared semaphores) (s0 z0 : Names) where
  -- The result of one of the steps of `create`.
  abbrev MadeBy : W × SharedMem × Bool → Type 0
  MadeBy r = Made shared semaphores s0 z0 r.0 r.1

  create_consumed-Made :
      (w : W) (m : SharedMem)
      → m.data_consumed_sem_created ≡ false
      → Made shared semaphores s0 z0 w m
      → MadeBy (create_consumed os w m)
  unfolding create_consumed
  create_consumed-Made w m not_yet made =
      let name = m.data_consumed_sem_name in
      let opened = os.sem_open w name true in
      elim (Bool-cases (opened.1 == 0)) [
        | inl missing ↦ rw missing (record {
          new = made.new;
          fresh = made.fresh;
          in_shared = law.sem_open_keeps w name ∙ made.in_shared;
          in_semaphores = law.sem_not_opened w name missing ∙ made.in_semaphores;
        })
        | inr there ↦ rw there (record {
          new = made.new;
          fresh = made.fresh;
          in_shared = law.sem_open_keeps w name ∙ made.in_shared;
          in_semaphores =
              law.sem_opened w name there
              ∙ ap (add name) (
                  made.in_semaphores
                  ∙ ap
                      (λ (b : Bool).
                        with_name b name
                          (with_name m.data_produced_sem_created m.data_produced_sem_name z0))
                      not_yet);
        })
      ]

  -- Neither semaphore has been made by the channel yet.
  abbrev NoneMade : SharedMem → Type 0
  NoneMade m = (m.data_consumed_sem_created ≡ false) × (m.data_produced_sem_created ≡ false)

  none-with :
      (m : SharedMem)
      → NoneMade m
      → z0
        ≡ with_name m.data_consumed_sem_created m.data_consumed_sem_name
            (with_name m.data_produced_sem_created m.data_produced_sem_name z0)
  none-with m none_made = sym (
      ap
        (λ (b : Bool).
          with_name b m.data_consumed_sem_name
            (with_name m.data_produced_sem_created m.data_produced_sem_name z0))
        none_made.0
      ∙ ap (λ (b : Bool). with_name b m.data_produced_sem_name z0) none_made.1)

  create_produced-Made :
      (w : W) (m : SharedMem)
      → NoneMade m
      → Made shared semaphores s0 z0 w m
      → MadeBy (create_produced os w m)
  unfolding create_produced
  create_produced-Made w m none_made made =
      let name = m.data_produced_sem_name in
      let opened = os.sem_open w name true in
      elim (Bool-cases (opened.1 == 0)) [
        | inl missing ↦ rw missing (record {
          new = made.new;
          fresh = made.fresh;
          in_shared = law.sem_open_keeps w name ∙ made.in_shared;
          in_semaphores = law.sem_not_opened w name missing ∙ made.in_semaphores;
        })
        | inr there ↦ rw there (
            create_consumed-Made opened.0
              (record m { data_produced_semaphore = opened.1; data_produced_sem_created = true })
              none_made.0
              (record {
                new = made.new;
                fresh = made.fresh;
                in_shared = law.sem_open_keeps w name ∙ made.in_shared;
                in_semaphores =
                    law.sem_opened w name there
                    ∙ ap (add name) (made.in_semaphores ∙ sym (none-with m none_made))
                    ∙ ap (λ (b : Bool). with_name b m.data_consumed_sem_name (add name z0))
                        (sym none_made.0);
              }))
      ]

  create_mapping-Made :
      (w : W) (m : SharedMem) (fd : ℕ)
      → NoneMade m
      → Made shared semaphores s0 z0 w m
      → MadeBy (create_mapping os w m fd)
  unfolding create_mapping
  create_mapping-Made w m fd none_made made =
      let mapped = os.mmap w m.shared_message_size fd in
      let keeps = law.mmap_keeps w m.shared_message_size fd in
      let after : Made shared semaphores s0 z0 mapped.0 (record m { shared_message = mapped.1 }) =
        record {
          new = made.new;
          fresh = made.fresh;
          in_shared = keeps.0 ∙ made.in_shared;
          in_semaphores = keeps.1 ∙ made.in_semaphores;
        } in
      elim (Bool-cases (mapped.1 == 0)) [
        | inl null ↦ rw null after
        | inr there ↦
            rw there (
              create_produced-Made mapped.0 (record m { shared_message = mapped.1 }) none_made
                after)
      ]

  truncated-Made :
      (w : W) (m : SharedMem) (fd : ℕ) (cut : W × Answer)
      → NoneMade m
      → Made shared semaphores s0 z0 cut.0 m
      → let r : W × SharedMem × Bool = elim cut.1 [
        | failed e ↦ (cut.0, m, false)
        | ok n ↦ create_mapping os cut.0 m fd
      ] in
        MadeBy r
  truncated-Made w m fd (w', failed e) none_made made = made
  truncated-Made w m fd (w', ok n) none_made made = create_mapping-Made w' m fd none_made made

-- A channel that has made nothing yet, over the names that there are.
abbrev pub Untouched : SharedMem → Type 0
Untouched m =
    (m.alive ≡ false)
    × (m.shared_memory_created ≡ false)
    × (m.data_consumed_sem_created ≡ false)
    × (m.data_produced_sem_created ≡ false)

module _ {W : Type 0} (os : Os W) (shared semaphores : W → Names)
    (law : IsNaming os shared semaphores) where
  opened-Made :
      (w : W) (m : SharedMem) (opened : W × Answer)
      → Untouched m
      → AreNew (semaphores w) m
      → os.shm_open w m.shared_memory_name true ≡ opened
      → let m' : SharedMem = record m { shared_memory_created = true } in
        let r : W × SharedMem × Bool = elim opened.1 [
          | failed e ↦ (opened.0, m, false)
          | ok fd ↦
              let cut = os.ftruncate opened.0 fd m.shared_message_size in
              elim cut.1 [ failed e ↦ (cut.0, m', false) | ok n ↦ create_mapping os cut.0 m' fd ]
        ] in
        Made shared semaphores (shared w) (semaphores w) r.0 r.1
  opened-Made w m (w', failed e) untouched new at =
      let name = m.shared_memory_name in
      record {
        new = new;
        fresh = λ created. absurd (opposite m.shared_memory_created created untouched.1);
        in_shared =
            ap (λ (o : W × Answer). shared o.0) (sym at)
            ∙ law.shm_not_opened w name e (ap (λ (o : W × Answer). o.1) at)
            ∙ ap (λ (b : Bool). with_name b name (shared w)) (sym untouched.1);
        in_semaphores =
            ap (λ (o : W × Answer). semaphores o.0) (sym at)
            ∙ law.shm_open_keeps w name
            ∙ none-with os shared semaphores law (shared w) (semaphores w) m
                (untouched.2, untouched.3);
      }
  opened-Made w m (w', ok fd) untouched new at =
      let name = m.shared_memory_name in
      let opened = law.shm_opened w name fd (ap (λ (o : W × Answer). o.1) at) in
      let cut = law.ftruncate_keeps w' fd m.shared_message_size in
      truncated-Made os shared semaphores law (shared w) (semaphores w) w'
        (record m { shared_memory_created = true }) fd (os.ftruncate w' fd m.shared_message_size)
        (untouched.2, untouched.3)
        (record {
          new = new;
          fresh = λ created. opened.0;
          in_shared = cut.0 ∙ ap (λ (o : W × Answer). shared o.0) (sym at) ∙ opened.1;
          in_semaphores =
              cut.1
              ∙ ap (λ (o : W × Answer). semaphores o.0) (sym at)
              ∙ law.shm_open_keeps w name
              ∙ none-with os shared semaphores law (shared w) (semaphores w) m
                  (untouched.2, untouched.3);
        })

  -- Whatever `create` comes to, it marks the names that it has made.
  pub create-Made :
      (w : W) (m : SharedMem)
      → Untouched m
      → AreNew (semaphores w) m
      → Made shared semaphores (shared w) (semaphores w) (create os w m).0 (create os w m).1
  unfolding create
  create-Made w m untouched new =
      rw untouched.0 (opened-Made w m (os.shm_open w m.shared_memory_name true) untouched new refl)
