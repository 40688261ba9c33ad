-- ===== src/Utils/SharedMem/Names.antt =====
-- The names of shared memory and semaphores that `create` makes and `destroy` removes
-- (utils/src/TTUtilsSharedMem.cpp).
pub mod Creating
pub mod Sending
use mathlib.Core.Path.{fun_ext}
use terminal_teams.Prelude.{
  Bool, Bool-cases, Bytes, ap, eq-of-same, false, inl, inr, not, refl, same, same_refl, sym, true,
  ℕ, ◌&&◌, ◌==◌, ◌||◌, ◌∙◌, ◌≡◌,
}
use terminal_teams.Utils.Syscall.{Os, Answer, ok, failed, Errno}
use terminal_teams.Utils.SharedMem.{SharedMem, unlink_if, destroy}

abbrev pub Names : Type 0
Names = Bytes → Bool

abbrev pub add : Bytes → Names → Names
add name s n = same n name || s n

abbrev pub remove : Bytes → Names → Names
remove name s n = not (same n name) && s n

-- What POSIX says of the names of shared memory and of semaphores: the former are made only where they are
-- not there, a name that is there can be unlinked, and the other calls leave the names alone.
pub record IsNaming {W : Type 0} (os : Os W) (shared semaphores : W → Names) : Type 0 where
  pub shm_opened :
      (w : W) (name : Bytes) (fd : ℕ)
      → (os.shm_open w name true).1 ≡ ok fd
      → (shared w name ≡ false) × (shared (os.shm_open w name true).0 ≡ add name (shared w))
  pub shm_not_opened :
      (w : W) (name : Bytes) (e : Errno)
      → (os.shm_open w name true).1 ≡ failed e
      → shared (os.shm_open w name true).0 ≡ shared w
  pub shm_open_keeps :
      (w : W) (name : Bytes) → semaphores (os.shm_open w name true).0 ≡ semaphores w
  pub sem_opened :
      (w : W) (name : Bytes)
      → ((os.sem_open w name true).1 == 0) ≡ false
      → semaphores (os.sem_open w name true).0 ≡ add name (semaphores w)
  pub sem_not_opened :
      (w : W) (name : Bytes)
      → ((os.sem_open w name true).1 == 0) ≡ true
      → semaphores (os.sem_open w name true).0 ≡ semaphores w
  pub sem_open_keeps : (w : W) (name : Bytes) → shared (os.sem_open w name true).0 ≡ shared w
  pub shm_unlinked :
      (w : W) (name : Bytes)
      → shared w name ≡ true
      → ((os.shm_unlink w name).1 ≡ ok 0)
        × (shared (os.shm_unlink w name).0 ≡ remove name (shared w))
  pub shm_unlink_keeps : (w : W) (name : Bytes) → semaphores (os.shm_unlink w name).0 ≡ semaphores w
  pub sem_unlinked :
      (w : W) (name : Bytes)
      → semaphores w name ≡ true
      → ((os.sem_unlink w name).1 ≡ ok 0)
        × (semaphores (os.sem_unlink w name).0 ≡ remove name (semaphores w))
  pub sem_unlink_keeps : (w : W) (name : Bytes) → shared (os.sem_unlink w name).0 ≡ shared w
  pub ftruncate_keeps :
      (w : W) (fd size : ℕ)
      → (shared (os.ftruncate w fd size).0 ≡ shared w)
        × (semaphores (os.ftruncate w fd size).0 ≡ semaphores w)
  pub mmap_keeps :
      (w : W) (size fd : ℕ)
      → (shared (os.mmap w size fd).0 ≡ shared w)
        × (semaphores (os.mmap w size fd).0 ≡ semaphores w)
  pub store_keeps :
      (w : W) (at : ℕ) (bytes : Bytes)
      → (shared (os.store w at bytes) ≡ shared w)
        × (semaphores (os.store w at bytes) ≡ semaphores w)
  pub sem_post_keeps :
      (w : W) (s : ℕ)
      → (shared (os.sem_post w s).0 ≡ shared w) × (semaphores (os.sem_post w s).0 ≡ semaphores w)
  pub clock_keeps :
      (w : W)
      → (shared (os.clock_gettime w).0 ≡ shared w)
        × (semaphores (os.clock_gettime w).0 ≡ semaphores w)
  pub sem_timedwait_keeps :
      (w : W) (s : ℕ)
      → (shared (os.sem_timedwait w s).0 ≡ shared w)
        × (semaphores (os.sem_timedwait w s).0 ≡ semaphores w)

pub opposite : (b : Bool) → b ≡ true → b ≡ false → ⊥
opposite b yes_it no_it = cc

-- With the name where it was made.
abbrev pub with_name : Bool → Bytes → Names → Names
with_name true name s = add name s
with_name false name s = s

add-itself : (name : Bytes) (s : Names) → add name s name ≡ true
add-itself name s = ap (λ (b : Bool). b || s name) (same_refl name)

remove-add : (name : Bytes) (s : Names) → s name ≡ false → remove name (add name s) ≡ s
remove-add name s fresh = fun_ext (λ n. elim (Bool-cases (same n name)) [
  | inl is_it ↦ rw is_it (sym (ap s (eq-of-same n name is_it) ∙ fresh))
  | inr other ↦ rw other refl
])

module _ {W : Type 0} (os : Os W) where
  settled :
      (done : W × Answer)
      → let r : W × Bool = elim done.1 [ ok n ↦ (done.0, n == 0) | failed e ↦ (done.0, false) ] in
        r.0 ≡ done.0
  settled (w, ok n) = refl
  settled (w, failed e) = refl

  -- A part of `destroy` takes back the name, where it was made.
  unlink_if-back :
      (unlink : W → Bytes → W × Answer) (names : W → Names) (w : W) (name : Bytes) (created : Bool)
      (before : Names)
      → ((w' : W)
          → names w' name ≡ true
          → ((unlink w' name).1 ≡ ok 0) × (names (unlink w' name).0 ≡ remove name (names w')))
      → (created ≡ true → before name ≡ false)
      → names w ≡ with_name created name before
      → names (unlink_if os unlink w name created).0 ≡ before
  unfolding unlink_if
  unlink_if-back unlink names w name true before law fresh e =
      let gone = law w (ap (λ (s : Names). s name) e ∙ add-itself name before) in
      ap names (settled (unlink w name))
      ∙ gone.1
      ∙ ap (remove name) e
      ∙ remove-add name before (fresh refl)
  unlink_if-back unlink names w name false before law fresh e = e

  unlink_if-keeps :
      (unlink : W → Bytes → W × Answer) (names : W → Names) (w : W) (name : Bytes) (created : Bool)
      → ((w' : W) → names (unlink w' name).0 ≡ names w')
      → names (unlink_if os unlink w name created).0 ≡ names w
  unfolding unlink_if
  unlink_if-keeps unlink names w name false keeps = refl
  unlink_if-keeps unlink names w name true keeps = ap names (settled (unlink w name)) ∙ keeps w

-- Neither semaphore of the channel is there, and they have different names.
abbrev pub AreNew : Names → SharedMem → Type 0
AreNew names m =
    (names m.data_produced_sem_name ≡ false)
    × (names m.data_consumed_sem_name ≡ false)
    × (same m.data_consumed_sem_name m.data_produced_sem_name ≡ false)

-- The names are those before, and the ones that the channel has made.
pub record Made {W : Type 0} (shared semaphores : W → Names)
    (before_shared before_semaphores : Names) (w : W) (m : SharedMem) : Type 0 where
  pub new : AreNew before_semaphores m
  pub fresh : m.shared_memory_created ≡ true → before_shared m.shared_memory_name ≡ false
  pub in_shared : shared w ≡ with_name m.shared_memory_created m.shared_memory_name before_shared
  pub in_semaphores :
      semaphores w
      ≡ with_name m.data_consumed_sem_created m.data_consumed_sem_name
          (with_name m.data_produced_sem_created m.data_produced_sem_name before_semaphores)

module _ {W : Type 0} (os : Os W) (shared semaphores : W → Names)
    (law : IsNaming os shared semaphores) (s0 z0 : Names) where
  with-fresh :
      (c p : Bytes) (created : Bool)
      → same c p ≡ false
      → z0 c ≡ false
      → with_name created p z0 c ≡ false
  with-fresh c p true differ fresh = rw differ fresh
  with-fresh c p false differ fresh = fresh

  -- `destroy` leaves the names as they were before the channel was made.
  pub destroy-back :
      (w : W) (m : SharedMem)
      → Made shared semaphores s0 z0 w m
      → (shared (destroy os w m).0 ≡ s0) × (semaphores (destroy os w m).0 ≡ z0)
  unfolding destroy
  destroy-back w m made =
      let new = made.new in
      let memory = unlink_if os os.shm_unlink w m.shared_memory_name m.shared_memory_created in
      let consumed =
        unlink_if os os.sem_unlink memory.0 m.data_consumed_sem_name m.data_consumed_sem_created in
      (
        unlink_if-keeps os os.sem_unlink shared consumed.0 m.data_produced_sem_name
              m.data_produced_sem_created (λ w'. law.sem_unlink_keeps w' m.data_produced_sem_name)
            ∙ unlink_if-keeps os os.sem_unlink shared memory.0 m.data_consumed_sem_name
                m.data_consumed_sem_created (λ w'. law.sem_unlink_keeps w' m.data_consumed_sem_name)
            ∙ unlink_if-back os os.shm_unlink shared w m.shared_memory_name m.shared_memory_created
                s0 (λ w'. law.shm_unlinked w' m.shared_memory_name) made.fresh made.in_shared,
        unlink_if-back os os.sem_unlink semaphores consumed.0 m.data_produced_sem_name
            m.data_produced_sem_created z0 (λ w'. law.sem_unlinked w' m.data_produced_sem_name)
            (λ yes_it. new.0)
            (unlink_if-back os os.sem_unlink semaphores memory.0 m.data_consumed_sem_name
              m.data_consumed_sem_created
              (with_name m.data_produced_sem_created m.data_produced_sem_name z0)
              (λ w'. law.sem_unlinked w' m.data_consumed_sem_name)
              (λ made.
                with-fresh m.data_consumed_sem_name m.data_produced_sem_name
                  m.data_produced_sem_created new.2 new.1)
              (unlink_if-keeps os os.shm_unlink semaphores w m.shared_memory_name
                  m.shared_memory_created (λ w'. law.shm_unlink_keeps w' m.shared_memory_name)
                ∙ made.in_semaphores)),
      )
