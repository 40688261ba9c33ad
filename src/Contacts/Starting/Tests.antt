-- ===== src/Contacts/Starting/Tests.antt =====
-- A contacts handler that no window answers.
use terminal_teams.Prelude.{Bool, Bytes, [], codes, false, refl, same, some, true, ℕ, ◌≡◌}
use terminal_teams.Contacts.Message.{Message}
use terminal_teams.Contacts.Starting.{construct, no_connection}
use terminal_teams.Contacts.Starting.Cleanup.{Clean, construct-Clean}
use terminal_teams.Utils.Syscall.{Os, Answer, ok, failed, not_got, eintr, etimedout}
use terminal_teams.Utils.SharedMem.{SharedMem, init}
use terminal_teams.Utils.SharedMem.Names.{Names, IsNaming, add, remove}

-- A system that keeps the names and nothing else; no wait for a semaphore succeeds.
record World : Type 0 where
  shared : Names
  semaphores : Names

abbrev make_shared : World → Bytes → Bool → World × Answer
make_shared w name true = (w, failed eintr)
make_shared w name false = (record w { shared = add name w.shared }, ok 4)

abbrev unlink_shared : World → Bytes → Bool → World × Answer
unlink_shared w name true = (record w { shared = remove name w.shared }, ok 0)
unlink_shared w name false = (w, failed eintr)

abbrev unlink_semaphore : World → Bytes → Bool → World × Answer
unlink_semaphore w name true = (record w { semaphores = remove name w.semaphores }, ok 0)
unlink_semaphore w name false = (w, failed eintr)

abbrev os : Os World
os = record {
  mq_open = λ w name new. (w, ok 3);
  mq_unlink = λ w name. (w, ok 0);
  mq_timedsend = λ w d m. (w, ok 0);
  mq_timedreceive = λ w d. (w, not_got eintr);
  clock_gettime = λ w. (w, ok 0);
  shm_open = λ w name new. make_shared w name (w.shared name);
  shm_unlink = λ w name. unlink_shared w name (w.shared name);
  ftruncate = λ w d size. (w, ok 0);
  mmap = λ w size d. (w, 7);
  sem_open = λ w name new. (record w { semaphores = add name w.semaphores }, 1);
  sem_post = λ w s. (w, ok 0);
  sem_timedwait = λ w s. (w, failed etimedout);
  sem_unlink = λ w name. unlink_semaphore w name (w.semaphores name);
  store = λ w a m. w;
  load = λ w a. [];
  mkfifo = λ w path. (w, ok 0);
  open_file = λ w path writing. (w, ok 5);
  close = λ w d. (w, ok 0);
  unlink = λ w path. (w, ok 0);
  read = λ w d size. (w, not_got eintr);
  write = λ w d m. (w, ok 0);
}

make_shared-opened :
    (w : World) (name : Bytes) (fd : ℕ) (b : Bool)
    → w.shared name ≡ b
    → (make_shared w name b).1 ≡ ok fd
    → (w.shared name ≡ false) × ((make_shared w name b).0.shared ≡ add name w.shared)
make_shared-opened w name fd true e h = absurd cc
make_shared-opened w name fd false e h = (e, refl)

make_shared-not_opened :
    (w : World) (name : Bytes) (e : _) (b : Bool)
    → (make_shared w name b).1 ≡ failed e
    → (make_shared w name b).0.shared ≡ w.shared
make_shared-not_opened w name e true h = refl
make_shared-not_opened w name e false h = absurd cc

make_shared-keeps :
    (w : World) (name : Bytes) (b : Bool) → (make_shared w name b).0.semaphores ≡ w.semaphores
make_shared-keeps w name true = refl
make_shared-keeps w name false = refl

unlink_shared-keeps :
    (w : World) (name : Bytes) (b : Bool) → (unlink_shared w name b).0.semaphores ≡ w.semaphores
unlink_shared-keeps w name true = refl
unlink_shared-keeps w name false = refl

unlink_semaphore-keeps :
    (w : World) (name : Bytes) (b : Bool) → (unlink_semaphore w name b).0.shared ≡ w.shared
unlink_semaphore-keeps w name true = refl
unlink_semaphore-keeps w name false = refl

naming : IsNaming os (λ w. w.shared) (λ w. w.semaphores)
naming = record {
  shm_opened = λ w name fd e. make_shared-opened w name fd (w.shared name) refl e;
  shm_not_opened = λ w name e h. make_shared-not_opened w name e (w.shared name) h;
  shm_open_keeps = λ w name. make_shared-keeps w name (w.shared name);
  sem_opened = λ w name e. refl;
  sem_not_opened = λ w name e. absurd cc;
  sem_open_keeps = λ w name. refl;
  shm_unlinked = λ w name e. rw e (refl, refl);
  shm_unlink_keeps = λ w name. unlink_shared-keeps w name (w.shared name);
  sem_unlinked = λ w name e. rw e (refl, refl);
  sem_unlink_keeps = λ w name. unlink_semaphore-keeps w name (w.semaphores name);
  ftruncate_keeps = λ w fd size. (refl, refl);
  mmap_keeps = λ w size fd. (refl, refl);
  store_keeps = λ w at bytes. (refl, refl);
  sem_post_keeps = λ w s. (refl, refl);
  clock_keeps = λ w. (refl, refl);
  sem_timedwait_keeps = λ w s. (refl, refl);
}

abbrev empty : World
empty = record { shared = λ n. false; semaphores = λ n. false }

abbrev channel : SharedMem
channel = init (codes "/m") (codes "/m-c") (codes "/m-p") 272

abbrev encode : Message → Bytes
encode m = []

construct-Clean_example :
    Clean os encode
      (λ w. w.shared)
      (λ w. w.semaphores)
      naming
      empty
      (construct os encode empty channel)
unfolding init same
construct-Clean_example =
    construct-Clean os encode (λ w. w.shared) (λ w. w.semaphores) naming empty channel
      (refl, refl, refl, refl) (refl, refl, refl)

-- No window connects.
construct_fails : (construct os encode empty channel).2 ≡ some no_connection
unfolding construct init
construct_fails = refl
