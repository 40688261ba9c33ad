-- ===== src/Utils/Syscall.antt =====
-- The operating system as utils/src/TTUtilsSyscall.hpp reaches it: every call may read and change the
-- world `W`. A failed call gives `errno`; the values that the callers look at have names.
use terminal_teams.Prelude.{Bool, Bytes, ℕ}

pub data Errno : Type 0 where
  eintr eagain etimedout : Errno
  other : ℕ → Errno

-- A call that gives a number (a descriptor, a count, or 0), or -1.
pub data Answer : Type 0 where
  ok : ℕ → Answer
  failed : Errno → Answer

-- A call that fills a buffer.
pub data Filled : Type 0 where
  got : Bytes → Filled
  not_got : Errno → Filled

-- Semaphores, mapped regions and descriptors are numbers; 0 is the null pointer, which is also
-- `SEM_FAILED`. `store` and `load` are `memcpy` to and from a mapped region. The time limits of the
-- waiting calls, the permissions and sizes of what is made, and the size of the buffer that takes a
-- message from a queue are not looked at.
pub record Os (W : Type 0) : Type 0 where
  pub mq_open : W → Bytes → Bool → W × Answer
  pub mq_unlink : W → Bytes → W × Answer
  pub mq_timedsend : W → ℕ → Bytes → W × Answer
  pub mq_timedreceive : W → ℕ → W × Filled
  pub clock_gettime : W → W × Answer
  pub shm_open : W → Bytes → Bool → W × Answer
  pub shm_unlink : W → Bytes → W × Answer
  pub ftruncate : W → ℕ → ℕ → W × Answer
  pub mmap : W → ℕ → ℕ → W × ℕ
  pub sem_open : W → Bytes → Bool → W × ℕ
  pub sem_post : W → ℕ → W × Answer
  pub sem_timedwait : W → ℕ → W × Answer
  pub sem_unlink : W → Bytes → W × Answer
  pub store : W → ℕ → Bytes → W
  pub load : W → ℕ → Bytes
  pub mkfifo : W → Bytes → W × Answer
  pub open_file : W → Bytes → Bool → W × Answer
  pub close : W → ℕ → W × Answer
  pub unlink : W → Bytes → W × Answer
  pub read : W → ℕ → ℕ → W × Filled
  pub write : W → ℕ → Bytes → W × Answer
