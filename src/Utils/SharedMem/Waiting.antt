-- ===== src/Utils/SharedMem/Waiting.antt =====
-- A wait for a semaphore (`receive` and `send` of utils/src/TTUtilsSharedMem.cpp) while other processes have
-- their turns.
use mathlib.Core.Path.{subst}
use terminal_teams.Prelude.{
  Bool, Bytes, arith, false, refl, same, suc, sym, true, zero, ℕ, ◌+◌, ◌∙◌, ◌≡◌,
}
use terminal_teams.Utils.Syscall.{Os, Answer, ok, failed, Errno}
use terminal_teams.Utils.SharedMem.{wait_loop}

-- The counts of the two semaphores and the contents of the mapped region; and the announcements that the
-- process at the other end has taken and not confirmed.
pub record Shared : Type 0 where
  pub produced : ℕ
  pub consumed : ℕ
  pub owed : ℕ
  pub contents : Bytes

abbrev pub add_produced : Shared → Shared
add_produced s = record s { produced = suc s.produced }

abbrev pub add_consumed : Shared → Shared
add_consumed s = record s { consumed = suc s.consumed }

abbrev pub write : Bytes → Shared → Shared
write message s = record s { contents = message }

-- The announcements that are neither confirmed nor taken back by the sender.
abbrev pub open_announcements : Shared → ℕ
open_announcements s = s.produced + s.owed + s.consumed

-- What POSIX says of the semaphores `p` and `c` and of the region at `a`: a post adds one, a post that fails
-- leaves all as it is, and the clock does not touch them.
pub record IsShared {W : Type 0} (os : Os W) (view : W → Shared) (p c a : ℕ) : Type 0 where
  pub clock_keeps : (w : W) → view (os.clock_gettime w).0 ≡ view w
  pub stored : (w : W) (m : Bytes) → view (os.store w a m) ≡ write m (view w)
  pub loaded : (w : W) → os.load w a ≡ (view w).contents
  pub produced_posted :
      (w : W) (n : ℕ)
      → (os.sem_post w p).1 ≡ ok n
      → view (os.sem_post w p).0 ≡ add_produced (view w)
  pub consumed_posted :
      (w : W) (n : ℕ)
      → (os.sem_post w c).1 ≡ ok n
      → view (os.sem_post w c).0 ≡ add_consumed (view w)
  pub not_posted :
      (w : W) (s : ℕ) (e : Errno)
      → (os.sem_post w s).1 ≡ failed e
      → view (os.sem_post w s).0 ≡ view w

-- A relation between what is seen before and after other processes have had their turns.
pub record IsRely (Rely : Shared → Shared → Type 0) : Type 0 where
  pub stays : (s : Shared) → Rely s s
  pub goes_on : (s s' s'' : Shared) → Rely s s' → Rely s' s'' → Rely s s''

-- Nobody else has a turn.
abbrev pub Alone : Shared → Shared → Type 0
Alone s s' = s ≡ s'

-- The receiver at the other end takes announcements and confirms those that it took, any number of times.
pub data Attended : Shared → Shared → Type 0 where
  still : {s : Shared} → Attended s s
  noticed :
      {s s' : Shared} (n : ℕ)
      → s.produced ≡ suc n
      → Attended (record s { produced = n; owed = suc s.owed }) s'
      → Attended s s'
  confirmed :
      {s s' : Shared} (n : ℕ)
      → s.owed ≡ suc n
      → Attended (record s { owed = n; consumed = suc s.consumed }) s'
      → Attended s s'

-- What POSIX says of a wait for the semaphore that `add` counts, in the course of which others have their
-- turns: it takes one, and a wait that fails takes none.
pub record IsWaited {W : Type 0} (os : Os W) (view : W → Shared) (Rely : Shared → Shared → Type 0)
    (add : Shared → Shared) (s : ℕ) : Type 0 where
  pub waited :
      (w : W) (n : ℕ)
      → (os.sem_timedwait w s).1 ≡ ok n
      → (v : Shared) × Rely (view w) v × (v ≡ add (view (os.sem_timedwait w s).0))
  pub not_waited :
      (w : W) (e : Errno)
      → (os.sem_timedwait w s).1 ≡ failed e
      → Rely (view w) (view (os.sem_timedwait w s).0)

pub Alone-IsRely : IsRely Alone
Alone-IsRely = record { stays = λ s. refl; goes_on = λ s s' s'' e e'. e ∙ e' }

Attended-trans : {s s' s'' : Shared} → Attended s s' → Attended s' s'' → Attended s s''
Attended-trans still t = t
Attended-trans (noticed n e rest) t = noticed n e (Attended-trans rest t)
Attended-trans (confirmed n e rest) t = confirmed n e (Attended-trans rest t)

pub Attended-IsRely : IsRely Attended
Attended-IsRely = record { stays = λ s. still; goes_on = λ s s' s'' t t'. Attended-trans t t' }

-- The receiver loses no announcement and makes none up, and leaves the region as it is.
pub Attended-open :
    {s s' : Shared}
    → Attended s s'
    → (open_announcements s' ≡ open_announcements s) × (s'.contents ≡ s.contents)
Attended-open still = (refl, refl)
Attended-open (noticed n e rest) =
    let later = Attended-open rest in (omega (arith, e, later.0), later.1)
Attended-open (confirmed n e rest) =
    let later = Attended-open rest in (omega (arith, e, later.0), later.1)

module _ {W : Type 0} (os : Os W) (view : W → Shared) (Rely : Shared → Shared → Type 0)
    (rely : IsRely Rely) where
  -- The semaphore that `add` counts was taken once where the result is `true`, otherwise not at all; and
  -- others had their turns.
  abbrev pub Waits : (Shared → Shared) → W → W × Bool → Type 0
  Waits add w (w', true) = (v : Shared) × Rely (view w) v × (v ≡ add (view w'))
  Waits add w (w', false) = Rely (view w) (view w')

  Waits-from :
      (add : Shared → Shared) (w w' : W) (r : W × Bool)
      → Rely (view w) (view w')
      → Waits add w' r
      → Waits add w r
  Waits-from add w w' (u, true) e h = (h.0, rely.goes_on (view w) (view w') h.0 e h.1, h.2)
  Waits-from add w w' (u, false) e h = rely.goes_on (view w) (view w') (view u) e h

  Waits-clock :
      (add : Shared → Shared) (w w' : W) (a : Answer) (rest : W × Bool)
      → Rely (view w) (view w')
      → Waits add w rest
      → Waits add w (elim a [ failed e ↦ (w', false) | ok n ↦ rest ])
  Waits-clock add w w' (failed e) rest same h = same
  Waits-clock add w w' (ok n) rest same h = h

  Waits-answer :
      (add : Shared → Shared) (w w' : W) (a : Answer) (again : W × Bool)
      → ((n : ℕ) → a ≡ ok n → Waits add w (w', true))
      → ((e : Errno) → a ≡ failed e → Waits add w again)
      → Waits add w (elim a [ ok n ↦ (w', true) | failed e ↦ again ])
  Waits-answer add w w' (ok n) again taken kept = taken n refl
  Waits-answer add w w' (failed e) again taken kept = kept e refl

  pub wait_loop-Waits :
      (add : Shared → Shared) (s attempts : ℕ) (w : W)
      → ((v : W) → view (os.clock_gettime v).0 ≡ view v)
      → IsWaited os view Rely add s
      → Waits add w (wait_loop os attempts w s)
  unfolding wait_loop
  wait_loop-Waits add s zero w clock_keeps law = rely.stays (view w)
  wait_loop-Waits add s (suc attempts) w clock_keeps law =
      let clock = os.clock_gettime w in
      let tried = os.sem_timedwait clock.0 s in
      let ticked : Rely (view w) (view clock.0) =
        subst (Rely (view w)) (sym (clock_keeps w)) (rely.stays (view w)) in
      Waits-clock add w clock.0 clock.1 _ ticked (
        Waits-from add w clock.0 _ ticked (
          Waits-answer add clock.0 tried.0 tried.1 (wait_loop os attempts tried.0 s)
            (λ n e. law.waited clock.0 n e)
            (λ e failure.
              Waits-from add clock.0 tried.0 (wait_loop os attempts tried.0 s)
                (law.not_waited clock.0 e failure)
                (wait_loop-Waits add s attempts tried.0 clock_keeps law))))
