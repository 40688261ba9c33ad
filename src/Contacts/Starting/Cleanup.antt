-- ===== src/Contacts/Starting/Cleanup.antt =====
-- What a contacts handler that cannot be made (contacts/src/TTContactsHandler.cpp) leaves behind in the system.
use terminal_teams.Prelude.{
  Bool, Bytes, List, Option, [], false, if◌then◌else◌, none, not, some, true, ℕ, ◌∷◌, ◌≡◌,
}
use terminal_teams.Contacts.Message.{Message, heartbeat}
use terminal_teams.Contacts.Starting.{
  Failure, no_shared_memory, no_connection, establish, throw, construct,
}
use terminal_teams.Utils.Syscall.{Os}
use terminal_teams.Utils.SharedMem.{SharedMem, create, send, destroy}
use terminal_teams.Utils.SharedMem.Names.{Names, IsNaming, Made, AreNew, destroy-back}
use terminal_teams.Utils.SharedMem.Names.Creating.{Untouched, create-Made}
use terminal_teams.Utils.SharedMem.Names.Sending.{send-Made}

-- Messages that are sent one after the other, whatever comes of each.
unfoldable pub send_all : {W : Type 0} → Os W → ℕ → W → SharedMem → List Bytes → W × SharedMem
send_all os attempts w m [] = (w, m)
send_all os attempts w m (b ∷ bs) =
    let sent = send os attempts w m b in send_all os attempts sent.0 sent.1 bs

module _ {W : Type 0} (os : Os W) (encode : Message → Bytes) (shared semaphores : W → Names)
    (law : IsNaming os shared semaphores) where
  -- The names of shared memory and of semaphores are the same.
  abbrev pub SameNames : W → W → Type 0
  SameNames w w' = (shared w' ≡ shared w) × (semaphores w' ≡ semaphores w)

  -- They are those before, at once where the constructor throws, otherwise once the channel is destroyed,
  -- whatever was sent until then.
  abbrev pub Clean : W → W × SharedMem × Option Failure → Type 0
  Clean w (w', m, none) =
      (attempts : ℕ) (messages : List Bytes)
      → SameNames w
          (destroy os (send_all os attempts w' m messages).0
            (send_all os attempts w' m messages).1).0
  Clean w (w', m, some failure) = SameNames w w'

  send_all-Made :
      (attempts : ℕ) (s0 z0 : Names) (w : W) (m : SharedMem) (messages : List Bytes)
      → Made shared semaphores s0 z0 w m
      → let after = send_all os attempts w m messages in
        Made shared semaphores s0 z0 after.0 after.1
  unfolding send_all
  send_all-Made attempts s0 z0 w m [] made = made
  send_all-Made attempts s0 z0 w m (b ∷ bs) made =
      let sent = send os attempts w m b in
      send_all-Made attempts s0 z0 sent.0 sent.1 bs
        (send-Made os shared semaphores law s0 z0 attempts w m b made)

  throw-Clean :
      (w w' : W) (m : SharedMem) (failure : Failure)
      → Made shared semaphores (shared w) (semaphores w) w' m
      → Clean w (throw os encode w' m failure)
  unfolding throw
  throw-Clean w w' m failure made =
      destroy-back os shared semaphores law (shared w) (semaphores w) w' m made

  established-Clean :
      (w : W) (met : W × SharedMem × Bool)
      → Made shared semaphores (shared w) (semaphores w) met.0 met.1
      → Clean w
          (if not met.2 then throw os encode met.0 met.1 no_connection else (met.0, met.1, none))
  established-Clean w (w', m, true) made = λ attempts messages.
      let after = send_all os attempts w' m messages in
      destroy-back os shared semaphores law (shared w) (semaphores w) after.0 after.1
        (send_all-Made attempts (shared w) (semaphores w) w' m messages made)
  established-Clean w (w', m, false) made = throw-Clean w w' m no_connection made

  created-Clean :
      (w : W) (made : W × SharedMem × Bool)
      → Made shared semaphores (shared w) (semaphores w) made.0 made.1
      → let met = establish os encode made.0 made.1 in
        Clean w (
          if not made.2
          then throw os encode made.0 made.1 no_shared_memory
          else if not met.2
          then throw os encode met.0 met.1 no_connection
          else (met.0, met.1, none))
  unfolding establish
  created-Clean w (w', m, false) made = throw-Clean w w' m no_shared_memory made
  created-Clean w (w', m, true) made =
      established-Clean w (send os 5 w' m (encode heartbeat)) (
        send-Made os shared semaphores law (shared w) (semaphores w) 5 w' m (encode heartbeat) made)

  -- Over a system that keeps its names as POSIX says, a contacts handler is made with a channel that has made
  -- nothing yet, and with two different semaphores that are not there. Whichever call fails: where the
  -- constructor throws, there are the same names as before, and otherwise there are once the channel is
  -- destroyed, whatever was sent until then.
  pub construct-Clean :
      (w : W) (m : SharedMem)
      → Untouched m
      → AreNew (semaphores w) m
      → Clean w (construct os encode w m)
  unfolding construct
  construct-Clean w m untouched new =
      created-Clean w (create os w m) (create-Made os shared semaphores law w m untouched new)
