-- ===== src/Contacts/Starting.antt =====
-- contacts/src/TTContactsHandler.cpp: the constructor up to its threads, over the shared memory
-- (utils/src/TTUtilsSharedMem.cpp), and the end of `main`.
pub mod Cleanup
mod Tests
use terminal_teams.Prelude.{Bool, Bytes, Option, if◌then◌else◌, none, not, some}
use terminal_teams.Contacts.Message.{Message, heartbeat}
use terminal_teams.Utils.Syscall.{Os}
use terminal_teams.Utils.SharedMem.{SharedMem, create, send, destroy}

-- The exceptions of the constructor.
pub data Failure : Type 0 where
  no_shared_memory no_connection : Failure

-- `encode` is the layout of a message in memory. A window answers by consuming the message.
module _ {W : Type 0} (os : Os W) (encode : Message → Bytes) where
  unfoldable pub establish : W → SharedMem → W × SharedMem × Bool
  unfolding send
  establish w m = send os 5 w m (encode heartbeat)

  -- An exception destroys the members that there are, and so the shared memory.
  unfoldable pub throw : W → SharedMem → Failure → W × SharedMem × Option Failure
  unfolding destroy
  throw w m failure = let gone = destroy os w m in (gone.0, gone.1, some failure)

  unfoldable pub construct : W → SharedMem → W × SharedMem × Option Failure
  unfolding create establish throw
  construct w m =
      let made = create os w m in
      let met = establish made.0 made.1 in
      if not made.2
      then throw made.0 made.1 no_shared_memory
      else if not met.2
      then throw met.0 met.1 no_connection
      else (met.0, met.1, none)
