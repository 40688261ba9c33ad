-- ===== src/Engine/Wire/Tests.antt =====
-- Instances of what is proved of the calls to a neighbor (engine/src/TTNeighborsStub.cpp).
use terminal_teams.Prelude.{Bytes, List, [], codes, length, refl, some, true, ℕ, ◌==◌, ◌∷◌, ◌≡◌}
use terminal_teams.Engine.Message.{TellRequest}
use terminal_teams.Engine.Node.{Node}
use terminal_teams.Engine.Chat.{handle_receive_narrate}
use terminal_teams.Engine.Services.{narrate, reply_with, chat_identity}
use terminal_teams.Engine.Stub.{returned, raised, Rpc, send_narrate}
use terminal_teams.Engine.Wire.{send_narrate-narrate}

-- A library that takes streams of two requests, and raises on the other calls.
abbrev rpc : Rpc
rpc = record {
  new_stub = λ address. returned address;
  tell = λ request. raised;
  narrate = returned true;
  write = λ written request. returned true;
  finish = λ written. returned (length written == 2);
  greet = λ request. raised;
  heartbeat = λ request. raised;
}

send_two :
    send_narrate rpc (record { identity = codes "id"; messages = codes "a" ∷ codes "b" ∷ [] })
    ≡ true
unfolding send_narrate
send_two = refl

send_narrate-narrate_example :
    (stream : List TellRequest) × (rpc.finish stream ≡ returned true)
    × ((hasher : Bytes → ℕ) (n : Node) (now : ℕ)
        → narrate hasher n true (some stream) true now
          ≡ reply_with chat_identity (
              handle_receive_narrate n
                (record { identity = codes "id"; messages = codes "a" ∷ codes "b" ∷ [] })
                now))
send_narrate-narrate_example =
    send_narrate-narrate rpc (codes "id") (codes "a") (codes "b" ∷ []) send_two
