-- ===== src/Engine/Stub.antt =====
-- engine/src/TTNeighborsStub.cpp: the calls to a neighbor. What the remote procedure library does with a
-- call is the parameter `Rpc`; each function catches every exception.
use terminal_teams.Prelude.{
  Bool, Bytes, List, Option, [], false, if◌then◌else◌, none, not, some, true, ◌++◌, ◌∷◌,
}
use terminal_teams.Engine.Message.{
  TellRequest, NarrateRequest, GreetRequest, GreetResponse, HeartbeatRequest, HeartbeatResponse,
}

pub data Result (A : Type 0) : Type 0 where
  returned : A → Result A
  raised : Result A

-- The texts of a `GreetReply`.
pub record GreetReply : Type 0 where
  pub nickname : Bytes
  pub identity : Bytes
  pub ip_address_and_port : Bytes

-- One stub and its calls. A status is `true` where it is `ok`, and a reply is `none` where it is not; a
-- write, and the end of the stream, may depend on the requests that were written before.
pub record Rpc : Type 0 where
  pub new_stub : Bytes → Result Bytes
  pub tell : TellRequest → Result Bool
  pub narrate : Result Bool
  pub write : List TellRequest → TellRequest → Result Bool
  pub finish : List TellRequest → Result Bool
  pub greet : GreetRequest → Result (Option GreetReply)
  pub heartbeat : HeartbeatRequest → Result (Option Bytes)

-- `createChatStub` and `createDiscoveryStub`.
unfoldable pub make_stub : Rpc → Bytes → Option Bytes
make_stub rpc address = elim (rpc.new_stub address) [ returned stub ↦ some stub | raised ↦ none ]

unfoldable pub send_tell : Rpc → TellRequest → Bool
send_tell rpc request = elim (rpc.tell request) [ returned status ↦ status | raised ↦ false ]

-- The loop over the messages, with those written so far; `none` where a write fails. A narrate request on
-- the wire has the members of a tell request.
unfoldable pub write_all : Rpc → List TellRequest → Bytes → List Bytes → Option (List TellRequest)
write_all rpc written identity [] = some written
write_all rpc written identity (m ∷ ms) =
    let request : TellRequest = record { identity = identity; message = m } in
    let rest = write_all rpc (written ++ request ∷ []) identity ms in
    elim (rpc.write written request) [ returned done ↦ if done then rest else none | raised ↦ none ]

unfoldable pub finish_with : Rpc → Option (List TellRequest) → Bool
finish_with rpc none = false
finish_with rpc (some written) = elim (rpc.finish written) [
  | returned status ↦ status
  | raised ↦ false
]

unfoldable pub send_narrate : Rpc → NarrateRequest → Bool
unfolding write_all finish_with
send_narrate rpc request = elim rpc.narrate [
  | raised ↦ false
  | returned writer ↦
      if not writer
      then false
      else finish_with rpc (write_all rpc [] request.identity request.messages)
]

abbrev no_greet : GreetResponse
no_greet = record { status = false; nickname = []; identity = []; ip_address_and_port = [] }

unfoldable pub send_greet : Rpc → GreetRequest → GreetResponse
send_greet rpc request = elim (rpc.greet request) [
  | raised ↦ no_greet
  | returned reply ↦ elim reply [
    | none ↦ no_greet
    | some r ↦ record {
      status = true;
      nickname = r.nickname;
      identity = r.identity;
      ip_address_and_port = r.ip_address_and_port;
    }
  ]
]

unfoldable pub send_heartbeat : Rpc → HeartbeatRequest → HeartbeatResponse
send_heartbeat rpc request = elim (rpc.heartbeat request) [
  | raised ↦ record { status = false; identity = [] }
  | returned reply ↦ elim reply [
    | none ↦ record { status = false; identity = [] }
    | some identity ↦ record { status = true; identity = identity }
  ]
]
