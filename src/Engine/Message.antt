-- ===== src/Engine/Message.antt =====
-- engine/src/TTNeighborsMessage.hpp, and the calls of engine/src/TTNeighborsStub.cpp, whose results
-- the network decides.
use terminal_teams.Prelude.{Bool, Bytes, List, Option, if◌then◌else◌, none, some, ℕ}

pub record TellRequest : Type 0 where
  pub identity : Bytes
  pub message : Bytes

pub record NarrateRequest : Type 0 where
  pub identity : Bytes
  pub messages : List Bytes

pub record GreetRequest : Type 0 where
  pub nickname : Bytes
  pub identity : Bytes
  pub ip_address_and_port : Bytes

pub record GreetResponse : Type 0 where
  pub status : Bool
  pub nickname : Bytes
  pub identity : Bytes
  pub ip_address_and_port : Bytes

pub record HeartbeatRequest : Type 0 where
  pub identity : Bytes

pub record HeartbeatResponse : Type 0 where
  pub status : Bool
  pub identity : Bytes

-- The remote side, as the stubs see it: whether a stub for an address can be made, and what a call
-- through it gives. A stub is known by its address, and a call also by the contact (or the place in
-- the list of static neighbors) that it is made for.
pub record Network : Type 0 where
  pub connects : Bytes → Bool
  pub tells : ℕ → Bytes → TellRequest → Bool
  pub narrates : ℕ → Bytes → NarrateRequest → Bool
  pub greets : ℕ → Bytes → GreetRequest → GreetResponse
  pub heartbeats : ℕ → Bytes → HeartbeatRequest → HeartbeatResponse

-- `createChatStub` and `createDiscoveryStub`.
unfoldable pub create_stub : Network → Bytes → Option Bytes
create_stub net address = if net.connects address then some address else none
