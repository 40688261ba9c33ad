-- ===== src/Engine/Wire.antt =====
-- A narrate call from the one engine to the other (engine/src/TTNeighborsStub.cpp, `sendNarrate`, and
-- engine/src/TTNeighborsServiceChat.cpp, `Narrate`).
mod Tests
use mathlib.Core.Option.{some-injective}
use terminal_teams.Prelude.{
  All, Bool, Bytes, List, Option, [], ap, append-nil, append_assoc, false, if◌then◌else◌, none, not,
  refl, some, sym, true, ℕ, ◌++◌, ◌∙◌, ◌∷◌, ◌≡◌,
}
use terminal_teams.Engine.Message.{TellRequest, NarrateRequest}
use terminal_teams.Engine.Node.{Node}
use terminal_teams.Engine.Chat.{handle_receive_narrate}
use terminal_teams.Engine.Services.{narrate, reply_with, chat_identity}
use terminal_teams.Engine.Narration.{IsFrom, told, narrate-told}
use terminal_teams.Engine.Stub.{Result, returned, raised, Rpc, write_all, finish_with, send_narrate}

-- The requests that the messages become.
abbrev pub requests : Bytes → List Bytes → List TellRequest
requests identity [] = []
requests identity (m ∷ ms) = record { identity = identity; message = m } ∷ requests identity ms

pub told-requests : (identity : Bytes) (ms : List Bytes) → told (requests identity ms) ≡ ms
told-requests identity [] = refl
told-requests identity (m ∷ ms) = ap (◌∷◌ m) (told-requests identity ms)

pub requests-IsFrom :
    (identity : Bytes) (ms : List Bytes) → All (IsFrom identity) (requests identity ms)
requests-IsFrom identity [] = tt
requests-IsFrom identity (m ∷ ms) = (refl, requests-IsFrom identity ms)

written-first :
    (o : Result Bool) (rest : Option (List TellRequest)) (stream : List TellRequest)
    → elim o [ returned done ↦ if done then rest else none | raised ↦ none ] ≡ some stream
    → rest ≡ some stream
written-first (returned true) rest stream e = e
written-first (returned false) rest stream e = absurd cc
written-first raised rest stream e = absurd cc

write_all-requests :
    (rpc : Rpc) (written : List TellRequest) (identity : Bytes) (ms : List Bytes)
    (stream : List TellRequest)
    → write_all rpc written identity ms ≡ some stream
    → stream ≡ written ++ requests identity ms
unfolding write_all
write_all-requests rpc written identity [] stream e =
    sym (some-injective written stream e) ∙ sym (append-nil written)
write_all-requests rpc written identity (m ∷ ms) stream e =
    let request : TellRequest = record { identity = identity; message = m } in
    write_all-requests rpc (written ++ request ∷ []) identity ms stream (
      written-first (rpc.write written request)
        (write_all rpc (written ++ request ∷ []) identity ms) stream e)
    ∙ append_assoc written (request ∷ []) (requests identity ms)

finished :
    (rpc : Rpc) (o : Option (List TellRequest))
    → finish_with rpc o ≡ true
    → (stream : List TellRequest) × (o ≡ some stream) × (rpc.finish stream ≡ returned true)
unfolding finish_with
finished rpc none e = absurd cc
finished rpc (some stream) e = (stream, refl, go (rpc.finish stream) e)
  where
    go :
        (o : Result Bool)
        → elim o [ returned status ↦ status | raised ↦ false ] ≡ true
        → o ≡ returned true
    go (returned status) h = ap returned h
    go raised h = absurd cc

opened :
    (rpc : Rpc) (request : NarrateRequest)
    → send_narrate rpc request ≡ true
    → finish_with rpc (write_all rpc [] request.identity request.messages) ≡ true
unfolding send_narrate
opened rpc request e = go rpc.narrate e
  where
    go :
        (o : Result Bool)
        → elim o [
          | raised ↦ false
          | returned writer ↦
              if not writer
              then false
              else finish_with rpc (write_all rpc [] request.identity request.messages)
        ]
          ≡ true
        → finish_with rpc (write_all rpc [] request.identity request.messages) ≡ true
    go raised h = absurd cc
    go (returned true) h = h
    go (returned false) h = absurd cc

-- Where `sendNarrate` succeeds with at least one message, it finished a stream which the narrate call of the
-- other engine, with a context and a reply, handles as the request that was sent.
pub send_narrate-narrate :
    (rpc : Rpc) (identity m : Bytes) (ms : List Bytes)
    → send_narrate rpc (record { identity = identity; messages = m ∷ ms }) ≡ true
    → (stream : List TellRequest) × (rpc.finish stream ≡ returned true)
      × ((hasher : Bytes → ℕ) (n : Node) (now : ℕ)
          → narrate hasher n true (some stream) true now
            ≡ reply_with chat_identity
                (handle_receive_narrate n (record { identity = identity; messages = m ∷ ms }) now))
send_narrate-narrate rpc identity m ms e =
    let done =
      finished rpc (write_all rpc [] identity (m ∷ ms))
        (opened rpc (record { identity = identity; messages = m ∷ ms }) e) in
    let stream = write_all-requests rpc [] identity (m ∷ ms) done.0 done.1 in
    (
      done.0,
      done.2,
      λ hasher n now.
          ap (λ (s : List TellRequest). narrate hasher n true (some s) true now) stream
          ∙ narrate-told hasher n (record { identity = identity; message = m })
              (requests identity ms) now (requests-IsFrom identity ms)
          ∙ ap
              (λ (ks : List Bytes).
                reply_with chat_identity (
                  handle_receive_narrate n (record { identity = identity; messages = m ∷ ks }) now))
              (told-requests identity ms),
    )
