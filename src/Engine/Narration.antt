-- ===== src/Engine/Narration.antt =====
-- The stream of a narrate call (engine/src/TTNeighborsServiceChat.cpp, `Narrate`).
use terminal_teams.Prelude.{
  All, Bytes, List, [], append-nil, append_assoc, arith, refl, some, true, ℕ, ◌++◌, ◌∙◌, ◌∷◌, ◌≡◌,
}
use terminal_teams.Engine.Message.{TellRequest}
use terminal_teams.Engine.Node.{Node}
use terminal_teams.Engine.Chat.{handle_receive_narrate}
use terminal_teams.Engine.Services.{
  gather, nothing_gathered, insert_unique, narrate, reply_with, chat_identity,
}

abbrev pub IsFrom : Bytes → TellRequest → Type 0
IsFrom identity r = r.identity ≡ identity

abbrev pub told : List TellRequest → List Bytes
told [] = []
told (r ∷ rs) = r.message ∷ told rs

insert_unique-again : (x : ℕ) → insert_unique x (x ∷ []) ≡ x ∷ []
unfolding insert_unique
insert_unique-again x = ground arith

-- A stream of one sender adds its messages in order, and no second identity.
gather-one :
    (hasher : Bytes → ℕ) (identity : Bytes) (messages : List Bytes) (rs : List TellRequest)
    → All (IsFrom identity) rs
    → gather hasher
        (record { identity = identity; messages = messages; unique_ids = hasher identity ∷ [] })
        rs
      ≡ record {
        identity = identity;
        messages = messages ++ told rs;
        unique_ids = hasher identity ∷ [];
      }
unfolding gather
gather-one hasher identity messages [] from = rw append-nil refl
gather-one hasher identity messages (r ∷ rs) from =
    rw (from.0, insert_unique-again (hasher identity), gather)
      (gather-one hasher identity (messages ++ r.message ∷ []) rs from.1
        ∙ rw (append_assoc messages (r.message ∷ []) (told rs)) refl)

-- A narrate call with a context and a reply, whose stream has messages of one sender only, is handled as
-- one request of that sender with the messages in the order of the stream.
pub narrate-told :
    (hasher : Bytes → ℕ) (n : Node) (r : TellRequest) (rs : List TellRequest) (now : ℕ)
    → All (IsFrom r.identity) rs
    → narrate hasher n true (some (r ∷ rs)) true now
      ≡ reply_with chat_identity (
          handle_receive_narrate n
            (record { identity = r.identity; messages = r.message ∷ told rs })
            now)
unfolding narrate gather nothing_gathered insert_unique
narrate-told hasher n r rs now from =
    rw (gather-one hasher r.identity (r.message ∷ []) rs from) refl
