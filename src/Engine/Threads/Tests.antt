-- ===== src/Engine/Threads/Tests.antt =====
-- Engines that are made, one without a server, and an engine that ends.
use terminal_teams.Prelude.{
  List, [], arith, codes, false, inl, inr, refl, some, true, ◌++◌, ◌∷◌, ◌≡◌,
}
use terminal_teams.Engine.Tests.{home}
use terminal_teams.Engine.Threads.{
  Factory, no_server, Engine, Construction, thrown, construct, serve, server, chat, discovery,
  Action, thread, checks, interrupted, act_all, waits_over,
}
use terminal_teams.Engine.Threads.Made.{IsMade, construct-IsMade}
use terminal_teams.Engine.Threads.Ending.{IsStopped, act_all-waits_over}

abbrev whole : Factory
whole = record {
  contacts_handler = true;
  chat_handler = true;
  text_box_handler = true;
  neighbors_stub = true;
  broadcaster_chat = true;
  broadcaster_discovery = true;
  service_chat = true;
  service_discovery = true;
  server = true;
  listens = true;
}

construct-IsMade_example :
    (c : Construction) × (construct whole 10 5 (codes "me") (codes "id-m") (codes "h:1") []
      ≡ some c)
    × IsMade whole c
construct-IsMade_example =
    construct-IsMade whole 10 5 (codes "me") (codes "id-m") (codes "h:1") [] (omega arith) refl

serve_fails : serve (record whole { server = false }) home ≡ some (thrown no_server)
unfolding serve
serve_fails = refl

-- The chat broadcaster has stopped.
abbrev failing : Engine
failing = record {
  node = record home { chat_stopped = true };
  server_ended = false;
  chat_ended = false;
  discovery_ended = false;
}

abbrev before_check : List Action
before_check = thread server ∷ thread chat ∷ []

abbrev after_check : List Action
after_check = thread discovery ∷ interrupted ∷ thread chat ∷ thread server ∷ []

act_all-waits_over_example :
    let e' = act_all (before_check ++ checks ∷ after_check) failing in
    (waits_over e' ≡ true) × IsStopped e'.node
act_all-waits_over_example =
    act_all-waits_over before_check after_check failing (inr (inr (inr (inr (inr (inl refl))))))
      (inr (inr (inr (inl refl)))) (inr (inr (inl refl))) (inl refl)
