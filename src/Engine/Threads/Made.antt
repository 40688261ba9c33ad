-- ===== src/Engine/Threads/Made.antt =====
-- What the constructor of TTEngine (engine/src/TTEngine.cpp) comes to.
use terminal_teams.Prelude.{
  Bool, Bytes, List, Option, [], arith, false, if◌then◌else◌, length, none, not, refl, some, true,
  ℕ, ◌&&◌, ◌<◌, ◌||◌, ◌≡◌,
}
use terminal_teams.Contacts.Message.{data_max_length}
use terminal_teams.Engine.Node.{Node}
use terminal_teams.Engine.Running.{Running}
use terminal_teams.Engine.Running.Reach.{start-Running}
use terminal_teams.Engine.Threads.{
  Factory, Failure, no_handlers, no_neighbors_stub, no_broadcasters, no_services, no_server,
  Construction, thrown, made, serve, construct,
}

-- A part that the exception names is missing.
abbrev pub IsMissing : Factory → Failure → Type 0
IsMissing f no_handlers = (f.contacts_handler && f.chat_handler && f.text_box_handler) ≡ false
IsMissing f no_neighbors_stub = f.neighbors_stub ≡ false
IsMissing f no_broadcasters = (f.broadcaster_chat && f.broadcaster_discovery) ≡ false
IsMissing f no_services = (f.service_chat && f.service_discovery) ≡ false
IsMissing f no_server = f.server ≡ false

-- No pointer is null.
pub record IsWhole (f : Factory) : Type 0 where
  pub contacts_handler : f.contacts_handler ≡ true
  pub chat_handler : f.chat_handler ≡ true
  pub text_box_handler : f.text_box_handler ≡ true
  pub neighbors_stub : f.neighbors_stub ≡ true
  pub broadcaster_chat : f.broadcaster_chat ≡ true
  pub broadcaster_discovery : f.broadcaster_discovery ≡ true
  pub service_chat : f.service_chat ≡ true
  pub service_discovery : f.service_discovery ≡ true
  pub server : f.server ≡ true

-- The exception is right; or nothing is missing, the engine runs and no thread has ended.
abbrev pub IsMade : Factory → Construction → Type 0
IsMade f (thrown failure) = IsMissing f failure
IsMade f (made e) =
    IsWhole f
    × Running [] e.node
    × (e.server_ended ≡ false)
    × (e.chat_ended ≡ false)
    × (e.discovery_ended ≡ false)

abbrev Comes : Factory → Option Construction → Type 0
Comes f o = (c : Construction) × (o ≡ some c) × IsMade f c

unless :
    (f : Factory) (missing : Bool) (failure : Failure) (rest : Option Construction)
    → (missing ≡ true → IsMissing f failure)
    → (missing ≡ false → Comes f rest)
    → Comes f (if missing then some (thrown failure) else rest)
unless f true failure rest because r = (thrown failure, refl, because refl)
unless f false failure rest because r = r refl

not_both : (a b : Bool) → (not a || not b) ≡ true → (a && b) ≡ false
not_both a b h = ground arith

not_all : (a b c : Bool) → (not a || not b || not c) ≡ true → (a && b && c) ≡ false
not_all a b c h = ground arith

not-true : (a : Bool) → not a ≡ true → a ≡ false
not-true a h = ground arith

both : (a b : Bool) → (not a || not b) ≡ false → (a ≡ true) × (b ≡ true)
both a b h = (ground arith, ground arith)

all_three :
    (a b c : Bool) → (not a || not b || not c) ≡ false → (a ≡ true) × (b ≡ true) × (c ≡ true)
all_three a b c h = (ground arith, ground arith, ground arith)

not-false : (a : Bool) → not a ≡ false → a ≡ true
not-false a h = ground arith

if-listens : (b : Bool) (o : Option Construction) → b ≡ true → (if not b then none else o) ≡ o
if-listens b o h = rw h refl

serve-Comes :
    (f : Factory) (n : Node)
    → f.listens ≡ true
    → ((f.service_chat ≡ true) × (f.service_discovery ≡ true) → f.server ≡ true → IsWhole f)
    → Running [] n
    → Comes f (serve f n)
unfolding serve
serve-Comes f n listening whole r =
    unless f (not f.service_chat || not f.service_discovery) no_services _
      (not_both f.service_chat f.service_discovery)
      (λ services. unless f (not f.server) no_server _ (not-true f.server) (λ listened. (
        made (record {
          node = n;
          server_ended = false;
          chat_ended = false;
          discovery_ended = false;
        }),
        if-listens f.listens _ listening,
        (
          whole (both f.service_chat f.service_discovery services) (not-false f.server listened),
          r,
          refl,
          refl,
          refl,
        ),
      )))

-- Where the nickname fits its buffer and the server, if it is made, listens, the constructor of the engine has
-- a result: an exception, and then a part that it names is missing; or an engine that runs, none of whose
-- threads has ended, and then no part is missing.
pub construct-IsMade :
    (f : Factory) (threshold now : ℕ) (nickname identity address : Bytes) (neighbors : List Bytes)
    → length nickname < data_max_length
    → f.listens ≡ true
    → (c : Construction) × (construct f threshold now nickname identity address neighbors ≡ some c)
      × IsMade f c
unfolding construct
construct-IsMade f threshold now nickname identity address neighbors short listening =
    let begun = start-Running threshold now nickname identity address neighbors short in
    unless f (not f.contacts_handler || not f.chat_handler || not f.text_box_handler) no_handlers _
      (not_all f.contacts_handler f.chat_handler f.text_box_handler)
      (λ handlers. rw begun.1 (
        unless f (not f.neighbors_stub) no_neighbors_stub _ (not-true f.neighbors_stub) (λ stub.
          unless f (not f.broadcaster_chat || not f.broadcaster_discovery) no_broadcasters _
            (not_both f.broadcaster_chat f.broadcaster_discovery)
            (λ broadcasters.
              let three = all_three f.contacts_handler f.chat_handler f.text_box_handler handlers in
              let two = both f.broadcaster_chat f.broadcaster_discovery broadcasters in
              serve-Comes f begun.0 listening
                (λ services server_made. record {
                  contacts_handler = three.0;
                  chat_handler = three.1;
                  text_box_handler = three.2;
                  neighbors_stub = not-false f.neighbors_stub stub;
                  broadcaster_chat = two.0;
                  broadcaster_discovery = two.1;
                  service_chat = services.0;
                  service_discovery = services.1;
                  server = server_made;
                })
                begun.2))))
