-- ===== src/Engine/Threads/Ending.antt =====
-- How an engine ends (engine/src/TTEngine.cpp, `run`, `server`, `chat`, `discovery` and the destructor).
use mathlib.Core.Path.{subst}
use terminal_teams.Prelude.{
  Bool, List, [], arith, false, if◌then◌else◌, inl, inr, refl, sym, true, ◌++◌, ◌∷◌, ◌≡◌, ◌⊎◌,
}
use terminal_teams.Contacts.Handler
use terminal_teams.Chat.Handler as ChatHandler
use terminal_teams.Engine.Node.{Node}
use terminal_teams.Engine.Control.{stop_all, any_stopped, run_round}
use terminal_teams.Engine.Threads.{
  Engine, Thread, server, chat, discovery, Action, thread, checks, interrupted, act, act_all,
  returns, is_over, keep_promise, waits_over,
}

-- Every part of the engine has stopped.
pub record IsStopped (n : Node) : Type 0 where
  pub engine : n.engine_stopped ≡ true
  pub server : n.server_stopped ≡ true
  pub contacts : n.contacts.stopped ≡ true
  pub chat : n.chat.stopped ≡ true
  pub text_box : n.text_box_stopped ≡ true
  pub broadcaster_chat : n.chat_stopped ≡ true
  pub broadcaster_discovery : n.discovery_stopped ≡ true

stop_all-IsStopped : (n : Node) → IsStopped (stop_all n)
unfolding stop_all Handler.stop ChatHandler.stop
stop_all-IsStopped n = record {
  engine = refl;
  server = refl;
  contacts = refl;
  chat = refl;
  text_box = refl;
  broadcaster_chat = refl;
  broadcaster_discovery = refl;
}

IsStopped-any_stopped : (n : Node) → IsStopped n → any_stopped n ≡ true
unfolding any_stopped
IsStopped-any_stopped n s = rw s.engine refl

-- A part of the engine has stopped, the engine itself among them.
abbrev pub HasStopped : Node → Type 0
HasStopped n =
    (n.engine_stopped ≡ true)
    ⊎ (n.server_stopped ≡ true)
    ⊎ (n.contacts.stopped ≡ true)
    ⊎ (n.chat.stopped ≡ true)
    ⊎ (n.text_box_stopped ≡ true)
    ⊎ (n.chat_stopped ≡ true)
    ⊎ (n.discovery_stopped ≡ true)

-- `run` looks at every part.
HasStopped-any_stopped : (n : Node) → HasStopped n → any_stopped n ≡ true
unfolding any_stopped
HasStopped-any_stopped n h = ground (arith, h)

-- Where a property of the node holds after a stop, and of the node as it is, it holds after an action.
module _ (P : Node → Type 0) (stopped : (n : Node) → P (stop_all n)) where
  returned :
      (t : Thread) (e : Engine) (over : Bool)
      → P e.node
      → let e' : Engine =
          if over then keep_promise t (record e { node = stop_all e.node }) else e in
        P e'.node
  unfolding keep_promise
  returned server e true p = stopped e.node
  returned chat e true p = stopped e.node
  returned discovery e true p = stopped e.node
  returned t e false p = p

  checked :
      (n : Node) (b : Bool)
      → P n
      → let r : Node × Bool = if b then (stop_all n, false) else (n, true) in P r.0
  checked n true p = stopped n
  checked n false p = p

  act-keeps : (a : Action) (e : Engine) → P e.node → P (act a e).node
  unfolding act returns run_round
  act-keeps (thread t) e p = returned t e (is_over t e) p
  act-keeps checks e p = checked e.node (any_stopped e.node) p
  act-keeps interrupted e p = stopped e.node

  act_all-keeps : (as_said : List Action) (e : Engine) → P e.node → P (act_all as_said e).node
  unfolding act_all
  act_all-keeps [] e p = p
  act_all-keeps (a ∷ later) e p = act_all-keeps later (act a e) (act-keeps a e p)

-- Whether the promise of the thread is kept.
abbrev ended : Thread → Engine → Bool
ended server e = e.server_ended
ended chat e = e.chat_ended
ended discovery e = e.discovery_ended

-- A kept promise stays so.
returns-ended :
    (t u : Thread) (e : Engine) (over : Bool)
    → ended t e ≡ true
    → ended t (if over then keep_promise u (record e { node = stop_all e.node }) else e) ≡ true
unfolding keep_promise
returns-ended t u e false kept = kept
returns-ended server server e true kept = refl
returns-ended server chat e true kept = kept
returns-ended server discovery e true kept = kept
returns-ended chat server e true kept = kept
returns-ended chat chat e true kept = refl
returns-ended chat discovery e true kept = kept
returns-ended discovery server e true kept = kept
returns-ended discovery chat e true kept = kept
returns-ended discovery discovery e true kept = refl

with_node-ended :
    (t : Thread) (e : Engine) (n : Node) → ended t e ≡ true → ended t (record e { node = n }) ≡ true
with_node-ended server e n kept = kept
with_node-ended chat e n kept = kept
with_node-ended discovery e n kept = kept

act-ended : (t : Thread) (a : Action) (e : Engine) → ended t e ≡ true → ended t (act a e) ≡ true
unfolding act returns
act-ended t (thread u) e kept = returns-ended t u e (is_over u e) kept
act-ended t checks e kept = with_node-ended t e (run_round e.node).0 kept
act-ended t interrupted e kept = with_node-ended t e (stop_all e.node) kept

act_all-ended :
    (t : Thread) (later : List Action) (e : Engine)
    → ended t e ≡ true
    → ended t (act_all later e) ≡ true
unfolding act_all
act_all-ended t [] e kept = kept
act_all-ended t (a ∷ later) e kept = act_all-ended t later (act a e) (act-ended t a e kept)

-- A thread that gets to run in a stopped engine keeps its promise.
thread-ended : (t : Thread) (e : Engine) → IsStopped e.node → ended t (act (thread t) e) ≡ true
unfolding act returns is_over keep_promise
thread-ended server e s = rw s.server refl
thread-ended chat e s = rw s.broadcaster_chat refl
thread-ended discovery e s = rw s.broadcaster_discovery refl

-- The thread gets to run in the course of these actions.
abbrev pub Runs : Thread → List Action → Type 0
Runs t [] = ⊥
Runs t (a ∷ later) = (a ≡ thread t) ⊎ Runs t later

Runs-ended :
    (t : Thread) (later : List Action) (e : Engine)
    → IsStopped e.node
    → Runs t later
    → ended t (act_all later e) ≡ true
unfolding act_all
Runs-ended t [] e s runs = absurd runs
Runs-ended t (a ∷ later) e s (inl now) =
    act_all-ended t later (act a e)
      (subst (λ (b : Action). ended t (act b e) ≡ true) (sym now) (thread-ended t e s))
Runs-ended t (a ∷ later) e s (inr afterwards) =
    Runs-ended t later (act a e) (act-keeps IsStopped stop_all-IsStopped a e s) afterwards

act_all-append :
    (before after : List Action) (e : Engine)
    → act_all (before ++ after) e ≡ act_all after (act_all before e)
unfolding act_all
act_all-append [] after e = refl
act_all-append (a ∷ before) after e = act_all-append before after (act a e)

checks-IsStopped : (e : Engine) → any_stopped e.node ≡ true → IsStopped (act checks e).node
unfolding act run_round
checks-IsStopped e any_one = rw any_one (stop_all-IsStopped e.node)

all_ended :
    (e : Engine)
    → ended server e ≡ true
    → ended chat e ≡ true
    → ended discovery e ≡ true
    → waits_over e ≡ true
unfolding waits_over
all_ended e a b c = ground (arith, a, b, c)

-- Once any one of the seven parts of an engine has stopped: however its threads and further calls of `stop` follow each other,
-- when `run` has looked at the parts and then each of the three threads has got to run, every part has stopped
-- and the destructor waits no longer.
pub act_all-waits_over :
    (before after : List Action) (e : Engine)
    → HasStopped e.node
    → Runs server after
    → Runs chat after
    → Runs discovery after
    → let e' = act_all (before ++ checks ∷ after) e in (waits_over e' ≡ true) × IsStopped e'.node
unfolding act_all
act_all-waits_over before after e any_one runs_server runs_chat runs_discovery =
    let e1 = act_all before e in
    let still =
      act_all-keeps (λ (n : Node). any_stopped n ≡ true)
        (λ (n : Node). IsStopped-any_stopped (stop_all n) (stop_all-IsStopped n)) before e
        (HasStopped-any_stopped e.node any_one) in
    let s = checks-IsStopped e1 still in
    let e2 = act checks e1 in
    subst (λ (x : Engine). (waits_over x ≡ true) × IsStopped x.node)
      (sym (act_all-append before (checks ∷ after) e))
      (
        all_ended (act_all after e2) (Runs-ended server after e2 s runs_server)
            (Runs-ended chat after e2 s runs_chat) (Runs-ended discovery after e2 s runs_discovery),
        act_all-keeps IsStopped stop_all-IsStopped after e2 s,
      )
