-- ===== src/System/Screen/Steps.antt =====
-- What every turn of the engine, the threads of the contacts handler and the contacts window keeps
-- (engine/src, contacts/src).
use mathlib.Core.Path.{subst}
use mathlib.Core.Option.{some-injective}
use terminal_teams.Prelude.{
  Bool, List, [], ap, false, inl, refl, some, sym, true, ◌++◌, ◌∙◌, ◌∷◌, ◌≡◌,
}
use terminal_teams.Contacts.Message.{Message, heartbeat}
use terminal_teams.Contacts.Handler
use terminal_teams.Contacts.Handler.{send_heartbeat, push_message}
use terminal_teams.Contacts.Window as Window
use terminal_teams.Contacts.Window.{Window, Entry, handle}
use terminal_teams.Contacts.View.{replay, view}
use terminal_teams.Engine.Node.{Node}
use terminal_teams.Engine.Control.{start}
use terminal_teams.Engine.Running.{Running}
use terminal_teams.Engine.Running.Reach.{Step-Running, start-Running, ends}
use terminal_teams.System.Screen.{
  System, start_with, with_queue, after_message, Turn, works, beats, takes, shows, leaves, Reach,
  begin, later,
}
use terminal_teams.System.Screen.Drawing.{Shows, handle-head, replay-heartbeat}

-- Another queue, that leads from other entries to the same contacts.
requeued-Running :
    {entries : List Entry} {n : Node} (entries' : List Entry) (q : List Message)
    → Running entries n
    → replay entries' q ≡ some (view n.contacts.contacts)
    → Running entries' (with_queue n q)
requeued-Running {entries} {n} entries' q r e = record {
  ready = record {
    inv = record {
      short = r.ready.inv.short;
      in_range = r.ready.inv.in_range;
      known = r.ready.inv.known;
      selection = r.ready.inv.selection;
      mirrored = λ live. e;
    };
    live = r.ready.live;
    chat_live = record {
      live = r.ready.chat_live.live;
      at = r.ready.chat_live.at;
      many = r.ready.chat_live.many;
    };
  };
  current = r.current;
  ascending = r.ascending;
  known = r.known;
  watched = r.watched;
  going = r.going;
}

-- What a system keeps: the window follows the contacts by what is carried, then by what is queued.
pub record Good (s : System) : Type 0 where
  pub entries : List Entry
  pub runs : Running entries s.node
  pub follows : replay s.window.entries s.carried ≡ some entries
  pub shown : Shows s.window
  pub going : s.window.stopped ≡ false

start-Good : (n : Node) → Running [] n → Good (start_with n)
unfolding Window.init replay
start-Good n r = record { entries = []; runs = r; follows = refl; shown = inl refl; going = refl }

pub queue_of :
    {entries : List Entry} {n : Node}
    → Running entries n
    → replay entries n.contacts.queued ≡ some (view n.contacts.contacts)
queue_of r = r.ready.inv.mirrored r.ready.live

send_heartbeat-live :
    (h : Handler.Handler)
    → h.stopped ≡ false
    → send_heartbeat h ≡ (record h { queued = h.queued ++ heartbeat ∷ [] }, true)
unfolding send_heartbeat push_message
send_heartbeat-live h live = rw live refl

beats-Running :
    {entries : List Entry} {n : Node} (h : Handler.Handler) (done : Bool)
    → Running entries n
    → send_heartbeat n.contacts ≡ (h, done)
    → Running entries (record n { contacts = h })
beats-Running {entries} {n} h done r e =
    let pushed =
      requeued-Running entries (n.contacts.queued ++ heartbeat ∷ []) r
        (replay-heartbeat entries n.contacts.queued ∙ queue_of r) in
    let same_handler : record (n.contacts) { queued = n.contacts.queued ++ heartbeat ∷ [] } ≡ h =
      ap (λ (x : Handler.Handler × Bool). x.0)
        (sym (send_heartbeat-live n.contacts r.ready.live) ∙ e) in
    subst (λ (c : Handler.Handler). Running entries (record n { contacts = c })) same_handler pushed

-- The window takes the message that it is handed.
shows-Good :
    {s : System} (m : Message) (ms : List Message) (w : Window) (goes_on : Bool)
    → s.carried ≡ m ∷ ms
    → handle s.window m ≡ some (w, goes_on)
    → Good s
    → Good (record s { carried = ms; window = after_message w goes_on })
shows-Good {s} m ms w goes_on e handled g =
    let taken =
      handle-head s.window m ms g.entries g.shown
        (subst (λ (q : List Message). replay s.window.entries q ≡ some g.entries) e g.follows) in
    subst (λ (r : Window × Bool). Good (record s { carried = ms; window = after_message r.0 r.1 }))
      (some-injective (taken.0, true) (w, goes_on) (sym taken.1 ∙ handled))
      (record {
        entries = g.entries;
        runs = g.runs;
        follows = taken.3;
        shown = taken.2;
        going = taken.4 ∙ g.going;
      })

opposite : (b : Bool) → b ≡ true → b ≡ false → ⊥
opposite b yes_it no_it = cc

pub caught_up :
    (es es' : List Entry) (ms : List Message) → ms ≡ [] → replay es ms ≡ some es' → es ≡ es'
unfolding replay
caught_up es es' [] at e = some-injective es es' e
caught_up es es' (m ∷ ms) at e = absurd cc

pub Turn-Good : {s s' : System} → Turn s s' → Good s → Good s'
unfolding replay
Turn-Good (works n step) g = record {
  entries = g.entries;
  runs = Step-Running step g.runs;
  follows = g.follows;
  shown = g.shown;
  going = g.going;
}
Turn-Good (beats h done e) g = record {
  entries = g.entries;
  runs = beats-Running h done g.runs e;
  follows = g.follows;
  shown = g.shown;
  going = g.going;
}
Turn-Good {s} (takes live e) g = record {
  entries = view s.node.contacts.contacts;
  runs = requeued-Running (view s.node.contacts.contacts) [] g.runs refl;
  follows = rw (caught_up s.window.entries g.entries s.carried e g.follows) (queue_of g.runs);
  shown = g.shown;
  going = g.going;
}
Turn-Good (shows m ms w goes_on live awake e handled) g = shows-Good m ms w goes_on e handled g
Turn-Good {s} (leaves w goes_on stopped awake handled) g =
    absurd (opposite s.node.contacts.stopped stopped g.runs.ready.live)

pub Reach-Good : {s : System} → Reach s → Good s
Reach-Good (begin threshold now nickname identity address neighbors {n} short e) = start-Good n (
    ends (start threshold now nickname identity address neighbors) n
      (start-Running threshold now nickname identity address neighbors short) e)
Reach-Good (later r t) = Turn-Good t (Reach-Good r)
