-- ===== src/System/Tests.antt =====
-- An engine that has started, and its contacts window.
use terminal_teams.Prelude.{Bool, Option, [], arith, codes, false, none, refl, some, true, ◌∷◌, ◌≡◌}
use terminal_teams.Contacts.Handler.{send_heartbeat, push_message}
use terminal_teams.Contacts.Message.{state_of}
use terminal_teams.Contacts.State.{active, selected_active}
use terminal_teams.Contacts.Window as Window
use terminal_teams.Contacts.Window.{handle, refresh, update_entries, set_state}
use terminal_teams.Contacts.View.{view}
use terminal_teams.Engine.Node.{Node}
use terminal_teams.Engine.Tests.{home, start-home}
use terminal_teams.System.Screen.Listing.{Reach-lists, Reach-catches_up}
use terminal_teams.System.Screen.{
  System, Turns, start_with, with_queue, beats, takes, shows, Reach, begin, later, IsShown,
}

abbrev beaten : Node
beaten = record home { contacts = (send_heartbeat home.contacts).0 }

abbrev beating : System
beating = record { node = beaten; carried = []; window = Window.init }

window_of : Option (Window.Window × Bool) → Window.Window
window_of none = Window.init
window_of (some (w, goes_on)) = w

abbrev one_shown : Window.Window
one_shown = window_of (handle Window.init (state_of active 0 (codes "me")))

abbrev two_shown : Window.Window
two_shown = window_of (handle one_shown (state_of selected_active 0 (codes "me")))

abbrev quiet : Node
quiet = with_queue home []

abbrev listed : System
listed = record { node = quiet; carried = []; window = two_shown }

handle-one : handle Window.init (state_of active 0 (codes "me")) ≡ some (one_shown, true)
unfolding handle refresh update_entries terminal_teams.Contacts.State.same_state Window.init
    window_of
handle-one = refl

handle-two : handle one_shown (state_of selected_active 0 (codes "me")) ≡ some (two_shown, true)
unfolding handle refresh update_entries terminal_teams.Contacts.State.same_state set_state window_of
    Window.init
handle-two = refl

Reach-home : Reach (start_with home)
Reach-home = begin 10 5 (codes "me") (codes "id-m") (codes "h:1") [] (omega arith) start-home

Reach-listed : Reach listed
unfolding Window.init window_of handle update_entries terminal_teams.Contacts.State.same_state
    refresh
Reach-listed =
    later
      (later (later Reach-home (takes refl refl)) (
        shows (state_of active 0 (codes "me")) (state_of selected_active 0 (codes "me") ∷ [])
          one_shown true refl refl refl handle-one))
      (shows (state_of selected_active 0 (codes "me")) [] two_shown true refl refl refl handle-two)

Reach-lists_example : (two_shown.entries ≡ view quiet.contacts.contacts) × IsShown two_shown
Reach-lists_example = Reach-lists Reach-listed refl refl

-- The heartbeat thread has put a third message into the queue.
Reach-beating : Reach beating
unfolding send_heartbeat push_message
Reach-beating = later Reach-home (beats beaten.contacts true refl)

Reach-catches_up_example :
    (s' : System) × Turns beating s'
    × (s'.node ≡ with_queue beaten [])
    × (s'.window.entries ≡ view beaten.contacts.contacts)
    × IsShown s'.window
    × (s'.window.stopped ≡ false)
Reach-catches_up_example = Reach-catches_up Reach-beating
