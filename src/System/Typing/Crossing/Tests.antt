-- ===== src/System/Typing/Crossing/Tests.antt =====
-- A line for bob, whose engine knows the sender.
use terminal_teams.Contacts.Handler
use terminal_teams.Chat.Handler as ChatHandler
use terminal_teams.Engine.Node.{Node}
use terminal_teams.System.Peers.Tests as Peers
