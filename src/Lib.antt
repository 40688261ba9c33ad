-- ===== src/Lib.antt =====
-- TerminalTeams: a chat between terminals on a local network. One engine process keeps the contacts and
-- the conversations; three terminal windows (contacts, chat, text box) are processes of their own, joined
-- to the engine by shared memory, system message queues and a named pipe; engines talk to each other by
-- remote calls.
--
-- The parts, the files that model them, and the code:
--   * Contacts (contacts/src): Contacts/State and Contacts/Message are TTContactsState.hpp and
--     TTContactsMessage.hpp, Contacts/Handler is TTContactsHandler.cpp (inside the engine), and
--     Contacts/Window is TTContacts.cpp (the window process).
--   * Chat (chat/src): Chat/Message is TTChatMessage.hpp with its type and TTChatEntry.hpp, Chat/Handler
--     is TTChatHandler.cpp, Chat/Window is TTChat.cpp, Chat/Layout the lines that `TTChat::print` makes
--     of a text, and Chat/Heartbeat the threads of both that exchange heartbeats.
--   * TextBox (textbox/src): TextBox/Input is TTTextBox.cpp, TextBox/Handler the receiving side
--     TTTextBoxHandler.cpp.
--   * Engine (engine/src): Engine/Chat is TTBroadcasterChat.cpp, Engine/Discovery is
--     TTBroadcasterDiscovery.cpp, Engine/Services the two TTNeighborsService files, Engine/Control is
--     TTEngine.cpp, Engine/Threads its constructor, its threads and its destructor, Engine/Message is TTNeighborsMessage.hpp, Engine/Stub is TTNeighborsStub.cpp, and
--     Engine/Timer is utils/src/TTUtilsTimer.hpp.
--     Engine/Node is the state that they share: both handlers, the maps of neighbors, and the flag that
--     each part keeps of whether it was stopped.
--   * Utils (utils/src): Utils/MessageQueue, Utils/SharedMem and Utils/NamedPipe are the channels of
--     TTUtilsMessageQueue.cpp, TTUtilsSharedMem.cpp and TTUtilsNamedPipe.cpp, over the system calls of
--     TTUtilsSyscall.hpp (Utils/Syscall). Utils/SharedMem/Processes has the two processes of a shared
--     memory channel take turns a system call at a time.
--   * Settings: Settings/Windows is TTChatSettings.cpp (chat/src), TTContactsSettings.cpp (contacts/src)
--     and TTTextBoxSettings.cpp (textbox/src), Settings/Engine is TTEngineSettings.cpp and
--     TTNetworkInterface.hpp (engine/src), Settings/Parsing what they share.
--   * Prelude: Boolean tests, lists measured by native numbers, and byte strings.
-- Engine/Running says what holds of a node while the engine runs, and Engine/Running/Reach is the step
-- relation of the callbacks, the calls of neighbors and the rounds of the broadcasters in any order;
-- the threads that empty the queues of the two handlers are not steps of it. System/Screen adds those of
-- the contacts handler and the contacts window, and System/Peers has one engine serve the calls of another,
-- and System/Typing goes from a line in the text box to the callbacks of the engine and the conversations
-- of another one. Chat/Pipeline joins Chat/Handler and Chat/Window: a step relation of the handler's
-- threads, the system queue between the processes, and the window. The other files of each folder hold
-- its lemmas, and Tests its examples.
--
-- How the code is read. A member function is a function from the state to the state and its result,
-- with `none` for undefined behaviour (an access out of bounds, a failed assertion, a loop that does not
-- end, an exception that nothing catches). Each operation that the code runs under a mutex is one step,
-- and a stop requested by another thread falls between two steps. A loop that waits is modelled by its
-- rounds: `run` of a window takes the list of the messages that arrive. The clock is the argument `now`.
-- Strings are lists of bytes, and machine integers keep their wrap-around where the code can reach it.
--
-- Fuel: the loop of `print` that makes lines of words runs on `measure`, which counts what each round
-- removes; it is enough where the side of the window has any width. Decimal numbers have 20 digits at most.
--
-- Every loop of attempts in Utils recurs on the attempts that are left.
--
-- Taken as parameters: what the remote side answers (the record `Network`; `Rpc` for the library
-- below it), which parts the factory makes (`Factory`), whether a channel takes a message (`accept`),
-- the system calls (the record `Os`, functions of a world of any type; `IsFifo`, `IsShared`,
-- `IsWaited` and `IsNaming` say what POSIX promises of queues, semaphores, mapped memory and their
-- names), the text of a timestamp, the hash of an identity, the operator >> of a string stream, and
-- inet_pton. Not modelled: the `main` functions, logging, the server of engine/src, and the
-- scheduling of threads within an operation of a handler.
pub mod Prelude
pub mod Chat
pub mod Contacts
pub mod TextBox
pub mod Engine
pub mod Utils
pub mod Settings
pub mod System
