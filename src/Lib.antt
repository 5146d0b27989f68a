-- ===== src/Lib.antt =====
-- remoteAgent drives a terminal of one's own machine from a browser. A daemon on the machine runs the
-- sessions; a relay forwards WebSocket frames between daemon and browser and is not trusted; the web
-- client in web/src connects, authenticates end to end, and shows one xterm per session. This library
-- models the core of the web client and the relay and states what holds of them.
--
-- Files and sources:
--   Protocol       web/src/lib/protocol.ts: the messages, as data; Protocol/Codec: b64encode,
--                  b64decode, and b64 and unb64 of web/src/lib/e2e.ts.
--   E2e            web/src/lib/e2e.ts: E2EClient as the record E2eClient, with proofMessage, finish,
--                  seal and open as proof_message, finish, seal and open_envelope; E2e/DaemonSide:
--                  the other end of the handshake, daemon/src/crypto.rs. An exception is an err of
--                  E2e/Results.
--   Connection     web/src/lib/daemon.ts: DaemonConnection as the record Connection, its methods
--                  under their names, onopen, onclose and onerror as socket_opened, socket_closed and
--                  socket_failed; Connection/Dispatch: onmessage and dispatch. Each operation returns
--                  the new state and what it does to the outside, in order, as a list of Event. The
--                  sockets are numbered, and a connection knows the ready state of each.
--                  Connection/Steps has the step relation: all that a caller or the browser can do,
--                  in any order.
--   Terminal       web/src/TerminalApp.tsx: the refs and the state of the component as the record
--                  App; Handlers, Sessions and Input have its handlers, View what it shows. A handler
--                  returns the new state and the acts it asks of the connection and of the page; an
--                  xterm instance is the list of calls made of it; an await is a value of Await, with
--                  which resume goes on.
--   Pairing        web/src/lib/relays.ts (Relays), lib/target.ts and the constants of lib/local.ts
--                  (Target), and web/src/Connect.tsx: the functions above its component (Links) and
--                  the component's state and handlers (Page), over a Store that stands for
--                  localStorage and a Site, the record of the browser's parsers.
--   Browser        web/src/lib/theme.ts, lib/sheet.ts, lib/notify.ts and lib/clipboard.ts, each in a
--                  file of its name, copyPairLink of TerminalApp.tsx in Clipboard, and
--                  web/src/App.tsx in Landing.
--   Scripts        the smoke tests of web/scripts: Cipher is their own encryption, with Agreement against that
--                  of E2e; SmokeWs, SmokeMulti and SmokeM5 are the scripts as machines over the frames that
--                  arrive and their timers, over a record Node of what they call.
--   Hub            relay/hub.go: the rooms, and each locked part of a method as a function of its own; Pump
--                  is relay/main.go, the goroutine of every connection as a phase that goes on at any time.
--                  Calm, Rooms and Reached say what a locked part leaves alone, who moves in it and whom
--                  it reaches; Pump.Placed is the invariant of the rooms, kept by Pump.Moves, and
--                  Pump.Delivery follows a text from a daemon to its viewer.
--   Workspace      the effect of web/src/TerminalApp.tsx that joins the component to its connection:
--                  Workspace is an App with its Connection, happen one thing that the browser does
--                  with all that the handlers do about it, moves one thing that the user does,
--                  History any order of both.
--   Panel          web/src/Shell.tsx in Route, web/src/lib/usePoll.ts in Poll, and web/src/pages: a
--                  page's state and handlers in Overview, Pull, RelayPage, ClientRelays, Settings,
--                  Wizard and Devices, and what it shows in SessionsPage, OverviewView, RelayView,
--                  SettingsView and those, as the list of its texts and controls (View); ConnectView
--                  is what Connect.tsx shows. Agents and Times have the functions that the pages
--                  share.
--   Platform       what the client uses and does not define: JSON, base64, UTF-8 and the primitives
--                  of @noble, as the fields of a record that every definition takes. IsStandard names
--                  the documented laws that the theorems rely on; Platform/Sample is an instance of
--                  them.
--   Common         numbers, conditionals, equality, lists and association lists.
-- The files below these say in their first lines what they are about; a module Examples has concrete runs.
--
-- Bounds: numbers of the source are exact there (counters, sequence numbers, sizes) and are natural
-- numbers here. dispatch of an envelope calls itself on the envelope's text, so it runs on fuel; where a
-- text is shorter than its envelope, fuel above the length of the frame is enough.
--
-- Not modelled: the daemon, but for its half of the handshake, since it is another program; the smoke
-- tests but smoke-ws.mjs, smoke-multi.mjs and smoke-m5.mjs; of the relay, the deadlines, the limit of a
-- frame and the HTTP handlers; of the markup, the classes, styles, icons and fixed explanatory texts;
-- the landing and the help page, the window buttons of the desktop shell and the entry point, which have
-- no state of their own; timers and animation frames, whose callbacks are operations that may run at any
-- time. React is taken at its word: a state setter takes effect before the next event.
pub mod Common
pub mod Platform
pub mod Protocol
pub mod E2e
pub mod Connection
pub mod Terminal
pub mod Browser
pub mod Hub
pub mod Pairing
pub mod Panel
pub mod Scripts
pub mod Workspace
