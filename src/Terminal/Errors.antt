-- ===== src/Terminal/Errors.antt =====
-- What an error from the other side does to the component and, through it, to the connection.
use remote_agent.Common.{
  ℕ, ◌≡◌, refl, ◌∙◌, String, true, ◌||◌, Option, none, some, List, [], ◌∷◌, All, ◌==◌, string_eq,
  if◌then◌else◌, Bool-cases, arith,
}
use remote_agent.Platform.{Platform}
use remote_agent.Connection.{Connection, Event, shut_socket}
use remote_agent.Connection
use remote_agent.Connection.Dispatch.{Setting}
use remote_agent.Connection.Disposal.{IsStill, Runs_disposed}
use remote_agent.Connection.Steps.{Runs}
use remote_agent.Terminal.{App, Await, close}
use remote_agent.Terminal.Handlers.{is_fatal, on_error}

pub on_error_acts :
    (code msg : String) (a : App)
    → (on_error code msg a).1 ≡ (if is_fatal code then close ∷ [] else [])
unfolding on_error
on_error_acts code msg a = ground arith

on_error_hint :
    (code msg : String) (a : App)
    → (on_error code msg a).0.busy_hint ≡ (code == "device_busy" || code == "local_busy")
unfolding on_error
on_error_hint code msg a = ground arith

shut_disposed : (ws : Option ℕ) (c : Connection Await) → (shut_socket ws c).disposed ≡ c.disposed
shut_disposed none c = refl
shut_disposed (some id) c = refl

close_disposes : (c : Connection Await) → (Connection.close c).0.disposed ≡ true
unfolding Connection.close
close_disposes c = shut_disposed c.ws _

busy_is_fatal :
    (code : String) → (code == "device_busy" || code == "local_busy") ≡ true → is_fatal code ≡ true
busy_is_fatal code h =
    ground (arith, Bool-cases (code == "device_busy"), Bool-cases (code == "local_busy"))

module _ (p : Platform) (s : Setting) where
  -- When the device is busy, the hint that another window holds it is set and the handler closes the
  -- connection; from then on, whatever is called and whatever arrives, no socket is opened, and neither
  -- an attempt nor a loss is reported, so that no retry is ever due.
  pub busy_never_rejoins :
      (code msg : String) (a : App) (c : Connection Await)
      → (code == "device_busy" || code == "local_busy") ≡ true
      → {d : Connection Await} {events : List (Event Await)}
      → Runs p s (Connection.close c).0 d events
      → ((on_error code msg a).0.busy_hint ≡ true)
        × ((on_error code msg a).1 ≡ close ∷ [])
        × (d.sockets ≡ (Connection.close c).0.sockets)
        × All IsStill events
  busy_never_rejoins code msg a c h r =
      let (disposed, same, still) = Runs_disposed p s (close_disposes c) r in
      (
        on_error_hint code msg a ∙ h,
        rw (on_error_acts code msg a, busy_is_fatal code h) refl,
        same,
        still,
      )
