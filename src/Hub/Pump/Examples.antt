-- ===== src/Hub/Pump/Examples.antt =====
-- A relay with a daemon, connection 0, and its viewer, connection 1, and the theorems at it.
use remote_agent.Common.{
  ℕ, zero, suc, ◌≤◌, ◌≡◌, refl, true, false, none, some, [], ◌∷◌, length, nat_eq, ◌≢◌, ◌++◌, List,
  string_eq, texts_differ, arith,
}
use remote_agent.Common.Maps.{lookup, insert, remove}
use remote_agent.Platform.Sample.{sample}
use remote_agent.Protocol.{daemon, hello_ack}
use remote_agent.Hub.{
  send_queue, send_msg, shutdown, broadcast, find_or_make, has_key, register, join, forward,
  forward_up, leave, reclaim, unregister, presence_of,
}
use remote_agent.Hub.Pump.{
  drain, System, Envelope, forwarding, reading, gone, started, greets, texts, read_fails, proceeds,
  step, greet, begin_register, begin_join, with_room, read, proceed, Reach, start, next,
}
use remote_agent.Hub.Pump.Limits.{Reach-limits}
use remote_agent.Hub.Pump.Isolation.{actor, acts_for, step_isolated}
use remote_agent.Hub.Pump.Delivery.{
  IsServing, Turn, sends, goes_on, writes, sent, left, HasRoom, turns, written, written-delivers,
}
use remote_agent.Hub.Pump.Slow.{IsJammed, jammed_breaks}
use remote_agent.Hub.Pump.Race.{IsEmptying, emptying_loses, daemon_hello}

abbrev client_hello : Envelope
client_hello = record { t = "hello"; v = 1; role = "client"; device_id = "x"; token = "" }

abbrev online : System
online =
    step sample (proceeds 0) (
      step sample (proceeds 0) (step sample (greets 0 (some (daemon_hello "x" "k"))) (started "k")))

abbrev viewed : System
viewed =
    step sample (proceeds 1)
      (step sample (proceeds 1) (step sample (greets 1 (some client_hello)) online))

viewed-Reach : Reach sample "k" viewed
viewed-Reach = next (proceeds 1) (
    next (proceeds 1) (
      next (greets 1 (some client_hello)) (
        next (proceeds 0)
          (next (proceeds 0) (next (greets 0 (some (daemon_hello "x" "k"))) start)))))

Reach-limits_example :
    ((r : ℕ) → length (viewed.hub.heap r).clients ≤ 1)
    × ((c : ℕ) → length (viewed.hub.conns c).queue ≤ send_queue)
Reach-limits_example = Reach-limits sample viewed-Reach

-- The viewer does not read, and the daemon sends on.
pour : ℕ → System → System
pour zero s = s
pour (suc n) s = pour n (step sample (proceeds 0) (step sample (texts 0 "o" none) s))

abbrev jammed : System
jammed = pour 63 viewed

runs : Unit {0}
unfolding step greet begin_register begin_join with_room read proceed send_msg shutdown broadcast
    find_or_make has_key register join forward forward_up leave reclaim unregister presence_of
    lookup insert remove pour
runs = tt

viewed_phases : (viewed.phases 0 ≡ reading) × (viewed.phases 1 ≡ reading)
unfolding runs
viewed_phases = (refl, refl)

jammed-IsJammed : IsJammed jammed 0 1 0
unfolding runs
jammed-IsJammed = record {
  reads = refl;
  role = refl;
  room = refl;
  host = refl;
  viewers = refl;
  is_open = refl;
  full = refl;
  apart = omega arith;
}

jammed_breaks_example :
    let s1 = step sample (texts 0 "a" none) jammed in
    let s2 = step sample (texts 0 "b" none) (step sample (proceeds 0) s1) in
    let s3 = step sample (proceeds 0) (step sample (proceeds 0) (step sample (proceeds 0) s2)) in
    (s3.phases 0 ≡ gone)
    × ((s3.hub.conns 0).shut ≡ (jammed.hub.conns 0).shut)
    × ((s3.hub.heap 0).host ≡ none)
    × ((s3.hub.heap 0).clients ≡ 1 ∷ [])
    × ((s3.hub.conns 1).shut ≡ true)
jammed_breaks_example = jammed_breaks sample 0 1 0 "a" "b" jammed jammed-IsJammed

-- The daemon has left, and the viewer is about to; connection 2 is the daemon's next one.
abbrev emptying : System
emptying =
    step sample (read_fails 1)
      (step sample (proceeds 0) (step sample (proceeds 0) (step sample (read_fails 0) viewed)))

emptying-IsEmptying : IsEmptying emptying "x" 2 1 0
unfolding runs
emptying-IsEmptying = record {
  fresh = refl;
  unused = (refl, refl);
  leaves = refl;
  viewer = (refl, refl);
  room = refl;
  hostless = refl;
  last = refl;
  apart = omega arith;
}

key_right : has_key emptying.hub "k" ≡ true
unfolding runs
key_right = refl

emptying_loses_example :
    let s1 = step sample (greets 2 (some (daemon_hello "x" "k"))) emptying in
    let s2 = step sample (proceeds 1) (step sample (proceeds 1) s1) in
    let s3 = step sample (proceeds 2) (step sample (proceeds 2) s2) in
    (s3.phases 2 ≡ reading)
    × ((s3.hub.conns 2).queue ≡ sample.stringify (daemon (hello_ack "x")) ∷ [])
    × ((s3.hub.heap 0).host ≡ some 2)
    × (lookup "x" s3.hub.rooms ≡ none)
    × (presence_of "x" s3.hub ≡ (false, 0))
emptying_loses_example =
    emptying_loses sample "x" "k" 2 1 0 emptying (texts_differ "x" "" refl)
      (texts_differ "k" "" refl) key_right emptying-IsEmptying

-- Connection 2 is the daemon of another device, and the viewer of the first has sent a text.
abbrev both : System
both = step sample (texts 1 "o" none) (
    step sample (proceeds 2)
      (step sample (proceeds 2) (step sample (greets 2 (some (daemon_hello "y" "k"))) viewed)))

both-Reach : Reach sample "k" both
both-Reach = next (texts 1 "o" none) (
    next (proceeds 2)
      (next (proceeds 2) (next (greets 2 (some (daemon_hello "y" "k"))) viewed-Reach)))

both_phases : (both.phases 1 ≡ forwarding 0 "o") × (both.phases 2 ≡ reading)
unfolding runs
both_phases = (refl, refl)

both_differ :
    (both.hub.conns 2).device_id
    ≢ acts_for (both.hub.conns (actor (proceeds 1))).device_id (both.phases (actor (proceeds 1)))
unfolding runs
both_differ = texts_differ "y" "x" refl

step_isolated_example : (step sample (proceeds 1) both).hub.conns 2 ≡ both.hub.conns 2
step_isolated_example = step_isolated sample both-Reach (proceeds 1) 2 (omega arith) both_differ

viewed-IsServing : IsServing 0 1 0 [] viewed
unfolding runs
viewed-IsServing = record {
  carries = refl;
  role = refl;
  room = refl;
  viewers = refl;
  is_open = refl;
  apart = omega arith;
}

abbrev talk : List Turn
talk = sends "o" none ∷ goes_on ∷ writes ∷ sends "e" (some "enc") ∷ goes_on ∷ sends "q" none ∷ []

talk-HasRoom : HasRoom sample 0 1 talk viewed
unfolding runs drain
talk-HasRoom = (omega arith, (omega arith, tt))

written-delivers_example :
    written sample 0 1 talk viewed
      ++ (((turns sample 0 1 talk viewed).hub.conns 1).queue ++ left talk [])
    ≡ (viewed.hub.conns 1).queue ++ ([] ++ sent talk [])
written-delivers_example =
    written-delivers sample 0 1 0 talk [] viewed viewed-IsServing
      (tt, (tt, (tt, ((refl, refl, refl), (tt, (tt, tt)))))) talk-HasRoom
