-- ===== src/Scripts/SmokeM5/Endless.antt =====
-- smoke-m5.mjs: the ten seconds are looked at only when nothing was printed.
use remote_agent.Common.{
  ℕ, ◌+◌, ◌<◌, ◌≡◌, refl, sym, ap, ◌∙◌, subst, String, Bool, true, some, List, [], ◌∷◌, All, ltb,
  nat_eq, arith,
}
use remote_agent.Platform.{Platform}
use remote_agent.Protocol.{daemon, output}
use remote_agent.Scripts.{Node}
use remote_agent.Scripts.Parts.{running}
use remote_agent.Scripts.SmokeM5.{
  SmokeM5, Input, units, on_data, on_frame, on_message, tick, message, ticks, act, step,
}
use Prim.Native.String.{◌++◌ as join_text}
use Prim.Native.String.append

-- The script runs its interval, and has seen all of the output.
pub record IsWatching (s : SmokeM5) : Type 0 where
  pub runs : s.ending ≡ running
  pub stable : ℕ
  pub seen : s.interval ≡ some (stable, units s.output)

units-join_text : (a b : String) → units (join_text a b) ≡ units a + units b
unfolding units
units-join_text String.[] b =
    let e : join_text String.[] b ≡ b = append.nil b in omega (arith, ap units e)
units-join_text (String.◌∷◌ c a) b =
    let e : join_text (String.◌∷◌ c a) b ≡ String.◌∷◌ c (join_text a b) = append.cons c a b in
    rw e (omega (arith, units-join_text a b))

-- A message, and the tick of the interval behind it.
pub record Round : Type 0 where
  pub raw : String
  pub past_two : Bool
  pub past_ten : Bool

module _ (p : Platform) (n : Node) where
  pub record IsPrinted (r : Round) : Type 0 where
    pub sid : String
    pub seq : ℕ
    pub data64 : String
    pub parsed : p.parse r.raw ≡ some (daemon (output sid seq data64))
    pub longer : 0 < units (n.to_text (n.from_base64 data64))

  abbrev pub round : Round → SmokeM5 → SmokeM5
  round r s = (step p n (ticks r.past_two r.past_ten) (step p n (message r.raw) s).0).0

  abbrev pub rounds : List Round → SmokeM5 → SmokeM5
  rounds [] s = s
  rounds (r ∷ rs) s = rounds rs (round r s)

  running_acts : (i : Input) (s : SmokeM5) → s.ending ≡ running → step p n i s ≡ act p n i s
  unfolding step
  running_acts i s runs = rw runs refl

  message_printed :
      (r : Round) (v : IsPrinted r) (s : SmokeM5)
      → (on_message p n r.raw s).0 ≡ on_data p n (daemon (output v.sid v.seq v.data64)) s
  unfolding on_message on_frame
  message_printed r v s = rw (on_message, v.parsed) refl

  tick_grown :
      (past_two past_ten : Bool) (s : SmokeM5) (stable len : ℕ)
      → len < units s.output
      → (tick p n (some (stable, len)) past_two past_ten s).0
        ≡ record s { interval = some (0, units s.output) }
  unfolding tick
  tick_grown past_two past_ten s stable len more =
      let longer : ltb len (units s.output) ≡ true = ground (arith, more) in rw longer refl

  round-IsWatching : (r : Round) (s : SmokeM5) → IsPrinted r → IsWatching s → IsWatching (round r s)
  unfolding act on_data
  round-IsWatching r s v w =
      let text = n.to_text (n.from_base64 v.data64) in
      let s1 = on_data p n (daemon (output v.sid v.seq v.data64)) s in
      let first : (step p n (message r.raw) s).0 ≡ s1 =
        ap (λ o. o.0) (running_acts (message r.raw) s w.runs) ∙ message_printed r v s in
      let longer : units s.output < units s1.output =
        omega (arith, units-join_text s.output text, v.longer) in
      let second : (step p n (ticks r.past_two r.past_ten) s1).0
          ≡ record s1 { interval = some (0, units s1.output) } =
        ap (λ o. o.0) (running_acts (ticks r.past_two r.past_ten) s1 w.runs)
        ∙ ap (λ i. (tick p n i r.past_two r.past_ten s1).0) w.seen
        ∙ tick_grown r.past_two r.past_ten s1 w.stable (units s.output) longer in
      subst IsWatching (sym (ap (λ t. (step p n (ticks r.past_two r.past_ten) t).0) first ∙ second))
        (record { runs = w.runs; stable = 0; seen = refl })

  -- While the command goes on to print something before every tick of the interval, the script neither passes
  -- nor fails, however long that is: the ten seconds are over without being looked at.
  pub rounds_endless :
      (rs : List Round) (s : SmokeM5)
      → IsWatching s
      → All IsPrinted rs
      → (rounds rs s).ending ≡ running
  rounds_endless [] s w all = w.runs
  rounds_endless (r ∷ rs) s w (v, all) =
      rounds_endless rs (round r s) (round-IsWatching r s v w) all
