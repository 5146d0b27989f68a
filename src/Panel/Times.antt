-- ===== src/Panel/Times.antt =====
-- Times as the pages print them. `now` is Date.now(), in milliseconds, and `ts` a time in seconds.
use Prim.Native.String.{◌++◌ as ◌+++◌}
use remote_agent.Common.{ℕ, ◌-◌, ◌*◌, ◌/◌, ◌%◌, String, ltb, if◌then◌else◌, ◌==◌, nat_eq}

-- `print` is String(n).
module _ (print : ℕ → String) where
  -- timeAgo of pages/Sessions.tsx and pages/Overview.tsx
  unfoldable pub time_ago : (now ts : ℕ) → String
  time_ago now ts =
      let s = (now - ts * 1000) / 1000 in
      if ltb s 60
      then "刚刚"
      else if ltb s 3600
      then print (s / 60) +++ " 分钟前"
      else if ltb s 86400
      then print (s / 3600) +++ " 小时前"
      else print (s / 86400) +++ " 天前"

  -- `String(n).padStart(2, '0')`
  abbrev pub padded : ℕ → String
  padded n = if ltb n 10 then "0" +++ print n else print n

  -- duration of pages/Sessions.tsx
  unfoldable pub clock : (now ts : ℕ) → String
  clock now ts =
      let s = (now - ts * 1000) / 1000 in
      let h = s / 3600 in
      let m = s % 3600 / 60 in
      let ss = s % 60 in
      if ltb 0 h
      then print h +++ (":" +++ (padded m +++ (":" +++ padded ss)))
      else print m +++ (":" +++ padded ss)

  -- duration of pages/Overview.tsx
  unfoldable pub duration : (now ts : ℕ) → String
  duration now ts =
      let s = now / 1000 - ts in
      let h = s / 3600 in
      let m = s % 3600 / 60 in
      if ltb 0 h
      then print h +++ ("h" +++ (print m +++ "m"))
      else print m +++ ("m" +++ (print (s % 60) +++ "s"))

  -- uptime of pages/Relay.tsx
  unfoldable pub uptime : (now from : ℕ) → String
  uptime now from =
      if from == 0
      then "—"
      else (let s = now / 1000 - from in
          let d = s / 86400 in
          let h = s % 86400 / 3600 in
          let m = s % 3600 / 60 in
          if ltb 0 d
          then print d +++ (" 天 " +++ (print h +++ " 小时"))
          else if ltb 0 h
          then print h +++ (" 小时 " +++ (print m +++ " 分"))
          else print m +++ (" 分 " +++ (print (s % 60) +++ " 秒")))
