-- ===== src/Dashboard.antt =====
-- data/dashboard_live.go: the log of the latest resolutions and the counts by second and by minute. A
-- time is a number of nanoseconds after 1970, 0 the zero time; a duration is a whole number of some
-- unit, so that the averages, which the source computes in floats, are left to the reader of the sums.
pub mod Newest
use dnsplane.Base.{
  ℕ, zero, suc, ◌+◌, ◌-◌, ◌*◌, ◌/◌, Bool, true, false, List, [], ◌∷◌, ◌++◌, Option, none, some,
  length, take, drop, filter, reverse, min, leb, ltb, ◌==◌, if◌then◌else◌,
}
use dnsplane.Base.Int.{ℤ, pos, negsuc}
use dnsplane.Text.{Text, codes, text_eq, trim_space, to_lower}
use dnsplane.Text.Dict.{get, put}

-- DashboardResolution
pub record Resolution : Type 0 where
  pub at : ℕ
  pub client_ip : Text
  pub qname : Text
  pub qtype : Text
  pub outcome : Text
  pub upstream : Text
  pub rr : Text
  pub duration : ℕ

-- minuteAgg
pub record MinuteAgg : Type 0 where
  pub count : ℕ
  pub sum : ℕ

-- secondAgg
pub record SecondAgg : Type 0 where
  pub total : ℕ
  pub by_local : ℕ
  pub by_cache : ℕ
  pub by_upstream : ℕ
  pub by_none : ℕ
  pub by_blocked : ℕ

-- dashboardLive with dashboardResolutionLogCap. A key of a map is a text of one number.
pub record Live : Type 0 where
  pub log_cap : ℕ
  pub log : List Resolution
  pub minute : List (Text × MinuteAgg)
  pub second : List (Text × SecondAgg)

abbrev key_of : ℕ → Text
key_of n = n ∷ []

-- A key that is at most so much older than another one; the int64 difference is written as a sum.
young : ℕ → ℕ → Text → Bool
young retain now [] = true
young retain now (k ∷ _) = leb now (k + retain)

-- The last n elements: `log[len(log)-n:]` where there are more.
unfoldable pub last_of {ℓ} : {A : Type ℓ} → ℕ → List A → List A
last_of n xs = if ltb n (length xs) then drop (length xs - n) xs else xs

clamp_cap : ℤ → ℕ
clamp_cap (negsuc n) = 1000
clamp_cap (pos n) = if n == 0 then 1000 else if ltb 1000000 n then 1000000 else n

unfoldable pub set_dashboard_resolution_log_cap : ℤ → Live → Live
unfolding clamp_cap last_of
set_dashboard_resolution_log_cap n live = record live {
  log_cap = clamp_cap n;
  log = last_of (clamp_cap n) live.log;
}

unfoldable pub dashboard_log_cap : Live → ℕ
dashboard_log_cap live = if live.log_cap == 0 then 1000 else live.log_cap

unfoldable pub second_or_new : Option SecondAgg → SecondAgg
second_or_new none = record {
  total = 0;
  by_local = 0;
  by_cache = 0;
  by_upstream = 0;
  by_none = 0;
  by_blocked = 0;
}
second_or_new (some s) = s

-- The `switch` on the outcome
unfoldable pub count_outcome : Text → SecondAgg → SecondAgg
count_outcome o s =
    if text_eq o (codes "local")
    then record s { by_local = suc s.by_local }
    else if text_eq o (codes "cache")
    then record s { by_cache = suc s.by_cache }
    else if text_eq o (codes "upstream")
    then record s { by_upstream = suc s.by_upstream }
    else if text_eq o (codes "none")
    then record s { by_none = suc s.by_none }
    else if text_eq o (codes "blocked")
    then record s { by_blocked = suc s.by_blocked }
    else s

unfoldable pub counted : Resolution → SecondAgg → SecondAgg
unfolding count_outcome
counted e s = count_outcome (to_lower (trim_space e.outcome)) (record s { total = suc s.total })

added : Resolution → Option MinuteAgg → MinuteAgg
added e none = record { count = 1; sum = e.duration }
added e (some m) = record { count = suc m.count; sum = m.sum + e.duration }

unfoldable pub unix : Resolution → ℕ
unix e = e.at / 1000000000

unfoldable pub count_second : Resolution → List (Text × SecondAgg) → List (Text × SecondAgg)
unfolding young second_or_new counted unix
count_second e second =
    let sk = unix e in
    filter (λ kv. young 65 sk kv.0)
      (put (key_of sk) (counted e (second_or_new (get (key_of sk) second))) second)

unfoldable pub count_minute : Resolution → List (Text × MinuteAgg) → List (Text × MinuteAgg)
unfolding young added unix
count_minute e minute =
    let mk = unix e / 60 in
    filter (λ kv. young 61 mk kv.0) (put (key_of mk) (added e (get (key_of mk) minute)) minute)

unfoldable pub append_log : ℕ → Resolution → List Resolution → List Resolution
unfolding last_of
append_log cap e log = last_of cap (log ++ e ∷ [])

unfoldable pub timed_at : ℕ → Resolution → Resolution
timed_at now e = record e { at = if e.at == 0 then now else e.at }

-- RecordDashboardResolution
unfoldable pub record_dashboard_resolution : ℕ → Resolution → Live → Live
unfolding dashboard_log_cap timed_at
record_dashboard_resolution now e live =
    let timed = timed_at now e in
    record live {
      second = count_second timed live.second;
      log = append_log (dashboard_log_cap live) timed live.log;
      minute = count_minute timed live.minute;
    }

unfoldable pub limit_of : ℤ → ℕ
limit_of (negsuc n) = 100
limit_of (pos n) = if n == 0 then 100 else n

unfoldable pub get_dashboard_log_newest_first : ℤ → Live → List Resolution
unfolding limit_of dashboard_log_cap
get_dashboard_log_newest_first n live =
    take (min (limit_of n) (dashboard_log_cap live)) (reverse live.log)

unfoldable pub clear_dashboard_resolution_log : Live → Live
clear_dashboard_resolution_log live = record live { log = [] }
