-- ===== src/Builder/Schedule.antt =====
-- The schedule of packages/v3-builder/src/sync-schedule.ts. A time of day is in milliseconds of its
-- UTC day, which has 86,400,000.
use airing_cal.Common.{
  ℕ, ◌+◌, ◌-◌, ◌*◌, ◌≤◌, ◌<◌, ◌≡◌, refl, Bool, true, false, ◌&&◌, ◌||◌, Option, none, some, [], ◌∷◌,
  Text, ltb, leb, ◌==◌, if◌then◌else◌, Result, ok, err, Bool-cases, inl, inr, some-inj, subst,
  arith,
}
use airing_cal.Builder.{SyncRunMode, incremental, full}

pub record DailyAtUtc : Type 0 where
  pub hour : ℕ
  pub minute : ℕ

abbrev is_digit : ℕ → Bool
is_digit c = leb 48 c && leb c 57

abbrev is_hour : ℕ → ℕ → Bool
is_hour h1 h2 = ((h1 == 48) || (h1 == 49)) && is_digit h2 || (h1 == 50) && leb 48 h2 && leb h2 51

abbrev is_minute : ℕ → ℕ → Bool
is_minute m1 m2 = leb 48 m1 && leb m1 53 && is_digit m2

-- DAILY_AT_RE, on the text after `trim`.
unfoldable pub parse_daily_at_utc : Text → Option DailyAtUtc
parse_daily_at_utc (h1 ∷ h2 ∷ colon ∷ m1 ∷ m2 ∷ []) =
    if is_hour h1 h2 && (colon == 58) && is_minute m1 m2
    then some (record { hour = 10 * (h1 - 48) + (h2 - 48); minute = 10 * (m1 - 48) + (m2 - 48) })
    else none
parse_daily_at_utc _ = none

-- nextDailyRunUnix: a day is given by its first millisecond.
unfoldable pub next_daily_run_unix : ℕ → ℕ → DailyAtUtc → ℕ
next_daily_run_unix day time daily_at =
    let candidate : ℕ = day + (daily_at.hour * 3600000 + daily_at.minute * 60000) in
    if leb candidate (day + time) then candidate + 86400000 else candidate

unfoldable pub ms_until_next_daily_at : ℕ → ℕ → DailyAtUtc → ℕ
ms_until_next_daily_at day time daily_at = next_daily_run_unix day time daily_at - (day + time)

pub data ScheduleError : Type 0 where
  invalid_full_every_days : ScheduleError

-- The clock does not run back behind the last full run.
unfoldable pub resolve_scheduled_sync_mode : ℕ → ℕ → Option ℕ → Result ScheduleError SyncRunMode
resolve_scheduled_sync_mode now full_every_days last =
    if ltb full_every_days 1 then err invalid_full_every_days else elim last [
      | none ↦ ok full
      | some finished_at ↦
          if leb (full_every_days * 86400) (now - finished_at) then ok full else ok incremental
    ]

hour_bound : (h1 h2 : ℕ) → is_hour h1 h2 ≡ true → 10 * (h1 - 48) + (h2 - 48) < 24
hour_bound h1 h2 h = ground arith

minute_bound : (m1 m2 : ℕ) → is_minute m1 m2 ≡ true → 10 * (m1 - 48) + (m2 - 48) < 60
minute_bound m1 m2 h = ground arith

-- A time of day that the parser gives.
abbrev pub IsTimeOfDay : DailyAtUtc → Type 0
IsTimeOfDay daily_at = (daily_at.hour < 24) × (daily_at.minute < 60)

none-some : {daily_at : DailyAtUtc} → ◌≡◌ {A = Option DailyAtUtc} none (some daily_at) → ⊥
none-some h = cc

parse_daily_at_utc-IsTimeOfDay :
    (text : Text) (daily_at : DailyAtUtc)
    → parse_daily_at_utc text ≡ some daily_at
    → IsTimeOfDay daily_at
unfolding parse_daily_at_utc
parse_daily_at_utc-IsTimeOfDay (h1 ∷ h2 ∷ colon ∷ m1 ∷ m2 ∷ []) daily_at h =
    split (is_hour h1 h2) (colon == 58) (is_minute m1 m2) refl refl h
  where
    split :
        (a b c : Bool)
        → is_hour h1 h2 ≡ a
        → is_minute m1 m2 ≡ c
        → (if a && b && c
            then some
                (record { hour = 10 * (h1 - 48) + (h2 - 48); minute = 10 * (m1 - 48) + (m2 - 48) })
            else none)
          ≡ some daily_at
        → IsTimeOfDay daily_at
    split true true true e f k =
        subst IsTimeOfDay (some-inj k) (hour_bound h1 h2 e, minute_bound m1 m2 f)
    split false b c _ _ k = absurd (none-some k)
    split true false c _ _ k = absurd (none-some k)
    split true true false _ _ k = absurd (none-some k)
parse_daily_at_utc-IsTimeOfDay _ daily_at h = absurd (none-some h)

-- For a time of day that was parsed, the wait for the next run is positive and at most a day.
pub ms_until_next_daily_at-bounds :
    (text : Text) (daily_at : DailyAtUtc) (day time : ℕ)
    → parse_daily_at_utc text ≡ some daily_at
    → time < 86400000
    → (0 < ms_until_next_daily_at day time daily_at)
      × (ms_until_next_daily_at day time daily_at ≤ 86400000)
unfolding ms_until_next_daily_at next_daily_run_unix
ms_until_next_daily_at-bounds text daily_at day time parsed within =
    let valid = parse_daily_at_utc-IsTimeOfDay text daily_at parsed in
    elim (Bool-cases
      (leb (day + (daily_at.hour * 3600000 + daily_at.minute * 60000)) (day + time))) [
        | inl e ↦
            rw (e, ms_until_next_daily_at, next_daily_run_unix)
              (passed_bounds day time daily_at.hour daily_at.minute valid.0 valid.1 within e)
        | inr e ↦
            rw (e, ms_until_next_daily_at, next_daily_run_unix)
              (coming_bounds day time daily_at.hour daily_at.minute valid.0 valid.1 within e)
      ]
  where
    passed_bounds :
        (day time hour minute : ℕ)
        → hour < 24
        → minute < 60
        → time < 86400000
        → leb (day + (hour * 3600000 + minute * 60000)) (day + time) ≡ true
        → (0 < day + (hour * 3600000 + minute * 60000) + 86400000 - (day + time))
          × (day + (hour * 3600000 + minute * 60000) + 86400000 - (day + time) ≤ 86400000)
    passed_bounds day time hour minute h m t e = (ground arith, ground arith)

    coming_bounds :
        (day time hour minute : ℕ)
        → hour < 24
        → minute < 60
        → time < 86400000
        → leb (day + (hour * 3600000 + minute * 60000)) (day + time) ≡ false
        → (0 < day + (hour * 3600000 + minute * 60000) - (day + time))
          × (day + (hour * 3600000 + minute * 60000) - (day + time) ≤ 86400000)
    coming_bounds day time hour minute h m t e = (ground arith, ground arith)
