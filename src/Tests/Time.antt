-- ===== src/Tests/Time.antt =====
-- The clock on 5 August 2025, 12:34:56.
use klyx.Prelude.{ℕ, ◌+◌, ◌≡◌, refl, ◌||◌, ltb, ◌==◌, if◌then◌else◌, [], ◌∷◌, some, inl, inr, arith}
use klyx.Time.Clock.{Tm, time, day, month}
use klyx.Time.Calendar.{is_leap, epoch, IsDate}
use klyx.Time.Chip.{Holds, time-epoch}

abbrev date : Tm
date = record {
  tm_sec = 56;
  tm_min = 34;
  tm_hour = 12;
  tm_mday = 5;
  tm_mon = 7;
  tm_year = 2025;
  tm_yday = 218;
  tm_wday = 5;
}

-- The registers by number.
abbrev rtc : ℕ → ℕ
rtc i =
    if i == 0
    then 0x56
    else if i == 2
    then 0x34
    else if i == 4
    then 0x12
    else if i == 7
    then 0x05
    else if i == 8
    then 0x08
    else 0x25

date-IsDate : IsDate date
unfolding month
date-IsDate = record {
  sec = omega arith;
  min = omega arith;
  hour = omega arith;
  mday = omega arith;
  mday_end = omega arith;
  mon = omega arith;
  year = omega arith;
  year_end = omega arith;
  yday = refl;
}

rtc-Holds : Holds rtc date
rtc-Holds = record { sec = refl; min = refl; hour = refl; mday = refl; mon = refl; year = refl }

time-epoch_example :
    (t : ℕ) × (time rtc (0x80 ∷ 0x00 ∷ []) ≡ some t)
    × (t + (if is_leap date.tm_year || ltb date.tm_mon 2 then day else 0) ≡ epoch date)
time-epoch_example =
    time-epoch rtc (0x80 ∷ 0x00 ∷ []) date date-IsDate rtc-Holds (inr (inl (omega arith)))
