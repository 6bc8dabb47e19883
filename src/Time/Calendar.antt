-- ===== src/Time/Calendar.antt =====
-- The calendar that POSIX counts by, and what `mktime` of kernel/time.c makes of it.
use klyx.Prelude.{
  ℕ, zero, suc, ◌+◌, ◌-◌, ◌*◌, ◌/◌, ◌%◌, ◌≤◌, ◌<◌, ◌≡◌, refl, Bool, true, false, not, ◌&&◌, ◌||◌,
  ◌==◌, ltb, if◌then◌else◌, get_or, [], ◌∷◌, Bool-cases, ltb→lt, all_below-lt, inl, inr, arith,
}
use klyx.Time.Clock.{Tm, mktime, month, day}

abbrev pub is_leap : ℕ → Bool
is_leap y = y % 4 == 0 && (not (y % 100 == 0) || y % 400 == 0)

-- The days of the `n` years from 1970 on.
abbrev pub days_to_year : ℕ → ℕ
days_to_year zero = 0
days_to_year (suc n) = days_to_year n + (if is_leap (1970 + n) then 366 else 365)

-- The days of the first months of a year, January being 0.
abbrev pub days_to_month : Bool → ℕ → ℕ
days_to_month leap zero = 0
days_to_month leap (suc m) =
    days_to_month leap m
    + get_or (31 ∷ (if leap then 29 else 28) ∷ 31 ∷ 30 ∷ 31 ∷ 30 ∷ 31 ∷ 31 ∷ 30 ∷ 31 ∷ 30 ∷ 31 ∷ [])
        m 0

-- The seconds since 1970 began.
abbrev pub epoch : Tm → ℕ
epoch tm =
    (days_to_year (tm.tm_year - 1970)
        + days_to_month (is_leap tm.tm_year) tm.tm_mon
        + tm.tm_mday
        - 1)
      * 86400
    + tm.tm_hour * 3600
    + tm.tm_min * 60
    + tm.tm_sec

-- A date of this century as `__get_time` fills it in.
pub record IsDate (tm : Tm) : Type 0 where
  pub sec : tm.tm_sec < 60
  pub min : tm.tm_min < 60
  pub hour : tm.tm_hour < 24
  pub mday : 0 < tm.tm_mday
  pub mday_end : tm.tm_mday ≤ 31
  pub mon : tm.tm_mon < 12
  pub year : 2000 ≤ tm.tm_year
  pub year_end : tm.tm_year < 2100
  pub yday : tm.tm_yday ≡ tm.tm_mday + get_or month tm.tm_mon 0

leap_step :
    (n : ℕ) → n < 130 → (if is_leap (1970 + n) then 366 else 365) ≡ 365 + (n + 2) / 4 - (n + 1) / 4
leap_step n lt = ground arith

days_to_year-closed : (n : ℕ) → n ≤ 130 → days_to_year n ≡ 365 * n + (n + 1) / 4
days_to_year-closed zero le = refl
days_to_year-closed (suc n) le =
    omega (arith, leap_step n (omega arith), days_to_year-closed n (omega arith))

==_to : (a b : ℕ) → (a == b) ≡ true → a ≡ b
==_to a b h = ground arith

-- The table holds the months of a leap year.
month-days :
    (leap : Bool) (m : ℕ)
    → m < 12
    → get_or month m 0 ≡ days_to_month leap m + (if leap || ltb m 2 then 0 else 1)
unfolding month
month-days true m lt =
    ==_to _ _ (all_below-lt (λ i. get_or month i 0 == days_to_month true i + 0) 12 refl m lt)
month-days false m lt = ==_to _ _ (
    all_below-lt (λ i. get_or month i 0 == days_to_month false i + (if ltb i 2 then 0 else 1)) 12
      refl m lt)

month_end : (m : ℕ) → m < 12 → get_or month m 0 < 336
unfolding month
month_end m lt = ltb→lt _ _ (all_below-lt (λ i. ltb (get_or month i 0) 336) 12 refl m lt)

mktime-closed :
    (tm : Tm)
    → IsDate tm
    → tm.tm_yday < 400
    → 0 < tm.tm_yday
    → mktime tm
      ≡ (365 * (tm.tm_year - 1970) + (tm.tm_year - 1969) / 4 + tm.tm_yday - 2) * 86400
        + tm.tm_hour * 3600
        + tm.tm_min * 60
        + tm.tm_sec
unfolding mktime
mktime-closed tm d le pos = omega arith

-- `mktime` gives the seconds since 1970 of a date that is behind the February of a year that is not a leap
-- year, and one day less for every other date.
pub mktime-epoch :
    (tm : Tm)
    → IsDate tm
    → mktime tm + (if is_leap tm.tm_year || ltb tm.tm_mon 2 then day else 0) ≡ epoch tm
mktime-epoch tm d =
    let table = month-days (is_leap tm.tm_year) tm.tm_mon d.mon in
    let years = days_to_year-closed (tm.tm_year - 1970) (omega (arith, d.year_end)) in
    let closed = mktime-closed tm d (omega (arith, month_end tm.tm_mon d.mon)) (omega arith) in
    elim (Bool-cases (is_leap tm.tm_year || ltb tm.tm_mon 2)) [
      | inl late ↦ rw late (omega (arith, rw late at table, years, closed))
      | inr exact ↦ rw exact (omega (arith, rw exact at table, years, closed))
    ]
