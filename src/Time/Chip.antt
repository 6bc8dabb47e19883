-- ===== src/Time/Chip.antt =====
-- `time` of kernel/time.c on what the clock chip holds.
use klyx.Prelude.{
  ℕ, ◌+◌, ◌-◌, ◌*◌, ◌/◌, ◌%◌, ◌^◌, ◌<◌, ◌≡◌, ◌∙◌, refl, sym, ap, ap₂, ◌⊎◌, inl, inr, ◌||◌, leb, ltb,
  if◌then◌else◌, List, [], ◌∷◌, Option, none, some, Bool-cases, arith,
}
use klyx.Time.Clock.{Tm, decode_bcd, wait_upd, read_tm, get_time, day, mktime, time}
use klyx.Time.Calendar.{is_leap, epoch, IsDate, mktime-epoch}

-- Two decimal digits in a byte.
abbrev pub bcd : ℕ → ℕ
bcd n = n / 10 * 16 + n % 10

decode_bcd-bcd : (n : ℕ) → n < 100 → decode_bcd (bcd n) ≡ n
unfolding decode_bcd
decode_bcd-bcd n lt = omega arith

-- Some read of status register A finds that no update goes on.
abbrev pub Ends : List ℕ → Type 0
Ends [] = ⊥
Ends (a ∷ upd) = (a % 2 ^ 8 < 0x80) ⊎ Ends upd

wait_upd-Ends : (upd : List ℕ) → Ends upd → (rest : List ℕ) × (wait_upd upd ≡ some rest)
unfolding wait_upd
wait_upd-Ends [] e = absurd e
wait_upd-Ends (a ∷ upd) e = elim (Bool-cases (leb 0x80 (a % 2 ^ 8))) [
  | inl busy ↦ elim e [
    | inl quiet ↦ absurd (ground arith)
    | inr later ↦ rw busy (wait_upd-Ends upd later)
  ]
  | inr quiet ↦ rw quiet (upd, refl)
]

-- The registers hold the date `tm`.
pub record Holds (rtc : ℕ → ℕ) (tm : Tm) : Type 0 where
  pub sec : rtc 0x00 ≡ bcd tm.tm_sec
  pub min : rtc 0x02 ≡ bcd tm.tm_min
  pub hour : rtc 0x04 ≡ bcd tm.tm_hour
  pub mday : rtc 0x07 ≡ bcd tm.tm_mday
  pub mon : rtc 0x08 ≡ bcd (tm.tm_mon + 1)
  pub year : rtc 0x09 ≡ bcd (tm.tm_year - 2000)

-- The date that is read.
read_tm-IsDate :
    (rtc : ℕ → ℕ) (tm : Tm)
    → IsDate tm
    → Holds rtc tm
    → IsDate (read_tm rtc)
      × (epoch (read_tm rtc) ≡ epoch tm)
      × ((read_tm rtc).tm_year ≡ tm.tm_year)
      × ((read_tm rtc).tm_mon ≡ tm.tm_mon)
unfolding read_tm
read_tm-IsDate rtc tm d h =
    let sec : decode_bcd (rtc 0x00) ≡ tm.tm_sec =
      ap decode_bcd h.sec ∙ decode_bcd-bcd tm.tm_sec (omega (arith, d.sec)) in
    let min : decode_bcd (rtc 0x02) ≡ tm.tm_min =
      ap decode_bcd h.min ∙ decode_bcd-bcd tm.tm_min (omega (arith, d.min)) in
    let hour : decode_bcd (rtc 0x04) ≡ tm.tm_hour =
      ap decode_bcd h.hour ∙ decode_bcd-bcd tm.tm_hour (omega (arith, d.hour)) in
    let mday : decode_bcd (rtc 0x07) ≡ tm.tm_mday =
      ap decode_bcd h.mday ∙ decode_bcd-bcd tm.tm_mday (omega (arith, d.mday_end)) in
    let mon : decode_bcd (rtc 0x08) - 1 ≡ tm.tm_mon =
      omega (arith, ap decode_bcd h.mon, decode_bcd-bcd (tm.tm_mon + 1) (omega (arith, d.mon))) in
    let year : decode_bcd (rtc 0x09) + 2000 ≡ tm.tm_year = omega (
      arith,
      ap decode_bcd h.year,
      d.year,
      decode_bcd-bcd (tm.tm_year - 2000) (omega (arith, d.year_end)),
    ) in
    rw (sec, min, hour, mday, mon, year)
      (
        record {
          sec = d.sec;
          min = d.min;
          hour = d.hour;
          mday = d.mday;
          mday_end = d.mday_end;
          mon = d.mon;
          year = d.year;
          year_end = d.year_end;
          yday = refl;
        },
        refl,
        refl,
        refl,
      )

-- If the clock chip holds a date of this century in BCD and its update ends, time returns: the
-- seconds since 1970 if the date is behind the February of a year that is not a leap year, and one
-- day less for every other date.
pub time-epoch :
    (rtc : ℕ → ℕ) (upd : List ℕ) (tm : Tm)
    → IsDate tm
    → Holds rtc tm
    → Ends upd
    → (t : ℕ) × (time rtc upd ≡ some t)
      × (t + (if is_leap tm.tm_year || ltb tm.tm_mon 2 then day else 0) ≡ epoch tm)
unfolding time get_time
time-epoch rtc upd tm d h ends =
    let (rest, waited) = wait_upd-Ends upd ends in
    let (date, same, year, mon) = read_tm-IsDate rtc tm d h in
    (
      mktime (read_tm rtc),
      ap
          (λ (w : Option (List ℕ)). elim (get_after w) [
            | none ↦ none
            | some now ↦ some (mktime now)
          ])
          waited,
      sym (ap₂ (λ y m. mktime (read_tm rtc) + (if is_leap y || ltb m 2 then day else 0)) year mon)
          ∙ mktime-epoch (read_tm rtc) date
          ∙ same,
    )
  where
    get_after : Option (List ℕ) → Option Tm
    get_after none = none
    get_after (some rest) = some (read_tm rtc)
