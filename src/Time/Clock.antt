-- ===== src/Time/Clock.antt =====
-- `__decode_bcd`, `__get_time`, `mktime` and `time` of kernel/time.c. What the clock chip holds is an
-- argument: a value for each register, in the form that ports 0x70 and 0x71 give. The wait for the end of
-- an update (`while (__is_upd());`) reads status register A once a round.
use klyx.Prelude.{
  ℕ, ◌+◌, ◌-◌, ◌*◌, ◌/◌, ◌%◌, ◌^◌, List, [], ◌∷◌, Option, none, some, get_or, leb, if◌then◌else◌,
}

-- `struct tm`, of which `tm_isdst` is never set.
pub record Tm : Type 0 where
  pub tm_sec : ℕ
  pub tm_min : ℕ
  pub tm_hour : ℕ
  pub tm_mday : ℕ
  pub tm_mon : ℕ
  pub tm_year : ℕ
  pub tm_yday : ℕ
  pub tm_wday : ℕ

-- `(d>>4)*10+(d&15)`, in `uint8_t`.
unfoldable pub decode_bcd : ℕ → ℕ
decode_bcd d = (d / 2 ^ 4 * 10 + d % 2 ^ 4) % 2 ^ 8

-- The days before each month of a leap year.
unfoldable pub month : List ℕ
month =
    0
    ∷ 31
    ∷ (31 + 29)
    ∷ (31 + 29 + 31)
    ∷ (31 + 29 + 31 + 30)
    ∷ (31 + 29 + 31 + 30 + 31)
    ∷ (31 + 29 + 31 + 30 + 31 + 30)
    ∷ (31 + 29 + 31 + 30 + 31 + 30 + 31)
    ∷ (31 + 29 + 31 + 30 + 31 + 30 + 31 + 31)
    ∷ (31 + 29 + 31 + 30 + 31 + 30 + 31 + 31 + 30)
    ∷ (31 + 29 + 31 + 30 + 31 + 30 + 31 + 31 + 30 + 31)
    ∷ (31 + 29 + 31 + 30 + 31 + 30 + 31 + 31 + 30 + 31 + 30)
    ∷ []

-- The rounds of `while (__is_upd());`, given the values of status register A: what is left of them when
-- bit 0x80 is clear, or `none` while the chip goes on with its update.
unfoldable pub wait_upd : List ℕ → Option (List ℕ)
wait_upd [] = none
wait_upd (a ∷ rest) = if leb 0x80 (a % 2 ^ 8) then wait_upd rest else some rest

-- The registers as `__get_time` reads them. Month 0, which the chip does not hold, would make the index
-- of `month` negative.
unfoldable pub read_tm : (ℕ → ℕ) → Tm
read_tm rtc =
    let mday = decode_bcd (rtc 0x07) in
    let mon = decode_bcd (rtc 0x08) - 1 in
    record {
      tm_sec = decode_bcd (rtc 0x00);
      tm_min = decode_bcd (rtc 0x02);
      tm_hour = decode_bcd (rtc 0x04);
      tm_mday = mday;
      tm_mon = mon;
      tm_year = decode_bcd (rtc 0x09) + 2000;
      tm_yday = mday + get_or month mon 0;
      tm_wday = mday % 7;
    }

-- The wait, then the registers; `none` if the wait has not ended.
unfoldable pub get_time : (rtc : ℕ → ℕ) (upd : List ℕ) → Option Tm
get_time rtc upd = elim (wait_upd upd) [ none ↦ none | some rest ↦ some (read_tm rtc) ]

abbrev pub day : ℕ
day = 24 * 60 * 60

-- `time_t` is `unsigned long`, 32 bits here: all sums wrap.
abbrev pub time_wrap : ℕ → ℕ
time_wrap n = n % 2 ^ 32

-- a - b in `time_t`, for b below 2 ^ 32.
abbrev pub time_sub : ℕ → ℕ → ℕ
time_sub a b = (a + (2 ^ 32 - b)) % 2 ^ 32

unfoldable pub mktime : Tm → ℕ
mktime tm =
    let year = time_sub tm.tm_year 1900 in
    let days = time_wrap (tm.tm_sec + tm.tm_min * 60 + tm.tm_hour * 3600 + tm.tm_yday * 86400) in
    let years = time_wrap (days + time_sub year 70 * 31536000 + time_sub year 69 / 4 * 86400) in
    let centuries = time_sub years (time_wrap (time_sub year 1 / 100 * 86400)) in
    time_sub (time_wrap (centuries + time_wrap (year + 299) / 400 * 86400)) (2 * day)

-- The result of `time`, which also goes to `*tptr`; `none` if the wait has not ended.
unfoldable pub time : (rtc : ℕ → ℕ) (upd : List ℕ) → Option ℕ
time rtc upd = elim (get_time rtc upd) [ none ↦ none | some tm ↦ some (mktime tm) ]
