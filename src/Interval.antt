-- ===== src/Interval.antt =====
-- interval.go: the Gregorian intervals, over Go's calendar in the server's time zone, which is a
-- parameter; and epochMillis of gubernator.go.
use gubernator.Prelude.{
  ℕ, suc, ℤ, pos, negsuc, ◌-◌, ◌/◌, ◌%◌, ◌-ℤ◌, ◌+ℤ◌, Option, none, some, eqb_ℤ, if◌then◌else◌,
}

-- time.Time with the methods that the code calls; `date` is clock.Date in now's location.
pub record Calendar (T : Type 0) : Type 0 where
  pub unix_nano : T → ℤ
  pub truncate_minute : T → T
  pub add_nanos : T → ℤ → T
  pub year : T → ℤ
  pub month : T → ℤ
  pub day : T → ℤ
  pub hour : T → ℤ
  pub weekday : T → ℕ
  pub date : ℤ → ℤ → ℤ → ℤ → ℤ → ℤ → ℤ → T
  pub add_date : T → ℤ → ℤ → ℤ → T
  -- a.Sub(b).Milliseconds()
  pub sub_millis : T → T → ℤ

-- Go's int64 division by a positive constant, which truncates towards zero.
abbrev pub quot_ℤ : ℤ → ℕ → ℤ
quot_ℤ (pos n) d = pos (n / d)
quot_ℤ (negsuc n) d = pos 0 -ℤ pos (suc n / d)

-- The six values of `Duration` under DURATION_IS_GREGORIAN.
pub data Gregorian : Type 0 where
  minutes hours days weeks months years : Gregorian

unfoldable pub gregorian_of : ℤ → Option Gregorian
gregorian_of d =
    if eqb_ℤ d (pos 0)
    then some Gregorian.minutes
    else if eqb_ℤ d (pos 1)
    then some Gregorian.hours
    else if eqb_ℤ d (pos 2)
    then some Gregorian.days
    else if eqb_ℤ d (pos 3)
    then some Gregorian.weeks
    else if eqb_ℤ d (pos 4)
    then some Gregorian.months
    else if eqb_ℤ d (pos 5)
    then some Gregorian.years
    else none

module _ {T : Type 0} (cal : Calendar T) where
  open cal use {
    unix_nano, truncate_minute, add_nanos, year, month, day, hour, weekday, date, add_date,
    sub_millis,
  }

  unfoldable pub epoch_millis : T → ℤ
  epoch_millis t = quot_ℤ (unix_nano t) 1_000_000

  abbrev day_start : ℤ → ℤ → ℤ → T
  day_start y m d = date y m d (pos 0) (pos 0) (pos 0) (pos 0)

  abbrev day_end : ℤ → ℤ → ℤ → T
  day_end y m d = date y m d (pos 23) (pos 59) (pos 59) (pos 999_999_999)

  unfoldable pub duration_in : T → Gregorian → ℤ
  duration_in now Gregorian.minutes = pos 60_000
  duration_in now Gregorian.hours = pos 3_600_000
  duration_in now Gregorian.days = pos 86_400_000
  duration_in now Gregorian.weeks = pos 604_800_000
  duration_in now Gregorian.months =
      let begin = day_start (year now) (month now) (pos 1) in
      sub_millis (add_date begin (pos 0) (pos 1) (pos 0)) begin
  duration_in now Gregorian.years =
      let begin = day_start (year now) (pos 1) (pos 1) in
      sub_millis (add_date begin (pos 1) (pos 0) (pos 0)) begin

  unfoldable pub expiration_in : T → Gregorian → T
  expiration_in now Gregorian.minutes = add_nanos (truncate_minute now) (pos 59_999_999_999)
  expiration_in now Gregorian.hours =
      add_nanos (date (year now) (month now) (day now) (hour now) (pos 0) (pos 0) (pos 0))
        (pos 3_599_999_999_999)
  expiration_in now Gregorian.days = day_end (year now) (month now) (day now)
  expiration_in now Gregorian.weeks =
      day_end (year now) (month now) (day now +ℤ pos ((7 - weekday now) % 7))
  expiration_in now Gregorian.months =
      add_nanos (add_date (day_start (year now) (month now) (pos 1)) (pos 0) (pos 1) (pos 0))
        (negsuc 0)
  expiration_in now Gregorian.years =
      add_nanos (add_date (day_start (year now) (pos 1) (pos 1)) (pos 1) (pos 0) (pos 0)) (negsuc 0)

  -- `none` is the error "`Duration` is not a valid gregorian interval".
  unfoldable pub gregorian_duration : T → ℤ → Option ℤ
  gregorian_duration now d = elim (gregorian_of d) [
    | none ↦ none
    | some g ↦ some (duration_in now g)
  ]

  unfoldable pub gregorian_expiration : T → ℤ → Option ℤ
  gregorian_expiration now d = elim (gregorian_of d) [
    | none ↦ none
    | some g ↦ some (quot_ℤ (unix_nano (expiration_in now g)) 1_000_000)
  ]
