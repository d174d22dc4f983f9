-- ===== src/Exchange/Calendar.antt =====
-- Languages/cpp/19_quantlib_demo/time/calendars/ex_china.hpp and ex_china.cpp: the calendars of
-- the Shanghai exchange, the Shenzhen exchange and the interbank market. QuantLib's weekday of a
-- date is a parameter, 1 for Sunday to 7 for Saturday as in its `Weekday`.
use study_notes.Base.{ℕ, Bool, true, false, ◌&&◌, ◌||◌, List, [], ◌∷◌, ◌==◌, if◌then◌else◌}
use study_notes.Exchange.Holidays.{
  new_year, chinese_new_year, ching_ming, labor_day, tuen_ng, mid_autumn, national_day, victory_day,
}
use study_notes.Exchange.WorkingWeekends.{Date, working_weekends}

pub data Market : Type 0 where
  sse szse ib : Market

abbrev pub is_weekend : ℕ → Bool
is_weekend w = w == 7 || w == 1

abbrev pub same_date : Date → Date → Bool
same_date a b = a.year == b.year && a.month == b.month && a.day_of_month == b.day_of_month

-- `find` on the set of the working weekends.
abbrev pub find : Date → List Date → Bool
find d [] = false
find d (e ∷ es) = same_date d e || find d es

module _ (weekday : Date → ℕ) where
  unfoldable pub sse_holiday : Date → Bool
  sse_holiday date =
      let d = date.day_of_month in
      let m = date.month in
      let y = date.year in
      is_weekend (weekday date)
      || new_year y m d
      || chinese_new_year y m d
      || ching_ming y m d
      || labor_day y m d
      || tuen_ng y m d
      || mid_autumn y m d
      || national_day y m d
      || victory_day y m d

  unfoldable pub sse_is_business_day : Date → Bool
  sse_is_business_day date = if sse_holiday date then false else true

  unfoldable pub ib_is_business_day : Date → Bool
  ib_is_business_day date = sse_is_business_day date || find date working_weekends

  unfoldable pub szse_is_business_day : Date → Bool
  szse_is_business_day date = sse_is_business_day date

  -- The implementation that the constructor chooses, by its `isBusinessDay`.
  unfoldable pub calendar : Market → Date → Bool
  calendar sse = sse_is_business_day
  calendar szse = szse_is_business_day
  calendar ib = ib_is_business_day
