-- ===== src/Exchange/Late.antt =====
-- The calendars from 2020 on, where the exchanges' data ends.
use study_notes.Base.{
  ℕ, zero, suc, ◌≤◌, ◌<◌, ◌≡◌, refl, ◌∙◌, Bool, true, false, not, ◌&&◌, ◌||◌, List, [], ◌∷◌, arith,
  ◌==◌, leb, ltb,
}
use study_notes.Exchange.Holidays.{
  new_year, chinese_new_year, ching_ming, labor_day, tuen_ng, mid_autumn, national_day, victory_day,
}
use study_notes.Exchange.WorkingWeekends.{Date, working_weekends}
use study_notes.Exchange.Calendar.{
  Market, sse, szse, ib, is_weekend, find, sse_holiday, sse_is_business_day, ib_is_business_day,
  szse_is_business_day, calendar,
}

-- A year from 2020 on is none of the years before.
is_not : (c y : ℕ) → c < 2020 → 2020 ≤ y → (y == c) ≡ false
is_not c y before late = ground arith

is_after : (c y : ℕ) → c < 2020 → 2020 ≤ y → leb y c ≡ false
is_after c y before late = ground arith

falses : ℕ → Bool → Bool
falses zero b = b
falses (suc n) b = falses n (b || false)

or_falses : (n : ℕ) (b : Bool) → falses n b ≡ b
unfolding falses
or_falses zero b = refl
or_falses (suc n) true = or_falses n true
or_falses (suc n) false = or_falses n false

or_false : (b : Bool) → b || false ≡ b
or_false true = refl
or_false false = refl

module _ (y m d : ℕ) (late : 2020 ≤ y) where
  not_in : (c : ℕ) → c < 2020 → (y == c) ≡ false
  not_in c before = is_not c y before late

  not_until : (c : ℕ) → c < 2020 → leb y c ≡ false
  not_until c before = is_after c y before late

  new_year-late : new_year y m d ≡ (d == 1 && m == 1)
  unfolding new_year falses
  new_year-late =
      rw
        (
          not_in 2005 (omega arith),
          not_in 2006 (omega arith),
          not_in 2007 (omega arith),
          not_in 2009 (omega arith),
          not_in 2011 (omega arith),
          not_in 2012 (omega arith),
          not_in 2013 (omega arith),
          not_in 2014 (omega arith),
          not_in 2015 (omega arith),
          not_in 2017 (omega arith),
          not_in 2018 (omega arith),
          not_in 2019 (omega arith),
        )
        (or_falses 14 (d == 1 && m == 1))

  chinese_new_year-late : chinese_new_year y m d ≡ false
  unfolding chinese_new_year falses
  chinese_new_year-late =
      rw
        (
          not_in 2004 (omega arith),
          not_in 2005 (omega arith),
          not_in 2006 (omega arith),
          not_in 2007 (omega arith),
          not_in 2008 (omega arith),
          not_in 2009 (omega arith),
          not_in 2010 (omega arith),
          not_in 2011 (omega arith),
          not_in 2012 (omega arith),
          not_in 2013 (omega arith),
          not_in 2014 (omega arith),
          not_in 2015 (omega arith),
          not_in 2016 (omega arith),
          not_in 2017 (omega arith),
          not_in 2018 (omega arith),
          not_in 2019 (omega arith),
        )
        refl

  ching_ming-late : ching_ming y m d ≡ false
  unfolding ching_ming falses
  ching_ming-late =
      rw
        (
          not_in 2009 (omega arith),
          not_in 2010 (omega arith),
          not_in 2011 (omega arith),
          not_in 2012 (omega arith),
          not_in 2013 (omega arith),
          not_in 2014 (omega arith),
          not_in 2015 (omega arith),
          not_in 2016 (omega arith),
          not_in 2017 (omega arith),
          not_in 2018 (omega arith),
          not_in 2019 (omega arith),
          not_until 2008 (omega arith),
        )
        refl

  labor_day-late : labor_day y m d ≡ false
  unfolding labor_day falses
  labor_day-late =
      rw
        (
          not_in 2008 (omega arith),
          not_in 2009 (omega arith),
          not_in 2010 (omega arith),
          not_in 2011 (omega arith),
          not_in 2012 (omega arith),
          not_in 2013 (omega arith),
          not_in 2014 (omega arith),
          not_in 2015 (omega arith),
          not_in 2016 (omega arith),
          not_in 2017 (omega arith),
          not_in 2018 (omega arith),
          not_in 2019 (omega arith),
          not_until 2007 (omega arith),
        )
        refl

  tuen_ng-late : tuen_ng y m d ≡ false
  unfolding tuen_ng falses
  tuen_ng-late =
      rw
        (
          not_in 2009 (omega arith),
          not_in 2010 (omega arith),
          not_in 2011 (omega arith),
          not_in 2012 (omega arith),
          not_in 2013 (omega arith),
          not_in 2014 (omega arith),
          not_in 2015 (omega arith),
          not_in 2016 (omega arith),
          not_in 2017 (omega arith),
          not_in 2018 (omega arith),
          not_in 2019 (omega arith),
          not_until 2008 (omega arith),
        )
        refl

  mid_autumn-late : mid_autumn y m d ≡ false
  unfolding mid_autumn falses
  mid_autumn-late =
      rw
        (
          not_in 2010 (omega arith),
          not_in 2011 (omega arith),
          not_in 2012 (omega arith),
          not_in 2013 (omega arith),
          not_in 2014 (omega arith),
          not_in 2015 (omega arith),
          not_in 2016 (omega arith),
          not_in 2018 (omega arith),
          not_in 2019 (omega arith),
          not_until 2008 (omega arith),
        )
        refl

  national_day-late : national_day y m d ≡ false
  unfolding national_day falses
  national_day-late =
      rw
        (
          not_in 2008 (omega arith),
          not_in 2009 (omega arith),
          not_in 2010 (omega arith),
          not_in 2011 (omega arith),
          not_in 2012 (omega arith),
          not_in 2013 (omega arith),
          not_in 2014 (omega arith),
          not_in 2015 (omega arith),
          not_in 2016 (omega arith),
          not_in 2017 (omega arith),
          not_in 2018 (omega arith),
          not_in 2019 (omega arith),
          not_until 2007 (omega arith),
        )
        refl

  victory_day-late : victory_day y m d ≡ false
  unfolding victory_day falses
  victory_day-late = rw (not_in 2015 (omega arith)) refl

abbrev all_early : List Date → Bool
all_early [] = true
all_early (e ∷ es) = ltb e.year 2020 && all_early es

abbrev other_day : ℕ → ℕ → List Date → Bool
other_day m d [] = true
other_day m d (e ∷ es) = not (e.month == m && e.day_of_month == d) && other_day m d es

find-early :
    (date : Date) (es : List Date) → 2020 ≤ date.year → all_early es ≡ true → find date es ≡ false
find-early date [] late e = refl
find-early date (x ∷ es) late e = ground (arith, find-early date es late)

find-other_day :
    (date : Date) (es : List Date)
    → other_day date.month date.day_of_month es ≡ true
    → find date es ≡ false
find-other_day date [] e = refl
find-other_day date (x ∷ es) e = ground (arith, find-other_day date es)

module _ (weekday : Date → ℕ) (date : Date) where
  sse_late :
      2020 ≤ date.year
      → sse_is_business_day weekday date
        ≡ not (is_weekend (weekday date) || (date.day_of_month == 1 && date.month == 1))
  unfolding sse_is_business_day sse_holiday
  sse_late late =
      let y = date.year in
      let m = date.month in
      let d = date.day_of_month in
      rw
        (
          new_year-late y m d late,
          chinese_new_year-late y m d late,
          ching_ming-late y m d late,
          labor_day-late y m d late,
          tuen_ng-late y m d late,
          mid_autumn-late y m d late,
          national_day-late y m d late,
          victory_day-late y m d late,
        )
        (ground arith)

  -- On a day that is no working weekend the three calendars agree.
  calendar-sse :
      (market : Market)
      → find date working_weekends ≡ false
      → calendar weekday market date ≡ sse_is_business_day weekday date
  unfolding calendar ib_is_business_day szse_is_business_day
  calendar-sse sse none_found = refl
  calendar-sse szse none_found = refl
  calendar-sse ib none_found = rw none_found (or_false (sse_is_business_day weekday date))

  -- From 2020 on, whatever the weekdays are, each of the three calendars has all days as business
  -- days but the weekends and 1 January.
  pub calendar-late :
      (market : Market)
      → 2020 ≤ date.year
      → calendar weekday market date
        ≡ not (is_weekend (weekday date) || (date.day_of_month == 1 && date.month == 1))
  unfolding working_weekends
  calendar-late market late =
      calendar-sse market (find-early date working_weekends late refl) ∙ sse_late late
