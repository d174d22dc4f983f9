-- ===== src/Tests/Exchange.antt =====
-- Runs of the exchanges' calendars and repos.
use study_notes.Base.{
  ℕ, ◌+◌, ◌%◌, ◌≡◌, refl, ◌∙◌, Bool, true, false, not, ◌||◌, arith, ◌==◌, if◌then◌else◌,
}
use study_notes.Base.Int.{pos, leb_ℤ}
use study_notes.Exchange.WorkingWeekends.{Date}
use study_notes.Exchange.Calendar.{Market, sse, ib, calendar}
use study_notes.Exchange.Late.{calendar-late}
use study_notes.Exchange.Dates.{Dates, Follows, open_on, t1}
use study_notes.Exchange.PledgeRepo.{occupation_positive}
use study_notes.Exchange.PledgeRepo
use study_notes.Exchange.OutrightRepo
use study_notes.Exchange.OutrightRepo.{outright_occupation, closed_for}

-- A month of February that starts on a Sunday, again and again.
abbrev weekday : Date → ℕ
weekday date = date.day_of_month

abbrev parts : ℕ → Date
parts s = record { year = 2026; month = 2; day_of_month = s % 7 + 1 }

abbrev adjust : (ℕ → Bool) → ℕ → ℕ
adjust c s = if c s then s else if c (s + 1) then s + 1 else s + 2

abbrev dates : Dates
dates = record {
  parts = parts;
  weekday = weekday;
  adjust = adjust;
  advance = λ c s n. adjust c (s + n);
}

open_day :
    (market : Market) (s : ℕ) → open_on dates market s ≡ not (s % 7 + 1 == 7 || s % 7 + 1 == 1)
open_day market s = calendar-late weekday (parts s) market (omega arith) ∙ ground arith

dates-Follows : (market : Market) → Follows dates (open_on dates market)
dates-Follows market = record {
  is_open =
      λ s. ground (arith, open_day market s, open_day market (s + 1), open_day market (s + 2));
  onward = λ s. ground arith;
  first = λ s u a b. ground (arith, open_day market s, open_day market (s + 1));
  advance_one = λ s. refl;
}

-- Saturday the seventh.
calendar-late_example : calendar weekday ib (parts 6) ≡ false
calendar-late_example = calendar-late weekday (parts 6) ib (omega arith)

-- Traded on a Thursday, for a day and for three.
occupation_positive_example : leb_ℤ (pos 1) (PledgeRepo.capital_occupation_days dates 4 1) ≡ true
occupation_positive_example = occupation_positive dates (dates-Follows sse) 4 1 (omega arith)

runs_occupation : PledgeRepo.capital_occupation_days dates 4 1 ≡ pos 3
unfolding PledgeRepo.capital_occupation_days
runs_occupation = ground (arith, open_day sse 5, open_day sse 6, open_day sse 7, open_day sse 8)

outright_occupation_example :
    (late : ℕ) × (OutrightRepo.capital_occupation_days dates 3 1 t1 ≡ pos (1 + late))
    × (open_on dates ib (OutrightRepo.calc_first_settlement_date dates 3 t1 + 1 + late) ≡ true)
    × (closed_for (open_on dates ib) (OutrightRepo.calc_first_settlement_date dates 3 t1 + 1) late
        ≡ true)
outright_occupation_example = outright_occupation dates (dates-Follows ib) 3 1 t1
