-- ===== src/Exchange/Dates.antt =====
-- What Languages/cpp/19_quantlib_demo/pledge_repo.hpp and outright_repo.hpp use of QuantLib's dates
-- and calendars, as parameters. A date is QuantLib's serial number.
use study_notes.Base.{ℕ, ◌+◌, ◌≤◌, ◌<◌, ◌≡◌, Bool, true, false, arith}
use study_notes.Exchange.WorkingWeekends.{Date}
use study_notes.Exchange.Calendar.{Market, calendar}

-- `adjust` and `advance` take the calendar by its `isBusinessDay`, and follow the convention
-- `Following`; `advance` goes on by a number of business days.
pub record Dates : Type 0 where
  pub parts : ℕ → Date
  pub weekday : Date → ℕ
  pub adjust : (ℕ → Bool) → ℕ → ℕ
  pub advance : (ℕ → Bool) → ℕ → ℕ → ℕ

-- `Exchange::ClearSpeed`.
pub data ClearSpeed : Type 0 where
  t0 t1 : ClearSpeed

abbrev pub days_of : ClearSpeed → ℕ
days_of t0 = 0
days_of t1 = 1

abbrev pub open_on : Dates → Market → ℕ → Bool
open_on dates market serial = calendar dates.weekday market (dates.parts serial)

-- QuantLib's documentation of `Following`: the first business day from the date on. And `advance`
-- by one business day goes to the first business day behind the date.
pub record Follows (dates : Dates) (c : ℕ → Bool) : Type 0 where
  pub is_open : (s : ℕ) → c (dates.adjust c s) ≡ true
  pub onward : (s : ℕ) → s ≤ dates.adjust c s
  pub first : (s u : ℕ) → s ≤ u → u < dates.adjust c s → c u ≡ false
  pub advance_one : (s : ℕ) → dates.advance c s 1 ≡ dates.adjust c (s + 1)

pub adjust_mono :
    {dates : Dates} {c : ℕ → Bool} (f : Follows dates c) (s u : ℕ)
    → s ≤ u
    → dates.adjust c s ≤ dates.adjust c u
adjust_mono {dates} {c} f s u h =
    ground (arith, f.onward u, f.is_open u, f.first s (dates.adjust c u))
