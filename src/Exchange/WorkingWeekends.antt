-- ===== src/Exchange/WorkingWeekends.antt =====
-- Languages/cpp/19_quantlib_demo/time/calendars/ex_china.cpp: the weekend days on which the
-- interbank market works.
use study_notes.Base.{ℕ, List, [], ◌∷◌}

-- A `Date` by its parts.
pub record Date : Type 0 where
  pub year : ℕ
  pub month : ℕ
  pub day_of_month : ℕ

abbrev date : ℕ → ℕ → ℕ → Date
date d m y = record { year = y; month = m; day_of_month = d }

unfoldable pub working_weekends : List Date
working_weekends =
    date 5 2 2005
    ∷ date 6 2 2005
    ∷ date 30 4 2005
    ∷ date 8 5 2005
    ∷ date 8 10 2005
    ∷ date 9 10 2005
    ∷ date 31 12 2005
    ∷ date 28 1 2006
    ∷ date 29 4 2006
    ∷ date 30 4 2006
    ∷ date 30 9 2006
    ∷ date 30 12 2006
    ∷ date 31 12 2006
    ∷ date 17 2 2007
    ∷ date 25 2 2007
    ∷ date 28 4 2007
    ∷ date 29 4 2007
    ∷ date 29 9 2007
    ∷ date 30 9 2007
    ∷ date 29 12 2007
    ∷ date 2 2 2008
    ∷ date 3 2 2008
    ∷ date 4 5 2008
    ∷ date 27 9 2008
    ∷ date 28 9 2008
    ∷ date 4 1 2009
    ∷ date 24 1 2009
    ∷ date 1 2 2009
    ∷ date 31 5 2009
    ∷ date 27 9 2009
    ∷ date 10 10 2009
    ∷ date 20 2 2010
    ∷ date 21 2 2010
    ∷ date 12 6 2010
    ∷ date 13 6 2010
    ∷ date 19 9 2010
    ∷ date 25 9 2010
    ∷ date 26 9 2010
    ∷ date 9 10 2010
    ∷ date 30 1 2011
    ∷ date 12 2 2011
    ∷ date 2 4 2011
    ∷ date 8 10 2011
    ∷ date 9 10 2011
    ∷ date 31 12 2011
    ∷ date 21 1 2012
    ∷ date 29 1 2012
    ∷ date 31 3 2012
    ∷ date 1 4 2012
    ∷ date 28 4 2012
    ∷ date 29 9 2012
    ∷ date 5 1 2013
    ∷ date 6 1 2013
    ∷ date 16 2 2013
    ∷ date 17 2 2013
    ∷ date 7 4 2013
    ∷ date 27 4 2013
    ∷ date 28 4 2013
    ∷ date 8 6 2013
    ∷ date 9 6 2013
    ∷ date 22 9 2013
    ∷ date 29 9 2013
    ∷ date 12 10 2013
    ∷ date 26 1 2014
    ∷ date 8 2 2014
    ∷ date 4 5 2014
    ∷ date 28 9 2014
    ∷ date 11 10 2014
    ∷ date 4 1 2015
    ∷ date 15 2 2015
    ∷ date 28 2 2015
    ∷ date 6 9 2015
    ∷ date 10 10 2015
    ∷ date 6 2 2016
    ∷ date 14 2 2016
    ∷ date 12 6 2016
    ∷ date 18 9 2016
    ∷ date 8 10 2016
    ∷ date 9 10 2016
    ∷ date 22 1 2017
    ∷ date 4 2 2017
    ∷ date 1 4 2017
    ∷ date 27 5 2017
    ∷ date 30 9 2017
    ∷ date 11 2 2018
    ∷ date 24 2 2018
    ∷ date 8 4 2018
    ∷ date 28 4 2018
    ∷ date 29 9 2018
    ∷ date 30 9 2018
    ∷ date 29 12 2018
    ∷ date 2 2 2019
    ∷ date 3 2 2019
    ∷ date 28 4 2019
    ∷ date 5 5 2019
    ∷ date 29 9 2019
    ∷ date 12 10 2019
    ∷ []
