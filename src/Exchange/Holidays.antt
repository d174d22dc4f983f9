-- ===== src/Exchange/Holidays.antt =====
-- Languages/cpp/19_quantlib_demo/time/calendars/ex_china.cpp: the days on which the Shanghai
-- exchange is closed, group by group, on the year, the month and the day of the month.
use study_notes.Base.{ℕ, Bool, ◌&&◌, ◌||◌, ◌==◌, leb}

-- New Year's Day.
unfoldable pub new_year : ℕ → ℕ → ℕ → Bool
new_year y m d =
    (d == 1 && m == 1)
    || (y == 2005 && d == 3 && m == 1)
    || (y == 2006 && (d == 2 || d == 3) && m == 1)
    || (y == 2007 && leb d 3 && m == 1)
    || (y == 2007 && d == 31 && m == 12)
    || (y == 2009 && d == 2 && m == 1)
    || (y == 2011 && d == 3 && m == 1)
    || (y == 2012 && (d == 2 || d == 3) && m == 1)
    || (y == 2013 && leb d 3 && m == 1)
    || (y == 2014 && d == 1 && m == 1)
    || (y == 2015 && leb d 3 && m == 1)
    || (y == 2017 && d == 2 && m == 1)
    || (y == 2018 && d == 1 && m == 1)
    || (y == 2018 && d == 31 && m == 12)
    || (y == 2019 && d == 1 && m == 1)

-- Chinese New Year.
unfoldable pub chinese_new_year : ℕ → ℕ → ℕ → Bool
chinese_new_year y m d =
    (y == 2004 && leb 19 d && leb d 28 && m == 1)
    || (y == 2005 && leb 7 d && leb d 15 && m == 2)
    || (y == 2006 && ((leb 26 d && m == 1) || (leb d 3 && m == 2)))
    || (y == 2007 && leb 17 d && leb d 25 && m == 2)
    || (y == 2008 && leb 6 d && leb d 12 && m == 2)
    || (y == 2009 && leb 26 d && leb d 30 && m == 1)
    || (y == 2010 && leb 15 d && leb d 19 && m == 2)
    || (y == 2011 && leb 2 d && leb d 8 && m == 2)
    || (y == 2012 && leb 23 d && leb d 28 && m == 1)
    || (y == 2013 && leb 11 d && leb d 15 && m == 2)
    || (y == 2014 && leb 31 d && m == 1)
    || (y == 2014 && leb d 6 && m == 2)
    || (y == 2015 && leb 18 d && leb d 24 && m == 2)
    || (y == 2016 && leb 8 d && leb d 12 && m == 2)
    || (y == 2017 && ((leb 27 d && m == 1) || (leb d 2 && m == 2)))
    || (y == 2018 && (leb 15 d && leb d 21 && m == 2))
    || (y == 2019 && leb 4 d && leb d 8 && m == 2)

-- Ching Ming Festival.
unfoldable pub ching_ming : ℕ → ℕ → ℕ → Bool
ching_ming y m d =
    (leb y 2008 && d == 4 && m == 4)
    || (y == 2009 && d == 6 && m == 4)
    || (y == 2010 && d == 5 && m == 4)
    || (y == 2011 && leb 3 d && leb d 5 && m == 4)
    || (y == 2012 && leb 2 d && leb d 4 && m == 4)
    || (y == 2013 && leb 4 d && leb d 5 && m == 4)
    || (y == 2014 && d == 7 && m == 4)
    || (y == 2015 && leb 5 d && leb d 6 && m == 4)
    || (y == 2016 && d == 4 && m == 4)
    || (y == 2017 && leb 3 d && leb d 4 && m == 4)
    || (y == 2018 && leb 5 d && leb d 6 && m == 4)
    || (y == 2019 && d == 5 && m == 4)

-- Labor Day.
unfoldable pub labor_day : ℕ → ℕ → ℕ → Bool
labor_day y m d =
    (leb y 2007 && leb 1 d && leb d 7 && m == 5)
    || (y == 2008 && leb 1 d && leb d 2 && m == 5)
    || (y == 2009 && d == 1 && m == 5)
    || (y == 2010 && d == 3 && m == 5)
    || (y == 2011 && d == 2 && m == 5)
    || (y == 2012 && ((d == 30 && m == 4) || (d == 1 && m == 5)))
    || (y == 2013 && ((leb 29 d && m == 4) || (d == 1 && m == 5)))
    || (y == 2014 && leb 1 d && leb d 3 && m == 5)
    || (y == 2015 && d == 1 && m == 5)
    || (y == 2016 && leb 1 d && leb d 2 && m == 5)
    || (y == 2017 && d == 1 && m == 5)
    || (y == 2018 && ((d == 30 && m == 4) || (d == 1 && m == 5)))
    || (y == 2019 && leb 1 d && leb d 3 && m == 5)

-- Tuen Ng Festival.
unfoldable pub tuen_ng : ℕ → ℕ → ℕ → Bool
tuen_ng y m d =
    (leb y 2008 && d == 9 && m == 6)
    || (y == 2009 && (d == 28 || d == 29) && m == 5)
    || (y == 2010 && leb 14 d && leb d 16 && m == 6)
    || (y == 2011 && leb 4 d && leb d 6 && m == 6)
    || (y == 2012 && leb 22 d && leb d 24 && m == 6)
    || (y == 2013 && leb 10 d && leb d 12 && m == 6)
    || (y == 2014 && d == 2 && m == 6)
    || (y == 2015 && d == 22 && m == 6)
    || (y == 2016 && leb 9 d && leb d 10 && m == 6)
    || (y == 2017 && leb 29 d && leb d 30 && m == 5)
    || (y == 2018 && d == 18 && m == 6)
    || (y == 2019 && d == 7 && m == 6)

-- Mid-Autumn Festival.
unfoldable pub mid_autumn : ℕ → ℕ → ℕ → Bool
mid_autumn y m d =
    (leb y 2008 && d == 15 && m == 9)
    || (y == 2010 && leb 22 d && leb d 24 && m == 9)
    || (y == 2011 && leb 10 d && leb d 12 && m == 9)
    || (y == 2012 && d == 30 && m == 9)
    || (y == 2013 && leb 19 d && leb d 20 && m == 9)
    || (y == 2014 && d == 8 && m == 9)
    || (y == 2015 && d == 27 && m == 9)
    || (y == 2016 && leb 15 d && leb d 16 && m == 9)
    || (y == 2018 && d == 24 && m == 9)
    || (y == 2019 && d == 13 && m == 9)

-- National Day.
unfoldable pub national_day : ℕ → ℕ → ℕ → Bool
national_day y m d =
    (leb y 2007 && leb 1 d && leb d 7 && m == 10)
    || (y == 2008 && ((leb 29 d && m == 9) || (leb d 3 && m == 10)))
    || (y == 2009 && leb 1 d && leb d 8 && m == 10)
    || (y == 2010 && leb 1 d && leb d 7 && m == 10)
    || (y == 2011 && leb 1 d && leb d 7 && m == 10)
    || (y == 2012 && leb 1 d && leb d 7 && m == 10)
    || (y == 2013 && leb 1 d && leb d 7 && m == 10)
    || (y == 2014 && leb 1 d && leb d 7 && m == 10)
    || (y == 2015 && leb 1 d && leb d 7 && m == 10)
    || (y == 2016 && leb 3 d && leb d 7 && m == 10)
    || (y == 2017 && leb 2 d && leb d 6 && m == 10)
    || (y == 2018 && leb 1 d && leb d 5 && m == 10)
    || (y == 2019 && leb 1 d && leb d 7 && m == 10)

-- The 70th anniversary of the victory.
unfoldable pub victory_day : ℕ → ℕ → ℕ → Bool
victory_day y m d = (y == 2015 && leb 3 d && leb d 4 && m == 9)
