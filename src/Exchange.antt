-- ===== src/Exchange.antt =====
-- Languages/cpp/19_quantlib_demo: the calendars of the Chinese exchanges, the repo kinds by their
-- days, and the settlement days of the two kinds of repo.
pub mod Holidays
pub mod WorkingWeekends
pub mod Calendar
pub mod Late
pub mod Dict
pub mod Sse
pub mod Szse
pub mod Ib
pub mod Names
pub mod Dates
pub mod PledgeRepo
pub mod OutrightRepo
