-- ===== src/Exchange/PledgeRepo.antt =====
-- Languages/cpp/19_quantlib_demo/pledge_repo.hpp: the pledged repos of the exchanges.
use study_notes.Base.{ℕ, ◌+◌, ◌≤◌, ◌<◌, ◌≡◌, true, arith}
use study_notes.Base.Int.{ℤ, ◌-ℤ◌, leb_ℤ, pos}
use study_notes.Exchange.Calendar.{sse}
use study_notes.Exchange.Dates.{Dates, ClearSpeed, t0, t1, days_of, open_on, Follows, adjust_mono}
use study_notes.Exchange.Sse.{PledgeBondRepo, convert_days_to_enum}

module _ (dates : Dates) where
  unfoldable pub calc_first_settlement_date : ℕ → ClearSpeed → ℕ
  calc_first_settlement_date trade_date t0 = trade_date
  calc_first_settlement_date trade_date t1 =
      dates.adjust (open_on dates sse) (trade_date + days_of t1)

  unfoldable pub calc_expire_settlement_date : ℕ → ℕ → ℕ
  calc_expire_settlement_date trade_date repo_days =
      let expire_date = trade_date + repo_days in dates.adjust (open_on dates sse) expire_date

  abbrev pub get_repo_by_days : ℕ → PledgeBondRepo
  get_repo_by_days days = convert_days_to_enum days

  unfoldable pub capital_occupation_days : ℕ → ℕ → ℤ
  capital_occupation_days trade_date repo_days =
      let entry_date = dates.adjust (open_on dates sse) (trade_date + 1) in
      let expired_date = trade_date + repo_days in
      let expired_liquidate = dates.adjust (open_on dates sse) expired_date in
      let entry_date_back = dates.advance (open_on dates sse) expired_liquidate 1 in
      pos entry_date_back -ℤ pos entry_date

  module _ (follows : Follows dates (open_on dates sse)) where
    -- Where `adjust` and `advance` follow QuantLib's documentation on the Shanghai calendar, the
    -- money of a repo of one day or more is occupied for at least one day.
    pub occupation_positive :
        (trade_date repo_days : ℕ)
        → 0 < repo_days
        → leb_ℤ (pos 1) (capital_occupation_days trade_date repo_days) ≡ true
    unfolding capital_occupation_days
    occupation_positive trade_date repo_days h = ground (
      arith,
      follows.advance_one (dates.adjust (open_on dates sse) (trade_date + repo_days)),
      follows.onward (dates.adjust (open_on dates sse) (trade_date + repo_days) + 1),
      adjust_mono follows (trade_date + 1) (trade_date + repo_days),
    )

    -- Where `adjust` and `advance` follow QuantLib's documentation on the Shanghai calendar, a
    -- longer repo that is traded on the same day never occupies the money for fewer days.
    occupation_mono :
        (trade_date m n : ℕ)
        → m ≤ n
        → leb_ℤ (capital_occupation_days trade_date m) (capital_occupation_days trade_date n) ≡ true
    unfolding capital_occupation_days
    occupation_mono trade_date m n h = ground (
      arith,
      follows.advance_one (dates.adjust (open_on dates sse) (trade_date + m)),
      follows.advance_one (dates.adjust (open_on dates sse) (trade_date + n)),
      adjust_mono follows (trade_date + m) (trade_date + n),
      adjust_mono follows (dates.adjust (open_on dates sse) (trade_date + m) + 1)
          (dates.adjust (open_on dates sse) (trade_date + n) + 1),
    )
