-- ===== src/Exchange/OutrightRepo.antt =====
-- Languages/cpp/19_quantlib_demo/outright_repo.hpp: the outright repos of the interbank market.
use study_notes.Base.{
  ℕ, zero, suc, ◌+◌, ◌-◌, ◌≤◌, ◌<◌, ◌≡◌, refl, Bool, true, false, not, ◌&&◌, arith,
}
use study_notes.Base.Int.{ℤ, ◌-ℤ◌, pos}
use study_notes.Exchange.Calendar.{ib}
use study_notes.Exchange.Dates.{Dates, ClearSpeed, days_of, open_on, Follows}
use study_notes.Exchange.Ib.{OutrightRepo, convert_days_to_enum}

-- The calendar `c` is closed on the `n` days from `s` on.
abbrev pub closed_for : (ℕ → Bool) → ℕ → ℕ → Bool
closed_for c s zero = true
closed_for c s (suc n) = not (c s) && closed_for c (s + 1) n

closed_for-first :
    (c : ℕ → Bool) (s n : ℕ) → ((u : ℕ) → s ≤ u → u < s + n → c u ≡ false) → closed_for c s n ≡ true
closed_for-first c s zero h = refl
closed_for-first c s (suc n) h =
    let now = h s (omega arith) (omega arith) in
    rw now (closed_for-first c (s + 1) n (λ u a b. h u (omega arith) (omega arith)))

module _ (dates : Dates) where
  unfoldable pub calc_first_settlement_date : ℕ → ClearSpeed → ℕ
  calc_first_settlement_date trade_date speed =
      dates.adjust (open_on dates ib) (trade_date + days_of speed)

  unfoldable pub calc_expire_settlement_date : ℕ → ℕ → ℕ
  calc_expire_settlement_date first_settlement_date repo_days =
      dates.adjust (open_on dates ib) (first_settlement_date + repo_days)

  abbrev pub get_inner_bank_kind : ℕ → OutrightRepo
  get_inner_bank_kind days = convert_days_to_enum days

  unfoldable pub capital_occupation_days : ℕ → ℕ → ClearSpeed → ℤ
  unfolding calc_first_settlement_date calc_expire_settlement_date
  capital_occupation_days trade_date repo_days speed =
      let first_settlement_date = calc_first_settlement_date trade_date speed in
      let expired_date = calc_expire_settlement_date first_settlement_date repo_days in
      pos expired_date -ℤ pos first_settlement_date

  -- Where `adjust` follows QuantLib's documentation on the interbank calendar: the money of an
  -- outright repo is occupied for its days and the days without business behind them, up to the
  -- next business day.
  pub outright_occupation :
      Follows dates (open_on dates ib)
      → (trade_date repo_days : ℕ) (speed : ClearSpeed)
      → (late : ℕ) × (capital_occupation_days trade_date repo_days speed ≡ pos (repo_days + late))
        × (open_on dates ib (calc_first_settlement_date trade_date speed + repo_days + late) ≡ true)
        × (closed_for
              (open_on dates ib)
              (calc_first_settlement_date trade_date speed + repo_days)
              late
            ≡ true)
  unfolding capital_occupation_days calc_first_settlement_date calc_expire_settlement_date
  outright_occupation follows trade_date repo_days speed =
      let due = dates.adjust (open_on dates ib) (trade_date + days_of speed) + repo_days in
      let paid = dates.adjust (open_on dates ib) due in
      let back : due + (paid - due) ≡ paid = omega (arith, follows.onward due) in
      (
        paid - due,
        ground (arith, follows.onward due),
        rw back (follows.is_open due),
        closed_for-first (open_on dates ib) due (paid - due)
            (λ u a b. follows.first due u a (omega arith)),
      )
