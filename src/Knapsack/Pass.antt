-- ===== src/Knapsack/Pass.antt =====
-- One pass of `zero_one_pack` in place is one relaxation of the whole table at once.
use study_notes.Base.{ℕ, zero, suc, ◌-◌, ◌≤◌, ◌<◌, ◌≡◌, ◌&&◌, arith, leb, ◌==◌, if◌then◌else◌}
use study_notes.Base.Int.{pos, ◌+ℤ◌, ltb_ℤ, leb_ℤ}
use study_notes.Knapsack.{Cell, Table, pack_body, pack_loop, zero_one_pack}

-- What one receipt does to the cell at `v`, read off the table before the pass.
unfoldable pub relax : ℕ → Table → ℕ → Cell
relax cost dp v =
    let sum = (dp (v - cost)).value +ℤ pos cost in
    if leb cost v && (leb_ℤ (pos 0) (dp (v - cost)).value && ltb_ℤ (dp v).value sum)
    then record { value = sum; select_value = pos cost }
    else dp v

relax-lt : (cost v : ℕ) (dp : Table) → v < cost → relax cost dp v ≡ dp v
unfolding relax
relax-lt cost v dp h = ground arith

-- A relaxed cell is decided by the cells at and below it.
relax_local :
    (cost v : ℕ) (dp dp' : Table)
    → dp' v ≡ dp v
    → dp' (v - cost) ≡ dp (v - cost)
    → relax cost dp' v ≡ relax cost dp v
unfolding relax
relax_local cost v dp dp' e f = rw (e, f)

-- The body at `v` relaxes `v` and leaves the other cells alone.
pack_body-relax :
    (cost v w : ℕ) (dp : Table)
    → cost ≤ v
    → pack_body cost v dp w ≡ (if w == v then relax cost dp v else dp w)
unfolding pack_body relax
pack_body-relax cost v w dp h = ground arith

pack_loop-relax :
    (cost v w : ℕ) (dp : Table)
    → 0 < cost
    → pack_loop cost v dp w ≡ (if leb w v then relax cost dp w else dp w)
unfolding pack_loop
pack_loop-relax cost zero w dp h = ground (arith, relax-lt cost w dp)
pack_loop-relax cost (suc v) w dp h =
    let after : Table = pack_body cost (suc v) dp in
    ground (
      arith,
      relax-lt cost w dp,
      pack_loop-relax cost v w (pack_body cost (suc v) dp) h,
      pack_body-relax cost (suc v) w dp,
      pack_body-relax cost (suc v) (w - cost) dp,
      relax_local cost w dp (pack_body cost (suc v) dp),
    )

-- For a positive cost, a pass over a table in place relaxes every cell up to `max_v` by the cells of
-- the table before the pass, and writes nothing above it.
pub zero_one_pack-relax :
    (max_v cost w : ℕ) (dp : Table)
    → 0 < cost
    → zero_one_pack max_v cost dp w ≡ (if leb w max_v then relax cost dp w else dp w)
unfolding zero_one_pack
zero_one_pack-relax max_v cost w dp h = pack_loop-relax cost max_v w dp h
