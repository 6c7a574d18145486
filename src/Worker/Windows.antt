-- ===== src/Worker/Windows.antt =====
-- The windows that the planner asks for.
use hz.Prelude.{
  ℕ, ◌+◌, ◌-◌, ◌≤◌, ◌<◌, ◌≡◌, ◌⊎◌, inl, inr, max, min, Option, none, some, arith, ok, leb,
  Bool-cases, refl,
}
use hz.Time.{aware}
use hz.Worker.{
  PollSchedule, IngestionCheckpoint, ObservationWindow, build_schedule, incremental_window,
  known_end, build_window, wanted_start,
}

-- what `build_schedule` has checked
pub record IsSchedule (s : PollSchedule) : Type 0 where
  pub overlap_pos : 0 < s.overlap
  pub initial_pos : 0 < s.initial_lookback
  pub reconcile_pos : 0 < s.reconcile_lookback
  pub overlap_short : s.overlap < s.max_incremental_lookback

pub build_schedule-IsSchedule : (s : PollSchedule) → build_schedule s ≡ ok s → IsSchedule s
unfolding build_schedule
build_schedule-IsSchedule s h = record {
  overlap_pos = ground arith;
  initial_pos = ground arith;
  reconcile_pos = ground arith;
  overlap_short = ground arith;
}

module _ (s : PollSchedule) (valid : build_schedule s ≡ ok s) where
  -- A window ends now, is not empty, and reaches back no further than the longest lookback. With a
  -- checkpoint that is not in the future it leaves no gap to the window before, unless that lies
  -- beyond the longest lookback.
  pub incremental_window_bounds :
      (checkpoint : Option IngestionCheckpoint) (now : ℕ) (w : ObservationWindow)
      → incremental_window s checkpoint (aware now) ≡ ok w
      → (w.end ≡ now)
        × (w.start < w.end)
        × (now ≤ w.start + s.max_incremental_lookback)
        × ((end : ℕ)
            → known_end checkpoint ≡ some end
            → end ≤ now
            → (w.start < end) ⊎ (w.start + s.max_incremental_lookback ≡ now))
  unfolding incremental_window build_window
  incremental_window_bounds checkpoint now w h =
      let v = build_schedule-IsSchedule s valid in
      (ground arith, ground arith, ground arith, λ end known past. ground arith)

  wanted_start_total :
      (end : Option ℕ) (now : ℕ)
      → s.initial_lookback ≤ now
      → ((e : ℕ) → end ≡ some e → s.overlap ≤ e)
      → (t : ℕ) × (wanted_start s end now ≡ ok t)
  unfolding wanted_start
  wanted_start_total none now initial old = (now - s.initial_lookback, ground arith)
  wanted_start_total (some e) now initial old =
      let enough = old e refl in (e - s.overlap, ground arith)

  -- From the longest and the first lookback on, counted from the first instant of all, the planner
  -- returns a window for every checkpoint that is as late as the overlap.
  pub incremental_window_total :
      (checkpoint : Option IngestionCheckpoint) (now : ℕ)
      → s.max_incremental_lookback ≤ now
      → s.initial_lookback ≤ now
      → ((end : ℕ) → known_end checkpoint ≡ some end → s.overlap ≤ end)
      → (w : ObservationWindow) × (incremental_window s checkpoint (aware now) ≡ ok w)
  unfolding incremental_window build_window
  incremental_window_total checkpoint now late initial old =
      let v = build_schedule-IsSchedule s valid in
      let (t, e) = wanted_start_total (known_end checkpoint) now initial old in
      let start = max t (now - s.max_incremental_lookback) in
      elim (Bool-cases (leb now start)) [
        | inl skewed ↦ (
          record { start = now - min s.initial_lookback s.overlap; end = now },
          rw e (ground arith),
        )
        | inr usual ↦ (record { start = start; end = now }, rw e (ground arith))
      ]
