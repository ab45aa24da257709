-- ===== src/Session/Clock.antt =====
-- sc-capture/internal/session/clock.go. Each call of the operating system's clock is an argument:
-- `time.Now()` has a wall reading and a monotonic one, `time.Since` only uses the latter. All are
-- numbers of nanoseconds, and no difference of two leaves an int64.
pub mod Anchors
use star_konflict.Base.{
  ℕ, ◌+◌, ◌-◌, Bool, true, false, ◌||◌, List, [], ◌∷◌, ◌++◌, ltb, leb, if◌then◌else◌,
}
use star_konflict.Base.Int.{ℤ, pos, negsuc, ◌-ℤ◌, ltb_ℤ}

pub data AnchorKind : Type 0 where
  start periodic step_detected end : AnchorKind

pub record Anchor : Type 0 where
  pub wall : ℕ
  pub mono : ℕ
  pub kind : AnchorKind

-- `30 * time.Second` and `time.Second`.
abbrev pub anchor_interval : ℕ
anchor_interval = 30000000000

abbrev pub step_threshold : ℕ
step_threshold = 1000000000

pub record Clock : Type 0 where
  pub start : ℕ
  pub start_wall : ℕ
  pub anchors : List Anchor
  pub last_delta : ℤ
  pub last_tick : ℕ

-- A reading of `time.Now()`.
pub record Reading : Type 0 where
  pub wall : ℕ
  pub mono : ℕ

unfoldable pub new_clock : Reading → Clock
new_clock now = record {
  start = now.mono;
  start_wall = now.wall;
  anchors = record { wall = now.wall; mono = 0; kind = start } ∷ [];
  last_delta = pos 0;
  last_tick = now.mono;
}

-- `time.Since(c.start)` at a monotonic reading.
unfoldable pub since_start : Clock → ℕ → ℕ
since_start c mono = mono - c.start

unfoldable pub add_anchor : Clock → ℕ → ℕ → AnchorKind → Clock
add_anchor c wall mono kind = record c {
  anchors = c.anchors ++ record { wall = wall; mono = mono; kind = kind } ∷ [];
}

-- `d > StepThreshold || d < -StepThreshold`.
unfoldable pub is_step : ℤ → Bool
is_step d = ltb_ℤ (pos step_threshold) d || ltb_ℤ d (pos 0 -ℤ pos step_threshold)

-- `if time.Since(c.lastTick) >= AnchorInterval`, at the reading `later`.
unfoldable pub tick_periodic : Clock → Reading → ℕ → ℕ → Clock
tick_periodic c now mono later =
    if leb anchor_interval (later - c.last_tick)
    then record (add_anchor c now.wall mono periodic) { last_tick = now.mono }
    else c

-- `Tick` with its three readings: `time.Now()`, `time.Since(c.start)`, `time.Since(c.lastTick)`.
unfoldable pub tick : Clock → Reading → ℕ → ℕ → Clock × Bool
tick c now second later =
    let mono = since_start c second in
    let delta = (pos now.wall -ℤ pos c.start_wall) -ℤ pos mono in
    if is_step (delta -ℤ c.last_delta)
    then (
      record (add_anchor c now.wall mono step_detected) {
        last_delta = delta;
        last_tick = now.mono;
      },
      true,
    )
    else (tick_periodic (record c { last_delta = delta }) now mono later, false)

unfoldable pub ends_closed : List Anchor → Bool
ends_closed [] = false
ends_closed (a ∷ []) = elim a.kind [
  | end ↦ true
  | start ↦ false
  | periodic ↦ false
  | step_detected ↦ false
]
ends_closed (_ ∷ b ∷ as') = ends_closed (b ∷ as')

-- `Close` with its readings of the wall and the monotonic clock.
unfoldable pub close : Clock → ℕ → ℕ → Clock
close c wall second =
    if ends_closed c.anchors then c else add_anchor c wall (since_start c second) end
