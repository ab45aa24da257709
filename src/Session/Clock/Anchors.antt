-- ===== src/Session/Clock/Anchors.antt =====
-- The anchors of sc-capture/internal/session/clock.go over any sequence of `Tick` and `Close`.
use star_konflict.Base.{
  ℕ, ◌-◌, ◌≤◌, true, List, [], ◌∷◌, ◌++◌, All, leb, ◌≡◌, refl, sym, ap, arith, Bool-cases, inl, inr,
}
use mathlib.Core.Path.{subst, subst₂}
use star_konflict.Base.Int.{pos, ◌-ℤ◌}
use star_konflict.Session.Clock.{
  Anchor, AnchorKind, end, periodic, step_detected, Clock, Reading, new_clock, since_start,
  add_anchor, is_step, tick_periodic, tick, ends_closed, close, anchor_interval,
}

-- No anchor stands before one with an earlier monotonic time.
abbrev pub Rising : List Anchor → Type 0
Rising [] = Unit {0}
Rising (a ∷ as') = All (λ b. a.mono ≤ b.mono) as' × Rising as'

abbrev UpTo : ℕ → List Anchor → Type 0
UpTo t = All (λ a. a.mono ≤ t)

-- The anchors rise and none is later than the monotonic reading t.
record IsTimed (c : Clock) (t : ℕ) : Type 0 where
  rising : Rising c.anchors
  bounded : UpTo (t - c.start) c.anchors

All-append_one :
    (m : ℕ) (as' : List Anchor) (b : Anchor)
    → All (λ a. m ≤ a.mono) as'
    → m ≤ b.mono
    → All (λ a. m ≤ a.mono) (as' ++ b ∷ [])
All-append_one m [] b h p = (p, tt)
All-append_one m (a ∷ as') b h p = (h.0, All-append_one m as' b h.1 p)

Rising-append :
    (t : ℕ) (as' : List Anchor) (b : Anchor)
    → Rising as'
    → UpTo t as'
    → t ≤ b.mono
    → Rising (as' ++ b ∷ [])
Rising-append t [] b r u h = (tt, tt)
Rising-append t (a ∷ as') b r u h =
    (All-append_one a.mono as' b r.0 (omega (arith, u.0)), Rising-append t as' b r.1 u.1 h)

UpTo-append :
    (t v : ℕ) (as' : List Anchor) (b : Anchor)
    → UpTo t as'
    → t ≤ v
    → b.mono ≤ v
    → UpTo v (as' ++ b ∷ [])
UpTo-append t v [] b u h p = (p, tt)
UpTo-append t v (a ∷ as') b u h p = (omega (arith, u.0), UpTo-append t v as' b u.1 h p)

UpTo-later : (t v : ℕ) (as' : List Anchor) → UpTo t as' → t ≤ v → UpTo v as'
UpTo-later t v [] u h = tt
UpTo-later t v (a ∷ as') u h = (omega (arith, u.0), UpTo-later t v as' u.1 h)

-- A clock whose anchors are the old ones, or the old ones and one at the reading v.
later-IsTimed :
    (c : Clock) (t v : ℕ) {d : Clock}
    → IsTimed c t
    → t ≤ v
    → d.start ≡ c.start
    → d.anchors ≡ c.anchors
    → IsTimed d v
later-IsTimed c t v {d} i h s e = record {
  rising = subst Rising (sym e) i.rising;
  bounded =
      subst₂ UpTo (ap (λ k. v - k) (sym s)) (sym e)
        (UpTo-later (t - c.start) (v - c.start) c.anchors i.bounded (omega arith));
}

added-IsTimed :
    (c : Clock) (t v wall : ℕ) (kind : AnchorKind) {d : Clock}
    → IsTimed c t
    → t ≤ v
    → d.start ≡ c.start
    → d.anchors ≡ c.anchors ++ record { wall = wall; mono = v - c.start; kind = kind } ∷ []
    → IsTimed d v
added-IsTimed c t v wall kind {d} i h s e = record {
  rising =
      subst Rising (sym e)
        (Rising-append (t - c.start) c.anchors _ i.rising i.bounded (omega arith));
  bounded =
      subst₂ UpTo (ap (λ k. v - k) (sym s)) (sym e)
        (UpTo-append (t - c.start) (v - c.start) c.anchors _ i.bounded (omega arith) (omega arith));
}

periodic-IsTimed :
    (c : Clock) (now : Reading) (t second later : ℕ)
    → IsTimed c t
    → t ≤ second
    → IsTimed (tick_periodic c now (second - c.start) later) second
unfolding tick_periodic add_anchor
periodic-IsTimed c now t second later i h =
    elim (Bool-cases (leb anchor_interval (later - c.last_tick))) [
      | inl y ↦ rw y (added-IsTimed c t second now.wall periodic i h refl refl)
      | inr u ↦ rw u (later-IsTimed c t second i h refl refl)
    ]

tick-IsTimed :
    (c : Clock) (now : Reading) (t second later : ℕ)
    → IsTimed c t
    → t ≤ second
    → IsTimed (tick c now second later).0 second
unfolding tick add_anchor since_start
tick-IsTimed c now t second later i h =
    elim (Bool-cases
      (is_step (((pos now.wall -ℤ pos c.start_wall) -ℤ pos (second - c.start)) -ℤ c.last_delta))) [
        | inl y ↦ rw y (added-IsTimed c t second now.wall step_detected i h refl refl)
        | inr u ↦ rw u (
            periodic-IsTimed (record c { last_delta = _ }) now t second later
              (record { rising = i.rising; bounded = i.bounded }) h)
      ]

close-IsTimed :
    (c : Clock) (wall t second : ℕ)
    → IsTimed c t
    → t ≤ second
    → IsTimed (close c wall second) second
unfolding close add_anchor since_start
close-IsTimed c wall t second i h = elim (Bool-cases (ends_closed c.anchors)) [
  | inl y ↦ rw y (later-IsTimed c t second i h refl refl)
  | inr u ↦ rw u (added-IsTimed c t second wall end i h refl refl)
]

-- A call, with its readings of the clocks.
pub data Call : Type 0 where
  ticked : Reading → ℕ → ℕ → Call
  closed : ℕ → ℕ → Call

abbrev pub run : Clock → List Call → Clock
run c [] = c
run c (ticked now second later ∷ cs) = run (tick c now second later).0 cs
run c (closed wall second ∷ cs) = run (close c wall second) cs

-- The monotonic clock never runs back, from the reading t on.
abbrev pub InOrder : ℕ → List Call → Type 0
InOrder t [] = Unit {0}
InOrder t (ticked now second later ∷ cs) = (t ≤ second) × InOrder second cs
InOrder t (closed wall second ∷ cs) = (t ≤ second) × InOrder second cs

run-Rising :
    (cs : List Call) (c : Clock) (t : ℕ) → IsTimed c t → InOrder t cs → Rising (run c cs).anchors
run-Rising [] c t i o = i.rising
run-Rising (ticked now second later ∷ cs) c t i o =
    run-Rising cs (tick c now second later).0 second (tick-IsTimed c now t second later i o.0) o.1
run-Rising (closed wall second ∷ cs) c t i o =
    run-Rising cs (close c wall second) second (close-IsTimed c wall t second i o.0) o.1

-- Whatever the wall clock does, if the monotonic clock never runs back from the start of the
-- session on, then after any calls of `Tick` and `Close` the anchors stand in the order of their
-- monotonic times.
pub anchors-Rising :
    (now : Reading) (cs : List Call) → InOrder now.mono cs → Rising (run (new_clock now) cs).anchors
anchors-Rising now cs o = run-Rising cs (new_clock now) now.mono first o
  where
    first : IsTimed (new_clock now) now.mono
    first = unfold new_clock in record { rising = (tt, tt); bounded = (omega arith, tt) }

ends_closed-append :
    (as' : List Anchor) (wall mono : ℕ)
    → ends_closed (as' ++ record { wall = wall; mono = mono; kind = end } ∷ []) ≡ true
unfolding ends_closed
ends_closed-append [] wall mono = refl
ends_closed-append (a ∷ []) wall mono = refl
ends_closed-append (a ∷ b ∷ as') wall mono = ends_closed-append (b ∷ as') wall mono

-- A second call of `Close` changes nothing, whatever the clocks read.
pub close-close :
    (c : Clock) (wall second later_wall later : ℕ)
    → close (close c wall second) later_wall later ≡ close c wall second
close-close c wall second later_wall later = by_closed (close c wall second) closed_now
  where
    by_closed : (d : Clock) → ends_closed d.anchors ≡ true → close d later_wall later ≡ d
    by_closed d h = unfold close in rw h

    closed_now : ends_closed (close c wall second).anchors ≡ true
    closed_now = elim (Bool-cases (ends_closed c.anchors)) [
      | inl y ↦ unfold close in rw (y, y)
      | inr u ↦ unfold close add_anchor in rw u (ends_closed-append c.anchors wall _)
    ]
