-- ===== src/Time.antt =====
-- Times and deadlines. A time is a whole number of microseconds; a deadline may be `inf`.
use aiokpl.Common.{ℕ, ◌-◌, ◌≡◌, Bool, true, false, arith, leb, min}

pub data Deadline : Type 0 where
  at : ℕ → Deadline
  never : Deadline

-- `a <= b`
abbrev pub not_later : Deadline → Deadline → Bool
not_later (at a) (at b) = leb a b
not_later (at a) never = true
not_later never (at b) = false
not_later never never = true

-- `min(a, b)`
abbrev pub earlier : Deadline → Deadline → Deadline
earlier (at a) (at b) = at (min a b)
earlier (at a) never = at a
earlier never b = b

-- `max(0.0, deadline - now)`
abbrev pub delay_until : Deadline → ℕ → Deadline
delay_until (at d) now = at (d - now)
delay_until never now = never

pub not_later_trans :
    (a b c : Deadline) → not_later a b ≡ true → not_later b c ≡ true → not_later a c ≡ true
not_later_trans (at a) (at b) (at c) h k = ground arith
not_later_trans (at a) (at b) never h k = ground arith
not_later_trans (at a) never (at c) h k = cc k
not_later_trans (at a) never never h k = ground arith
not_later_trans never (at b) c h k = cc h
not_later_trans never never (at c) h k = cc k
not_later_trans never never never h k = h

pub not_later_total : (a b : Deadline) → not_later a b ≡ false → not_later b a ≡ true
not_later_total (at a) (at b) h = ground arith
not_later_total (at a) never h = cc h
not_later_total never (at b) h = ground arith
not_later_total never never h = cc h
