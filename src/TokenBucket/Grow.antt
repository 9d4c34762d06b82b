-- ===== src/TokenBucket/Grow.antt =====
-- What a stream may hand out: never more than it held and what has grown since.
use aiokpl.Common.{ℕ, ◌+◌, ◌-◌, ◌*◌, ◌≤◌, ◌<◌, ◌≡◌, refl, arith, ltb, ap, ◌∙◌, Bool-cases, inl, inr}
use native.Mathlib.Decide.{dec_lt}
use aiokpl.TokenBucket.{tokens, Stream, grow, debit}

-- Between `s` and `t` the stream handed out `n` tokens.
pub record Paid (s t : Stream) (n : ℕ) : Type 0 where
  pub elapsed : ℕ
  pub same_rate : t.rate ≡ s.rate
  pub same_max : t.max_tokens ≡ s.max_tokens
  pub later : t.last ≡ s.last + elapsed
  pub within : t.level + n ≤ s.level + s.rate * elapsed

pub Paid-refl : (s : Stream) → Paid s s 0
Paid-refl s = record {
  elapsed = 0;
  same_rate = refl;
  same_max = refl;
  later = omega arith;
  within = omega arith;
}

pub Paid-trans : (s t u : Stream) (n m : ℕ) → Paid s t n → Paid t u m → Paid s u (n + m)
Paid-trans s t u n m p q =
    let e : t.rate * q.elapsed ≡ s.rate * q.elapsed = ap (λ r. r * q.elapsed) p.same_rate in
    record {
      elapsed = p.elapsed + q.elapsed;
      same_rate = q.same_rate ∙ p.same_rate;
      same_max = q.same_max ∙ p.same_max;
      later = omega (arith, p.later, q.later);
      within = omega (arith, p.within, q.within, e);
    }

grown_later : (r n l : ℕ) → 0 < r * (n - l) → l < n
grown_later r n l h = elim (dec_lt l n) [
  | yes p ↦ p
  | no p ↦ let z : n - l ≡ 0 = omega arith in absurd (omega (arith, ap (λ t. r * t) z))
]

pub grow-Paid : (now : ℕ) (s : Stream) → Paid s (grow now s) 0
unfolding grow
grow-Paid now s = elim (Bool-cases (ltb 0 (s.rate * (now - s.last)))) [
  | inl more ↦
      rw (more, grow)
        (let h : s.last < now = grown_later s.rate now s.last (ground arith) in
          record {
            elapsed = now - s.last;
            same_rate = refl;
            same_max = refl;
            later = omega arith;
            within = omega arith;
          })
  | inr none_grew ↦ rw (none_grew, grow) (Paid-refl s)
]

pub debit-Paid : (n : ℕ) (s : Stream) → n ≤ s.level → Paid s (debit (tokens n) s) n
debit-Paid n s h = record {
  elapsed = 0;
  same_rate = refl;
  same_max = refl;
  later = omega arith;
  within = omega arith;
}
