-- ===== src/Text/Decimal.antt =====
-- Numbers in texts: what is printed is read back.
use actinium_actor.Prelude.{
  ℕ, zero, suc, ◌+◌, ◌/◌, ◌%◌, ◌^◌, ◌≤◌, ◌<◌, ◌≡◌, ◌∙◌, subst, true, some, [], ◌∷◌, ltb, arith,
  Bool-cases, inl, inr,
}
use actinium_actor.Text.{Text, digits, show, scan, scan_digits, parse_u64}

-- The last digit of a number, read after the others.
scan_last : (n : ℕ) (after : Text) → scan ((b'0' + n % 10) ∷ after) (n / 10) ≡ scan after n
unfolding scan
scan_last n after = ground arith

no_tens : (n : ℕ) → ltb n 10 ≡ true → n / 10 ≡ 0
no_tens n small = ground arith

scan-digits : (fuel n : ℕ) (after : Text) → n < fuel → scan (digits fuel n after) 0 ≡ scan after n
unfolding digits
scan-digits zero n after lt = absurd (omega arith)
scan-digits (suc fuel) n after lt = elim (Bool-cases (ltb n 10)) [
  | inl small ↦ rw small (
      subst (λ q. scan ((b'0' + n % 10) ∷ after) q ≡ scan after n) (no_tens n small)
        (scan_last n after))
  | inr large ↦
      rw large
        (scan-digits fuel (n / 10) ((b'0' + n % 10) ∷ after) (ground arith) ∙ scan_last n after)
]

-- A printed number is digits: it is not empty and has no sign.
digits-head :
    (fuel n : ℕ) (after : Text)
    → (c : ℕ) × (s : Text) × (digits (suc fuel) n after ≡ c ∷ s) × (b'0' ≤ c)
unfolding digits
digits-head zero n after = elim (Bool-cases (ltb n 10)) [
  | inl small ↦ (b'0' + n % 10, after, rw small, omega arith)
  | inr large ↦ (b'0' + n % 10, after, rw large, omega arith)
]
digits-head (suc fuel) n after = elim (Bool-cases (ltb n 10)) [
  | inl small ↦ (b'0' + n % 10, after, rw small, omega arith)
  | inr large ↦
      let (c, s, e, h) = digits-head fuel (n / 10) ((b'0' + n % 10) ∷ after) in
      (c, s, rw large e, h)
]

parse_u64-scan : (c : ℕ) (s : Text) → b'0' ≤ c → parse_u64 (c ∷ s) ≡ scan (c ∷ s) 0
unfolding parse_u64 scan_digits
parse_u64-scan c s h = ground arith

scan_end : (n : ℕ) → n < 2 ^ 64 → scan [] n ≡ some n
unfolding scan
scan_end n lt = ground arith

-- Every number below 2^64 is read back from its print.
pub parse_u64-show : (n : ℕ) → n < 2 ^ 64 → parse_u64 (show n) ≡ some n
unfolding show
parse_u64-show n lt =
    let (c, s, e, h) = digits-head n n [] in
    rw e (parse_u64-scan c s h ∙ rw (← e) (scan-digits (suc n) n [] (omega arith) ∙ scan_end n lt))
