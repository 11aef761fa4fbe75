-- ===== src/Js/Text/Decimal.antt =====
-- A number printed in decimal is read back.
use tropek.Prelude.{
  ℕ, zero, suc, ◌+◌, ◌*◌, ◌/◌, ◌%◌, ◌<◌, ◌≡◌, refl, ap, ◌∙◌, inl, inr, some, arith, ltb, Bool-cases,
  ltb→lt,
}
use tropek.Js.Text.{decimal}
use tropek.Js.Text.{digit, decimal_from}
use tropek.Js.Digits.{
  digits_from, digits_value, is_digit, digits_from-append, digits_value-digits_from,
}

digits_from-digit : (n v : ℕ) → n < 10 → digits_from v (digit n) ≡ some (v * 10 + n)
unfolding digit digits_from is_digit
digits_from-digit zero v h = ap some (omega arith)
digits_from-digit (suc zero) v h = ap some (omega arith)
digits_from-digit (suc (suc zero)) v h = ap some (omega arith)
digits_from-digit (suc (suc (suc zero))) v h = ap some (omega arith)
digits_from-digit (suc (suc (suc (suc zero)))) v h = ap some (omega arith)
digits_from-digit (suc (suc (suc (suc (suc zero))))) v h = ap some (omega arith)
digits_from-digit (suc (suc (suc (suc (suc (suc zero)))))) v h = ap some (omega arith)
digits_from-digit (suc (suc (suc (suc (suc (suc (suc zero))))))) v h = ap some (omega arith)
digits_from-digit (suc (suc (suc (suc (suc (suc (suc (suc zero)))))))) v h = ap some (omega arith)
digits_from-digit (suc (suc (suc (suc (suc (suc (suc (suc (suc zero))))))))) v h =
    ap some (omega arith)
digits_from-digit (suc (suc (suc (suc (suc (suc (suc (suc (suc (suc n)))))))))) v h =
    absurd (omega arith)

digits_from-decimal_from : (fuel n : ℕ) → n < fuel → digits_from 0 (decimal_from fuel n) ≡ some n
unfolding decimal_from
digits_from-decimal_from zero n h = absurd (omega arith)
digits_from-decimal_from (suc fuel) n h = elim (Bool-cases (ltb n 10)) [
  | inl b ↦ rw b (digits_from-digit n 0 (ltb→lt n 10 b) ∙ ap some (omega arith))
  | inr b ↦
      let front = digits_from-decimal_from fuel (n / 10) (ground (arith, b)) in
      rw (b, digits_from-append (decimal_from fuel (n / 10)) (digit (n % 10)) 0, front)
        (digits_from-digit (n % 10) (n / 10) (omega arith) ∙ ap some (omega arith))
]

-- Reading a number that was printed gives that number.
pub digits_from-decimal : (n : ℕ) → digits_from 0 (decimal n) ≡ some n
unfolding decimal
digits_from-decimal n = digits_from-decimal_from (suc n) n (omega arith)

pub digits_value-decimal : (n : ℕ) → digits_value (decimal n) ≡ some n
unfolding digits_value decimal digits_from is_digit decimal_from digit
digits_value-decimal zero = refl
digits_value-decimal (suc n) =
    digits_value-digits_from (decimal (suc n)) n (digits_from-decimal (suc n))
