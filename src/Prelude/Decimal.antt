-- ===== src/Prelude/Decimal.antt =====
-- `%d` of a number.
use mathlib.Core.Logic.{dite}
use mathlib.Core.WellFounded.{Acc, WellFounded}
use native.Mathlib.Decide.{dec_lt}
use Prim.Native.Nat.{ℕ, zero, suc, ◌+◌, ◌-◌, ◌*◌, ◌/◌, ◌%◌, ◌<◌}
use mathlib.Core.Path.{◌≡◌, refl, ap, ◌∙◌}
use mathlib.Core.Option.{Option, some, none}
use mathlib.Core.Logic.{◌≢◌}
use mathlib.Core.Bool.{◌&&◌}
use mathlib.Core.List.{[], ◌∷◌}
use native.Mathlib.Omega.{arith}
use streaming_bot.Prelude.Tests.{leb, ◌==◌, if◌then◌else◌}
use streaming_bot.Prelude.Strings.{Text, text}
use streaming_bot.Prelude.Int.{ℤ, pos, negsuc}

Acc-below : (k n : ℕ) → n < k → Acc ◌<◌ n
Acc-below zero n h = absurd (omega arith)
Acc-below (suc k) n h = Acc.intro n λ m lt. Acc-below k m (omega arith)

lt_wf : WellFounded ◌<◌
unfolding Acc-below
lt_wf = record { apply = λ n. Acc-below (suc n) n (omega arith) }

tenth-lt : (n : ℕ) → 0 < n → n / 10 < n
tenth-lt n h = omega arith

-- The digits of `n`, in front of `out`.
digits : (n : ℕ) → Acc ◌<◌ n → Text → Text
digits n (Acc.intro _ smaller) out =
    dite (dec_lt 0 n)
      (λ h. digits (n / 10) (smaller (n / 10) (tenth-lt n h)) ((b'0' + n % 10) ∷ out)) (λ _. out)

unfoldable pub decimal : ℕ → Text
unfolding digits lt_wf dec_lt tenth-lt
decimal n = if n == 0 then b'0' ∷ [] else digits n (lt_wf.apply n) []

unfoldable pub decimal_ℤ : ℤ → Text
unfolding decimal
decimal_ℤ (pos n) = decimal n
decimal_ℤ (negsuc n) = b'-' ∷ decimal (suc n)

decimal_test : decimal 1203 ≡ text "1203"
unfolding decimal
decimal_test = refl

-- The number that the digits make after `n`; `none` at any other character.
unfoldable pub digits_from : ℕ → Text → Option ℕ
digits_from n [] = some n
digits_from n (c ∷ s) =
    let rest = digits_from (n * 10 + (c - b'0')) s in
    if leb b'0' c && leb c b'9' then rest else none

digits_from-step :
    (n : ℕ) (out : Text) → digits_from (n / 10) ((b'0' + n % 10) ∷ out) ≡ digits_from n out
unfolding digits_from
digits_from-step n out =
    let same : n / 10 * 10 + (b'0' + n % 10 - b'0') ≡ n = omega arith in
    ground (arith, ap (λ m. digits_from m out) same)

digits_from-dite :
    (n : ℕ) (d : Dec (0 < n)) (f : 0 < n → Text) (out : Text)
    → ((h : 0 < n) → digits_from 0 (f h) ≡ digits_from n out)
    → digits_from 0 (dite d f (λ _. out)) ≡ digits_from n out
digits_from-dite n (yes h) f out same = same h
digits_from-dite n (no h) f out same = ap (λ m. digits_from m out) (omega arith)

digits_from-digits :
    (n : ℕ) (a : Acc ◌<◌ n) (out : Text) → digits_from 0 (digits n a out) ≡ digits_from n out
unfolding digits
digits_from-digits n (Acc.intro _ smaller) out = digits_from-dite n (dec_lt 0 n) _ out λ h.
    digits_from-digits (n / 10) (smaller (n / 10) (tenth-lt n h)) ((b'0' + n % 10) ∷ out)
    ∙ digits_from-step n out

decimal-suc : (n : ℕ) → decimal (suc n) ≡ digits (suc n) (lt_wf.apply (suc n)) []
unfolding decimal
decimal-suc n = ground arith

-- The decimal text of a number reads as the number.
pub digits_from-decimal : (n : ℕ) → digits_from 0 (decimal n) ≡ some n
unfolding decimal digits_from
digits_from-decimal zero = refl
digits_from-decimal (suc n) =
    ap (digits_from 0) (decimal-suc n) ∙ digits_from-digits (suc n) (lt_wf.apply (suc n)) []

digits-nonempty : (n : ℕ) (s : Text) → 0 < n → digits_from 0 s ≡ some n → s ≢ []
unfolding digits_from
digits-nonempty n s h e x = ground arith

-- It has a digit.
pub decimal-nonempty : (n : ℕ) → decimal n ≢ []
unfolding decimal
decimal-nonempty zero e = cc
decimal-nonempty (suc n) e =
    digits-nonempty (suc n) (decimal (suc n)) (omega arith) (digits_from-decimal (suc n)) e
