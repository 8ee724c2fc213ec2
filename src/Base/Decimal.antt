-- ===== src/Base/Decimal.antt =====
-- `str` of an integer, as an f-string writes it.
use Prim.Native.Char.{Char, code}
use Prim.Native.String.{[], ◌∷◌, ◌++◌ as ◌<>◌, char_at}
use Prim.Native.Nat.{ℕ, zero, suc, ◌+◌, ◌-◌, ◌*◌, ◌/◌, ◌%◌, ◌≤◌, ◌<◌}
use Prim.Native.String.{String}
use mathlib.Core.Path.{◌≡◌, refl, sym, ◌∙◌, ap, subst}
use mathlib.Core.Logic.{◌≢◌, inl, inr}
use native.Mathlib.Omega.{arith}
use text.Mathlib.TextLemmas.{cons-append, nil-append}
use streaming_fpuna_proyecto.Base.Tests.{ltb, if◌then◌else◌, Bool-cases}
use streaming_fpuna_proyecto.Base.Int.{ℤ, pos, negsuc}

-- the character of a digit
digit : ℕ → Char
digit d = char_at "0123456789" d

-- `n` in front of `acc`, digit by digit; more fuel than `n` is enough
decimal_from : ℕ → ℕ → String → String
unfolding digit
decimal_from zero n acc = acc
decimal_from (suc fuel) n acc =
    let rest = decimal_from fuel (n / 10) (digit (n % 10) ∷ acc) in
    if ltb n 10 then digit (n % 10) ∷ acc else rest

unfoldable pub decimal : ℕ → String
unfolding decimal_from
decimal n = decimal_from (suc n) n ""

unfoldable pub decimal_ℤ : ℤ → String
unfolding decimal
decimal_ℤ (pos n) = decimal n
decimal_ℤ (negsuc n) = "-" <> decimal (suc n)

code-digit : (d : ℕ) → d < 10 → code (digit d) ≡ 48 + d
unfolding digit
code-digit zero h = refl
code-digit (suc zero) h = refl
code-digit (suc (suc zero)) h = refl
code-digit (suc (suc (suc zero))) h = refl
code-digit (suc (suc (suc (suc zero)))) h = refl
code-digit (suc (suc (suc (suc (suc zero))))) h = refl
code-digit (suc (suc (suc (suc (suc (suc zero)))))) h = refl
code-digit (suc (suc (suc (suc (suc (suc (suc zero))))))) h = refl
code-digit (suc (suc (suc (suc (suc (suc (suc (suc zero)))))))) h = refl
code-digit (suc (suc (suc (suc (suc (suc (suc (suc (suc zero))))))))) h = refl
code-digit (suc (suc (suc (suc (suc (suc (suc (suc (suc (suc n)))))))))) h = absurd (omega arith)

-- the number that a text of digits stands for, after `v`
pub read : String → ℕ → ℕ
read [] v = v
read (c ∷ s) v = read s (v * 10 + (code c - 48))

read-digit : (d v : ℕ) (s : String) → d < 10 → read (digit d ∷ s) v ≡ read s (v * 10 + d)
unfolding read
read-digit d v s h = ap (read s) (omega (arith, code-digit d h))

read-decimal_from : (f n : ℕ) (s : String) → n < f → read (decimal_from f n s) 0 ≡ read s n
unfolding decimal_from
read-decimal_from zero n s h = absurd (omega arith)
read-decimal_from (suc f) n s h = elim (Bool-cases (ltb n 10)) [
  | inl small ↦ rw small (read-digit (n % 10) 0 s (omega arith) ∙ ap (read s) (ground arith))
  | inr big ↦ rw big (
      read-decimal_from f (n / 10) (digit (n % 10) ∷ s) (ground arith)
      ∙ read-digit (n % 10) (n / 10) s (omega arith)
      ∙ ap (read s) (omega arith))
]

pub read-decimal : (n : ℕ) → read (decimal n) 0 ≡ n
unfolding decimal read
read-decimal n = read-decimal_from (suc n) n "" (omega arith)

-- zeros in front do not count
abbrev nought : Char
nought = char_at "0" 0

nought-append : (s : String) → "0" <> s ≡ nought ∷ s
nought-append s = cons-append nought [] s ∙ ap (◌∷◌ nought) (nil-append s)

read-nought : (s : String) → read (nought ∷ s) 0 ≡ read s 0
unfolding read
read-nought s = refl

pub read-one_zero : (s : String) → read ("0" <> s) 0 ≡ read s 0
read-one_zero s = ap (λ t. read t 0) (nought-append s) ∙ read-nought s

pub read-two_zeros : (s : String) → read ("00" <> s) 0 ≡ read s 0
read-two_zeros s =
    ap (λ t. read t 0) (cons-append nought "0" s) ∙ read-nought ("0" <> s) ∙ read-one_zero s

pub read-three_zeros : (s : String) → read ("000" <> s) 0 ≡ read s 0
read-three_zeros s =
    ap (λ t. read t 0) (cons-append nought "00" s) ∙ read-nought ("00" <> s) ∙ read-two_zeros s

-- every character is a digit
abbrev pub Digits : String → Type 0
Digits [] = Unit
Digits (c ∷ s) = (48 ≤ code c) × (code c ≤ 57) × Digits s

Digits-decimal_from : (f n : ℕ) (s : String) → Digits s → Digits (decimal_from f n s)
unfolding decimal_from
Digits-decimal_from zero n s h = h
Digits-decimal_from (suc f) n s h =
    let e = code-digit (n % 10) (omega arith) in
    let here : Digits (digit (n % 10) ∷ s) = (omega (arith, e), omega (arith, e), h) in
    elim (Bool-cases (ltb n 10)) [
      | inl small ↦ rw small here
      | inr big ↦ rw big (Digits-decimal_from f (n / 10) (digit (n % 10) ∷ s) here)
    ]

pub Digits-decimal : (n : ℕ) → Digits (decimal n)
unfolding decimal
Digits-decimal n = Digits-decimal_from (suc n) n "" tt

decimal-injective : (m n : ℕ) → decimal m ≡ decimal n → m ≡ n
unfolding decimal read
decimal-injective m n e =
    sym (read-decimal_from (suc m) m "" (omega arith))
    ∙ (ap (λ s. read s 0) e ∙ read-decimal_from (suc n) n "" (omega arith))

abbrev minus : Char
minus = char_at "-" 0

minus-append : (s : String) → "-" <> s ≡ minus ∷ s
minus-append s = cons-append minus [] s ∙ ap (◌∷◌ minus) (nil-append s)

-- no number without a sign begins with one
decimal-ne-minus : (n : ℕ) (s : String) → decimal n ≡ minus ∷ s → ⊥
decimal-ne-minus n s e =
    let h : Digits (minus ∷ s) = subst Digits e (Digits-decimal n) in omega (arith, h.0)

-- Two integers that are written alike are equal.
pub decimal_ℤ-injective : (a b : ℤ) → decimal_ℤ a ≡ decimal_ℤ b → a ≡ b
unfolding decimal_ℤ
decimal_ℤ-injective (pos m) (pos n) e = ap pos (decimal-injective m n e)
decimal_ℤ-injective (pos m) (negsuc n) e = absurd (decimal-ne-minus m _ (e ∙ minus-append _))
decimal_ℤ-injective (negsuc m) (pos n) e = absurd (decimal-ne-minus n _ (sym e ∙ minus-append _))
decimal_ℤ-injective (negsuc m) (negsuc n) e =
    let e' : minus ∷ decimal (suc m) ≡ minus ∷ decimal (suc n) =
      sym (minus-append _) ∙ (e ∙ minus-append _) in
    ap negsuc (suc_inj (decimal-injective (suc m) (suc n) (tails e')))
  where
    suc_inj : {m n : ℕ} → suc m ≡ suc n → m ≡ n
    suc_inj e = omega arith

    tails : {s t : String} → minus ∷ s ≡ minus ∷ t → s ≡ t
    tails e = cc

-- `c` does not stand in the text
abbrev pub Lacks : ℕ → String → Type 0
Lacks n [] = Unit
Lacks n (c ∷ s) = (code c ≢ n) × Lacks n s

Lacks-Digits : (n : ℕ) (s : String) → 57 < n → Digits s → Lacks n s
Lacks-Digits n [] h d = tt
Lacks-Digits n (c ∷ s) h d = (omega arith, Lacks-Digits n s h d.2)

-- A written integer has no character above the digits in it.
pub Lacks-decimal_ℤ : (n : ℕ) (a : ℤ) → 57 < n → Lacks n (decimal_ℤ a)
unfolding decimal_ℤ
Lacks-decimal_ℤ n (pos m) h = Lacks-Digits n _ h (Digits-decimal m)
Lacks-decimal_ℤ n (negsuc m) h =
    subst (Lacks n) (sym (minus-append _))
      (omega arith, Lacks-Digits n _ h (Digits-decimal (suc m)))
