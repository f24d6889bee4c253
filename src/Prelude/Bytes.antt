-- ===== src/Prelude/Bytes.antt =====
-- Text as the list of its bytes: equality and decimal numerals.
use Prim.Native.Nat.{ℕ, zero, suc, ◌+◌, ◌-◌, ◌*◌, ◌/◌, ◌%◌, ◌<◌}
use Prim.Native.Char.{code}
use Prim.Native.String.{String}
use mathlib.Core.Path.{◌≡◌, refl, ap, ◌∙◌, sym}
use mathlib.Core.Logic.{◌↔◌, inl, inr}
use mathlib.Core.Bool.{Bool, true, false}
use mathlib.Core.List.{List, [], ◌∷◌}
use native.Mathlib.Omega.{arith}
use wsync.Prelude.Tests.{◌==◌, ltb, if◌then◌else◌, Bool-cases}

abbrev pub Text : Type 0
Text = List ℕ

-- The bytes of an ASCII literal.
abbrev pub codes : String → Text
codes String.[] = []
codes (String.◌∷◌ c s) = code c ∷ codes s

abbrev pub text_eq : Text → Text → Bool
text_eq [] [] = true
text_eq [] (y ∷ ys) = false
text_eq (x ∷ xs) [] = false
text_eq (x ∷ xs) (y ∷ ys) = if x == y then text_eq xs ys else false

pub text_eq_iff : (xs ys : Text) → (text_eq xs ys ≡ true) ↔ (xs ≡ ys)
text_eq_iff [] [] = ground arith
text_eq_iff [] (y ∷ ys) = ground arith
text_eq_iff (x ∷ xs) [] = ground arith
text_eq_iff (x ∷ xs) (y ∷ ys) = ground (arith, text_eq_iff xs ys)

pub text_eq_refl : (xs : Text) → text_eq xs xs ≡ true
text_eq_refl xs = (text_eq_iff xs xs).1 refl

-- The order of `str`, byte by byte.
unfoldable pub text_lt : Text → Text → Bool
text_lt [] [] = false
text_lt [] (y ∷ ys) = true
text_lt (x ∷ xs) [] = false
text_lt (x ∷ xs) (y ∷ ys) = if x == y then text_lt xs ys else ltb x y

pub text_lt_irrefl : (xs : Text) → text_lt xs xs ≡ false
unfolding text_lt
text_lt_irrefl [] = refl
text_lt_irrefl (x ∷ xs) = ground (arith, text_lt_irrefl xs)

pub text_lt_trans :
    (xs ys zs : Text) → text_lt xs ys ≡ true → text_lt ys zs ≡ true → text_lt xs zs ≡ true
unfolding text_lt
text_lt_trans [] [] zs h k = cc
text_lt_trans [] (y ∷ ys) [] h k = cc
text_lt_trans [] (y ∷ ys) (z ∷ zs) h k = refl
text_lt_trans (x ∷ xs) [] zs h k = cc
text_lt_trans (x ∷ xs) (y ∷ ys) [] h k = cc
text_lt_trans (x ∷ xs) (y ∷ ys) (z ∷ zs) h k = ground (arith, text_lt_trans xs ys zs)

pub text_lt-trichotomy : (xs ys : Text) → text_lt xs ys ≡ false → text_lt ys xs ≡ false → xs ≡ ys
unfolding text_lt
text_lt-trichotomy [] [] h k = refl
text_lt-trichotomy [] (y ∷ ys) h k = cc
text_lt-trichotomy (x ∷ xs) [] h k = cc
text_lt-trichotomy (x ∷ xs) (y ∷ ys) h k = ground (arith, text_lt-trichotomy xs ys)

-- `str::starts_with`
unfoldable pub starts_with : Text → Text → Bool
starts_with [] s = true
starts_with (p ∷ ps) [] = false
starts_with (p ∷ ps) (x ∷ xs) = if p == x then starts_with ps xs else false

-- The texts with one prefix stand together in the order, from the prefix on.
pub starts_with-not_lt : (p s : Text) → text_lt s p ≡ true → starts_with p s ≡ false
unfolding text_lt starts_with
starts_with-not_lt [] [] h = cc
starts_with-not_lt [] (x ∷ xs) h = cc
starts_with-not_lt (p ∷ ps) [] h = refl
starts_with-not_lt (p ∷ ps) (x ∷ xs) h = ground (arith, starts_with-not_lt ps xs)

pub starts_with-after :
    (p s t : Text)
    → text_lt s p ≡ false
    → starts_with p s ≡ false
    → text_lt s t ≡ true
    → starts_with p t ≡ false
unfolding text_lt starts_with
starts_with-after [] s t h n k = cc
starts_with-after (p ∷ ps) [] t h n k = cc
starts_with-after (p ∷ ps) (x ∷ xs) [] h n k = refl
starts_with-after (p ∷ ps) (x ∷ xs) (y ∷ ys) h n k = ground (arith, starts_with-after ps xs ys)

-- `format!("{n}")`: the digits of `n` in front of `acc`. The fuel `suc n` is enough, since `n / 10`
-- falls.
digits_from : ℕ → ℕ → Text → Text
digits_from zero n acc = acc
digits_from (suc fuel) n acc =
    let next : Text = (b'0' + n % 10) ∷ acc in
    let rest = digits_from fuel (n / 10) next in if ltb n 10 then next else rest

unfoldable pub decimal : ℕ → Text
unfolding digits_from
decimal n = digits_from (suc n) n []

-- The number that a run of digits stands for, read on from `v`.
read_from : ℕ → Text → ℕ
read_from v [] = v
read_from v (c ∷ cs) = read_from (v * 10 + (c - b'0')) cs

read_from-digits_from :
    (fuel n : ℕ) (acc : Text) → n < fuel → read_from 0 (digits_from fuel n acc) ≡ read_from n acc
unfolding digits_from read_from
read_from-digits_from zero n acc h = absurd (elim h [ ])
read_from-digits_from (suc fuel) n acc h = elim (Bool-cases (ltb n 10)) [
  | inl small ↦ rw small (ap (λ v. read_from v acc) (ground arith))
  | inr big ↦ rw big (
      read_from-digits_from fuel (n / 10) ((b'0' + n % 10) ∷ acc) (ground arith)
      ∙ ap (λ v. read_from v acc) (omega arith))
]

-- Two numbers with one decimal numeral are one number.
pub decimal-injective : (m n : ℕ) → decimal m ≡ decimal n → m ≡ n
unfolding decimal read_from
decimal-injective m n e =
    sym (read_from-digits_from (suc m) m [] (omega arith))
    ∙ ap (read_from 0) e
    ∙ read_from-digits_from (suc n) n [] (omega arith)
