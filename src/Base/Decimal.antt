-- ===== src/Base/Decimal.antt =====
-- `std::to_string` of a `std::size_t`, and that a number can be read off its digits.
use Prim.Native.Char.{code}
use Prim.Native.Nat.{ℕ, zero, suc, ◌+◌, ◌-◌, ◌*◌, ◌/◌, ◌%◌, ◌<◌}
use Prim.Native.String.{String}
use mathlib.Core.Path.{◌≡◌, refl, ap, sym, ◌∙◌}
use mathlib.Core.Bool.{Bool, ◌&&◌}
use mathlib.Core.Logic.{inl, inr}
use mathlib.Core.List.{List, [], ◌∷◌, ◌++◌}
use native.Mathlib.Omega.{arith}
use dsp_dispatch.Base.Tests.{ltb, leb, if◌then◌else◌, Bool-cases}

-- The characters of a text.
abbrev pub codes : String → List ℕ
codes String.[] = []
codes (String.◌∷◌ c s) = code c ∷ codes s

-- The digits of a number, before what follows them. Each round takes one of at most `fuel`.
digits : (fuel n : ℕ) → List ℕ → List ℕ
digits zero n rest = rest
digits (suc fuel) n rest =
    let more = digits fuel (n / 10) ((b'0' + n % 10) ∷ rest) in
    if ltb n 10 then (b'0' + n) ∷ rest else more

-- `std::to_string`
unfoldable pub to_string : ℕ → List ℕ
unfolding digits
to_string n = digits (suc n) n []

is_digit : ℕ → Bool
is_digit c = leb b'0' c && leb c b'9'

-- The number that the first digits make, and what follows.
read : ℕ → List ℕ → ℕ × List ℕ
read v [] = (v, [])
read v (c ∷ s) = let more = read (10 * v + (c - b'0')) s in if is_digit c then more else (v, c ∷ s)

digits-append :
    (fuel n : ℕ) (rest tail : List ℕ) → digits fuel n rest ++ tail ≡ digits fuel n (rest ++ tail)
unfolding digits
digits-append zero n rest tail = refl
digits-append (suc fuel) n rest tail = elim (Bool-cases (ltb n 10)) [
  | inl last ↦ rw last refl
  | inr more ↦ rw more (digits-append fuel (n / 10) ((b'0' + n % 10) ∷ rest) tail)
]

-- The digit of `d` appends it.
read-digit : (v d n : ℕ) (s : List ℕ) → d < 10 → n ≡ 10 * v + d → read v ((b'0' + d) ∷ s) ≡ read n s
unfolding read is_digit
read-digit v d n s h e = ground (arith, e)

read-digits : (fuel n : ℕ) (rest : List ℕ) → n < fuel → read 0 (digits fuel n rest) ≡ read n rest
unfolding digits
read-digits zero n rest h = absurd (omega arith)
read-digits (suc fuel) n rest h = elim (Bool-cases (ltb n 10)) [
  | inl last ↦ rw last (read-digit 0 n n rest (ground (arith, last)) (omega arith))
  | inr more ↦ rw more (
      read-digits fuel (n / 10) ((b'0' + n % 10) ∷ rest) (ground (arith, more))
      ∙ read-digit (n / 10) (n % 10) n rest (omega arith) (omega arith))
]

read-to_string : (n : ℕ) (tail : List ℕ) → read 0 (to_string n ++ tail) ≡ read n tail
unfolding to_string
read-to_string n tail = rw digits-append (read-digits (suc n) n tail (omega arith))

read-end : (n : ℕ) → read n [] ≡ (n, [])
unfolding read
read-end n = refl

read-slash : (n : ℕ) (s : List ℕ) → read n (b'/' ∷ s) ≡ (n, b'/' ∷ s)
unfolding read is_digit
read-slash n s = refl

-- A number at the end of a text can be read off it,
pub to_string-injective : (n m : ℕ) → to_string n ≡ to_string m → n ≡ m
to_string-injective n m e =
    ap (λ (p : ℕ × List ℕ). p.0)
      (sym (read-to_string n [] ∙ read-end n)
        ∙ ap (λ s. read 0 (s ++ [])) e
        ∙ read-to_string m []
        ∙ read-end m)

-- and so can one before a slash, and what follows.
pub to_string-slash :
    (n m : ℕ) (s t : List ℕ) → to_string n ++ b'/' ∷ s ≡ to_string m ++ b'/' ∷ t → (n ≡ m) × (s ≡ t)
to_string-slash n m s t e =
    let same : ◌≡◌ {A = ℕ × List ℕ} (n, b'/' ∷ s) (m, b'/' ∷ t) =
      sym (read-to_string n (b'/' ∷ s) ∙ read-slash n s)
      ∙ ap (read 0) e
      ∙ read-to_string m (b'/' ∷ t)
      ∙ read-slash m t in
    (ap (λ (p : ℕ × List ℕ). p.0) same, cc)

-- a run
to_string_1024 : to_string 1024 ≡ codes "1024"
unfolding to_string
to_string_1024 = refl
