-- ===== src/Fft/Aocl/Length.antt =====
-- `aocl_real_length_supported`: the lengths whose prime factors are at most 7.
use mathlib.Core.Path.{subst}
use native.Mathlib.Nat.{div-add-mod}
use dsp_dispatch.Base.{
  ℕ, zero, suc, ◌*◌, ◌/◌, ◌%◌, ◌≤◌, ◌<◌, ◌≡◌, ◌≢◌, ◌↔◌, ◌⊎◌, refl, sym, ap, ◌∙◌, arith, List, [],
  ◌∷◌, Option, none, some, Bool, true, ◌==◌, ==_iff, if◌then◌else◌, Bool-cases, inl, inr,
}

-- `while (n % p == 0) n /= p;` with fuel; `none` means that the fuel ran out.
unfoldable pub strip : (fuel p n : ℕ) → Option ℕ
strip zero p n = none
strip (suc fuel) p n = let rest = strip fuel p (n / p) in if n % p == 0 then rest else some n

-- The loop over the primes, and the test after it.
unfoldable pub strip_all : (fuel : ℕ) → List ℕ → ℕ → Option Bool
strip_all fuel [] n = some (n == 1)
strip_all fuel (p ∷ ps) n = elim (strip fuel p n) [ none ↦ none | some m ↦ strip_all fuel ps m ]

abbrev pub primes : List ℕ
primes = 2 ∷ 3 ∷ 5 ∷ 7 ∷ []

-- `n` rounds are enough for every prime, since each round at least halves a number above 0.
unfoldable pub aocl_real_length_supported : ℕ → Option Bool
aocl_real_length_supported n = strip_all (suc n) primes n

-- The four primes.
pub data Factor : Type 0 where
  two three five seven : Factor

abbrev pub val : Factor → ℕ
val two = 2
val three = 3
val five = 5
val seven = 7

-- The products of the four primes, the empty one included.
pub data IsSmooth : ℕ → Type 0 where
  one : IsSmooth 1
  times : (p : Factor) {n : ℕ} (m : ℕ) → IsSmooth n → m ≡ val p * n → IsSmooth m

-- `m` is `n` with every factor `p` taken out.
data Strips (p : Factor) : ℕ → ℕ → Type 0 where
  stop : (n : ℕ) → n % val p ≢ 0 → Strips p n n
  divide : {n m : ℕ} (k : ℕ) → k ≡ val p * n → Strips p n m → Strips p k m

-- The loop ends within `n` rounds on every positive number, and takes the factors out.
strip-Strips :
    (fuel : ℕ) (p : Factor) (n : ℕ)
    → 0 < n
    → n < fuel
    → (m : ℕ) × (strip fuel (val p) n ≡ some m) × Strips p n m × (0 < m) × (m ≤ n)
unfolding strip
strip-Strips zero p n hn hf = absurd (omega arith)
strip-Strips (suc fuel) p n hn hf = elim (Bool-cases (n % val p == 0)) [
  | inl more ↦
      let quotient : n ≡ val p * (n / val p) = ground (arith, div-add-mod n (val p)) in
      let (m, e, s, pos, le) = strip-Strips fuel p (n / val p) (ground arith) (ground arith) in
      (m, rw more e, divide n quotient s, pos, ground arith)
  | inr done ↦ (n, rw done, stop n (ground arith), hn, omega arith)
]

Strips-IsSmooth : {p : Factor} {n m : ℕ} → Strips p n m → IsSmooth m → IsSmooth n
Strips-IsSmooth (stop n h) w = w
Strips-IsSmooth {p = p} (divide k e s) w = times p k (Strips-IsSmooth s w) e

-- One of the primes that divides a product with another divides the other factor.
quotient_of :
    (p q : Factor) (k n : ℕ)
    → val p * k ≡ val q * n
    → (p ≡ q) ⊎ ((l : ℕ) × (n ≡ val p * l) × (k ≡ val q * l))
quotient_of two two k n e = inl refl
quotient_of two three k n e = inr (n / 2, omega arith, omega arith)
quotient_of two five k n e = inr (n / 2, omega arith, omega arith)
quotient_of two seven k n e = inr (n / 2, omega arith, omega arith)
quotient_of three two k n e = inr (n / 3, omega arith, omega arith)
quotient_of three three k n e = inl refl
quotient_of three five k n e = inr (n / 3, omega arith, omega arith)
quotient_of three seven k n e = inr (n / 3, omega arith, omega arith)
quotient_of five two k n e = inr (n / 5, omega arith, omega arith)
quotient_of five three k n e = inr (n / 5, omega arith, omega arith)
quotient_of five five k n e = inl refl
quotient_of five seven k n e = inr (n / 5, omega arith, omega arith)
quotient_of seven two k n e = inr (n / 7, omega arith, omega arith)
quotient_of seven three k n e = inr (n / 7, omega arith, omega arith)
quotient_of seven five k n e = inr (n / 7, omega arith, omega arith)
quotient_of seven seven k n e = inl refl

times_cancel : (p : Factor) (k n : ℕ) → val p * k ≡ val p * n → k ≡ n
times_cancel two k n e = omega arith
times_cancel three k n e = omega arith
times_cancel five k n e = omega arith
times_cancel seven k n e = omega arith

not_one : (p : Factor) (k : ℕ) → 1 ≢ val p * k
not_one two k = omega arith
not_one three k = omega arith
not_one five k = omega arith
not_one seven k = omega arith

IsSmooth-quotient : (p : Factor) {n : ℕ} (k : ℕ) → IsSmooth n → n ≡ val p * k → IsSmooth k
IsSmooth-quotient p k one e = absurd (not_one p k e)
IsSmooth-quotient p k (times q {n} m w d) e = elim (quotient_of p q k n (sym e ∙ d)) [
  | inl same ↦ subst IsSmooth (times_cancel p n k (ap (λ r. val r * n) same ∙ sym d ∙ e)) w
  | inr (l, dn, dk) ↦ times q k (IsSmooth-quotient p l w dn) dk
]

Strips-IsSmooth_rest : {p : Factor} {n m : ℕ} → Strips p n m → IsSmooth n → IsSmooth m
Strips-IsSmooth_rest (stop n h) w = w
Strips-IsSmooth_rest {p = p} (divide {n = n} k e s) w =
    Strips-IsSmooth_rest s (IsSmooth-quotient p n w e)

-- What `p` does not divide it does not divide after a division by `q`.
mod-times : (p q : Factor) (n : ℕ) → n % val p ≡ 0 → (val q * n) % val p ≡ 0
mod-times two two n e = omega arith
mod-times two three n e = omega arith
mod-times two five n e = omega arith
mod-times two seven n e = omega arith
mod-times three two n e = omega arith
mod-times three three n e = omega arith
mod-times three five n e = omega arith
mod-times three seven n e = omega arith
mod-times five two n e = omega arith
mod-times five three n e = omega arith
mod-times five five n e = omega arith
mod-times five seven n e = omega arith
mod-times seven two n e = omega arith
mod-times seven three n e = omega arith
mod-times seven five n e = omega arith
mod-times seven seven n e = omega arith

Strips-kept : (p : Factor) {q : Factor} {n m : ℕ} → Strips q n m → n % val p ≢ 0 → m % val p ≢ 0
Strips-kept p (stop n h) k = k
Strips-kept p {q = q} (divide {n = n} k e s) nd =
    Strips-kept p s (λ z. nd (rw e (mod-times p q n z)))

Strips-ne : {p : Factor} {n m : ℕ} → Strips p n m → m % val p ≢ 0
Strips-ne (stop n h) = h
Strips-ne (divide k e s) = Strips-ne s

mod-multiple : (p : Factor) (n m : ℕ) → m ≡ val p * n → m % val p ≡ 0
mod-multiple two n m e = omega arith
mod-multiple three n m e = omega arith
mod-multiple five n m e = omega arith
mod-multiple seven n m e = omega arith

-- A product of the primes that none of them divides is the empty one.
IsSmooth-one : {m : ℕ} → IsSmooth m → ((p : Factor) → m % val p ≢ 0) → m ≡ 1
IsSmooth-one one h = refl
IsSmooth-one (times p {n} m w e) h = absurd (h p (mod-multiple p n m e))

-- What the four loops leave of `n`.
record Left (n d : ℕ) : Type 0 where
  a : ℕ
  b : ℕ
  c : ℕ
  twos : Strips two n a
  threes : Strips three a b
  fives : Strips five b c
  sevens : Strips seven c d

Left-one : {n d : ℕ} → Left n d → IsSmooth n → d ≡ 1
Left-one l w =
    IsSmooth-one
      (Strips-IsSmooth_rest l.sevens (
        Strips-IsSmooth_rest l.fives
          (Strips-IsSmooth_rest l.threes (Strips-IsSmooth_rest l.twos w))))
      (elim [
        | two ↦
            Strips-kept two l.sevens
              (Strips-kept two l.fives (Strips-kept two l.threes (Strips-ne l.twos)))
        | three ↦ Strips-kept three l.sevens (Strips-kept three l.fives (Strips-ne l.threes))
        | five ↦ Strips-kept five l.sevens (Strips-ne l.fives)
        | seven ↦ Strips-ne l.sevens
      ])

Left-IsSmooth : {n d : ℕ} → Left n d → d ≡ 1 → IsSmooth n
Left-IsSmooth l e = Strips-IsSmooth l.twos (
    Strips-IsSmooth l.threes
      (Strips-IsSmooth l.fives (Strips-IsSmooth l.sevens (subst IsSmooth (sym e) one))))

supported_chain :
    (n a b c d : ℕ)
    → strip (suc n) 2 n ≡ some a
    → strip (suc n) 3 a ≡ some b
    → strip (suc n) 5 b ≡ some c
    → strip (suc n) 7 c ≡ some d
    → aocl_real_length_supported n ≡ some (d == 1)
unfolding aocl_real_length_supported strip_all
supported_chain n a b c d ea eb ec ed =
    rw (ea, strip_all) (rw (eb, strip_all) (rw (ec, strip_all) (rw (ed, strip_all))))

supported-Left :
    (n : ℕ) → 0 < n → (d : ℕ) × (aocl_real_length_supported n ≡ some (d == 1)) × Left n d
supported-Left n h =
    let (a, ea, sa, pa, la) = strip-Strips (suc n) two n h (omega arith) in
    let (b, eb, sb, pb, lb) = strip-Strips (suc n) three a pa (omega arith) in
    let (c, ec, sc, pc, lc) = strip-Strips (suc n) five b pb (omega arith) in
    let (d, ed, sd, pd, ld) = strip-Strips (suc n) seven c pc (omega arith) in
    (
      d,
      supported_chain n a b c d ea eb ec ed,
      record { a = a; b = b; c = c; twos = sa; threes = sb; fives = sc; sevens = sd },
    )

-- For every positive length the loops end, and the answer is yes exactly for the products of 2, 3,
-- 5 and 7.
pub supported_iff :
    (n : ℕ)
    → 0 < n
    → (r : Bool) × (aocl_real_length_supported n ≡ some r) × ((r ≡ true) ↔ IsSmooth n)
supported_iff n h =
    let (d, e, l) = supported-Left n h in
    (d == 1, e, (λ t. Left-IsSmooth l ((==_iff d 1).0 t), λ w. (==_iff d 1).1 (Left-one l w)))

-- On length 0 no amount of fuel ends the first loop.
pub supported_zero : (fuel : ℕ) → strip fuel 2 0 ≡ none
unfolding strip
supported_zero zero = refl
supported_zero (suc fuel) = supported_zero fuel
