-- ===== src/Base/Lists.antt =====
-- Lists by index: entries that are read and replaced, counted, and added up.
use dsp_dispatch.Base.{
  ℕ, zero, suc, ◌+◌, ◌≡◌, ◌≢◌, ◌≤◌, ◌<◌, refl, arith, Bool, if◌then◌else◌, Option, none, some, List,
  [], ◌∷◌, ◌++◌, ◌⊎◌, inl, inr,
}

module _ {A : Type 0} where
  abbrev pub get_elem? : List A → ℕ → Option A
  get_elem? [] i = none
  get_elem? (x ∷ l) zero = some x
  get_elem? (x ∷ l) (suc i) = get_elem? l i

  -- A write out of bounds changes nothing.
  abbrev pub set : List A → ℕ → A → List A
  set [] i v = []
  set (x ∷ l) zero v = v ∷ l
  set (x ∷ l) (suc i) v = x ∷ set l i v

  -- An entry of two lists in a row is an entry of the one or the other.
  pub get_elem?-append :
      (l k : List A) (i : ℕ) (x : A)
      → get_elem? (l ++ k) i ≡ some x
      → (get_elem? l i ≡ some x) ⊎ ((j : ℕ) × (get_elem? k j ≡ some x))
  get_elem?-append [] k i x e = inr (i, e)
  get_elem?-append (y ∷ l) k zero x e = inl e
  get_elem?-append (y ∷ l) k (suc i) x e = get_elem?-append l k i x e

  -- How many entries pass a test.
  unfoldable pub count : (A → Bool) → List A → ℕ
  count test [] = 0
  count test (x ∷ l) = (if test x then 1 else 0) + count test l

  pub count-append :
      (test : A → Bool) (l k : List A) → count test (l ++ k) ≡ count test l + count test k
  unfolding count
  count-append test [] k = omega arith
  count-append test (x ∷ l) k = omega (arith, count-append test l k)

  abbrev pub length : List A → ℕ
  length [] = 0
  length (x ∷ l) = suc (length l)

  pub get_elem?-lt-length : (l : List A) (i : ℕ) (x : A) → get_elem? l i ≡ some x → i < length l
  get_elem?-lt-length [] i x e = cc
  get_elem?-lt-length (y ∷ l) zero x e = omega arith
  get_elem?-lt-length (y ∷ l) (suc i) x e = omega (arith, get_elem?-lt-length l i x e)

  pub get_elem?-set_self : (l : List A) (i : ℕ) (v x : A) → get_elem? (set l i v) i ≡ some x → x ≡ v
  get_elem?-set_self [] i v x e = cc
  get_elem?-set_self (y ∷ l) zero v x e = ground (arith, e)
  get_elem?-set_self (y ∷ l) (suc i) v x e = get_elem?-set_self l i v x e

  -- What another variable has was there before the write.
  pub get_elem?-of_set :
      (l : List A) (i j : ℕ) (v x : A)
      → get_elem? (set l i v) j ≡ some x
      → i ≢ j
      → get_elem? l j ≡ some x
  get_elem?-of_set [] i j v x e n = e
  get_elem?-of_set (y ∷ l) zero zero v x e n = absurd (n refl)
  get_elem?-of_set (y ∷ l) zero (suc j) v x e n = e
  get_elem?-of_set (y ∷ l) (suc i) zero v x e n = e
  get_elem?-of_set (y ∷ l) (suc i) (suc j) v x e n =
      get_elem?-of_set l i j v x e (λ h. n (omega arith))

  pub get_elem?-set :
      (l : List A) (i j : ℕ) (v x : A)
      → get_elem? l j ≡ some x
      → i ≢ j
      → get_elem? (set l i v) j ≡ some x
  get_elem?-set [] i j v x e n = e
  get_elem?-set (y ∷ l) zero zero v x e n = absurd (n refl)
  get_elem?-set (y ∷ l) zero (suc j) v x e n = e
  get_elem?-set (y ∷ l) (suc i) zero v x e n = e
  get_elem?-set (y ∷ l) (suc i) (suc j) v x e n = get_elem?-set l i j v x e (λ h. n (omega arith))

-- A number for each entry, in total.
module _ {A : Type 0} (weight : A → ℕ) where
  unfoldable pub total : List A → ℕ
  total [] = 0
  total (x ∷ l) = weight x + total l

  -- A write exchanges what the entry counts for.
  pub total-set :
      (l : List A) (i : ℕ) (v x : A)
      → get_elem? l i ≡ some x
      → total (set l i v) + weight x ≡ total l + weight v
  unfolding total
  total-set [] i v x e = cc
  total-set (y ∷ l) zero v x e = ground (arith, e)
  total-set (y ∷ l) (suc i) v x e = omega (arith, total-set l i v x e)

  -- An entry counts for no more than all of them.
  pub le-total : (l : List A) (i : ℕ) (x : A) → get_elem? l i ≡ some x → weight x ≤ total l
  unfolding total
  le-total [] i x e = cc
  le-total (y ∷ l) zero x e = ground (arith, e)
  le-total (y ∷ l) (suc i) x e = omega (arith, le-total l i x e)

  -- Two entries count for no more than all of them.
  pub add-le-total :
      (l : List A) (i j : ℕ) (x y : A)
      → get_elem? l i ≡ some x
      → get_elem? l j ≡ some y
      → i ≢ j
      → weight x + weight y ≤ total l
  unfolding total
  add-le-total [] i j x y e f n = cc
  add-le-total (z ∷ l) zero zero x y e f n = absurd (n refl)
  add-le-total (z ∷ l) zero (suc j) x y e f n = ground (arith, e, le-total l j y f)
  add-le-total (z ∷ l) (suc i) zero x y e f n = ground (arith, f, le-total l i x e)
  add-le-total (z ∷ l) (suc i) (suc j) x y e f n =
      omega (arith, add-le-total l i j x y e f (λ h. n (omega arith)))

  pub total-eq-zero :
      (l : List A) → ((i : ℕ) (x : A) → get_elem? l i ≡ some x → weight x ≡ 0) → total l ≡ 0
  unfolding total
  total-eq-zero [] h = refl
  total-eq-zero (y ∷ l) h = omega (arith, h 0 y refl, total-eq-zero l (λ i x. h (suc i) x))
