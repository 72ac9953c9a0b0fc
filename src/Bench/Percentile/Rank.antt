-- ===== src/Bench/Percentile/Rank.antt =====
-- A percentile is the time of its rank: so many of the times are not above it, and the others are not
-- below it.
use dsp_dispatch.Base.{
  ℕ, zero, suc, ◌+◌, ◌-◌, ◌^◌, ◌<◌, ◌≤◌, ◌≡◌, refl, sym, ap, ◌∙◌, arith, Bool, true, if◌then◌else◌,
  List, [], ◌∷◌, Bool-cases, inl, inr, ◌⊎◌,
}
use dsp_dispatch.Bench.Percentile.{Doubles, length, insert, sort, entry, rank, percentile}
use dsp_dispatch.Base.Lists.{count}

module _ (doubles : Doubles) where
  open doubles use {Double, at_most}

  -- The order is total and transitive, which it is on numbers.
  pub record IsOrder : Type 0 where
    pub total : (x y : Double) → (at_most x y ≡ true) ⊎ (at_most y x ≡ true)
    pub trans : (x y z : Double) → at_most x y ≡ true → at_most y z ≡ true → at_most x z ≡ true

  -- A level from 0 to 1: its product with a count that `double` holds exactly, rounded down, is not
  -- above the count.
  abbrev pub IsFraction : Double → Type 0
  IsFraction p = (n : ℕ) → n < 2 ^ 53 → doubles.to_size (doubles.mul p (doubles.of_size n)) ≤ n

  insert-count :
      (test : Double → Bool) (x : Double) (l : List Double)
      → count test (insert doubles x l) ≡ count test (x ∷ l)
  unfolding count insert
  insert-count test x [] = refl
  insert-count test x (y ∷ l) = elim (Bool-cases (at_most x y)) [
    | inl le ↦ rw le refl
    | inr gt ↦ rw gt (omega (arith, insert-count test x l))
  ]

  sort-count : (test : Double → Bool) (l : List Double) → count test (sort doubles l) ≡ count test l
  unfolding sort count
  sort-count test [] = refl
  sort-count test (x ∷ l) =
      insert-count test x (sort doubles l)
      ∙ ap (λ n. (if test x then 1 else 0) + n) (sort-count test l)

  -- A bound of all entries.
  abbrev Below : Double → List Double → Type 0
  Below x [] = Unit
  Below x (y ∷ l) = (at_most x y ≡ true) × Below x l

  abbrev IsSorted : List Double → Type 0
  IsSorted [] = Unit
  IsSorted (x ∷ l) = Below x l × IsSorted l

  module _ (order : IsOrder) where
    self : (x : Double) → at_most x x ≡ true
    self x = elim (order.total x x) [ inl h ↦ h | inr h ↦ h ]

    Below-trans : (x y : Double) (l : List Double) → at_most x y ≡ true → Below y l → Below x l
    Below-trans x y [] h b = tt
    Below-trans x y (z ∷ l) h b = (order.trans x y z h b.0, Below-trans x y l h b.1)

    Below-insert :
        (x y : Double) (l : List Double)
        → at_most x y ≡ true
        → Below x l
        → Below x (insert doubles y l)
    unfolding insert
    Below-insert x y [] h b = (h, tt)
    Below-insert x y (z ∷ l) h b = elim (Bool-cases (at_most y z)) [
      | inl le ↦ rw le (h, b)
      | inr gt ↦ rw gt (b.0, Below-insert x y l h b.1)
    ]

    insert-IsSorted : (x : Double) (l : List Double) → IsSorted l → IsSorted (insert doubles x l)
    unfolding insert
    insert-IsSorted x [] s = (tt, tt)
    insert-IsSorted x (y ∷ l) s = elim (Bool-cases (at_most x y)) [
      | inl le ↦ rw le ((le, Below-trans x y l le s.0), s)
      | inr gt ↦
          let above : at_most y x ≡ true = elim (order.total x y) [
            | inl h ↦ absurd (ground (arith, h, gt))
            | inr h ↦ h
          ] in
          rw gt (Below-insert y x l above s.0, insert-IsSorted x l s.1)
    ]

    sort-IsSorted : (l : List Double) → IsSorted (sort doubles l)
    unfolding sort
    sort-IsSorted [] = tt
    sort-IsSorted (x ∷ l) = insert-IsSorted x (sort doubles l) (sort-IsSorted l)

    Below-entry :
        (x : Double) (l : List Double) (k : ℕ)
        → k < length l
        → Below x l
        → at_most x (entry doubles l k) ≡ true
    unfolding entry length
    Below-entry x [] k h b = absurd (omega arith)
    Below-entry x (y ∷ l) zero h b = b.0
    Below-entry x (y ∷ l) (suc k) h b = Below-entry x l k (omega arith) b.1

    Below-count : (x : Double) (l : List Double) → Below x l → count (at_most x) l ≡ length l
    unfolding count length
    Below-count x [] b = refl
    Below-count x (y ∷ l) b = rw b.0 (omega (arith, Below-count x l b.1))

    -- In a sorted list, the entries up to one are not above it,
    lower_count :
        (l : List Double) (k : ℕ)
        → k < length l
        → IsSorted l
        → k < count (λ y. at_most y (entry doubles l k)) l
    unfolding entry length count
    lower_count [] k h s = absurd (omega arith)
    lower_count (x ∷ l) zero h s = rw (self x) (omega arith)
    lower_count (x ∷ l) (suc k) h s =
        rw (Below-entry x l k (omega arith) s.0) (omega (arith, lower_count l k (omega arith) s.1))

    -- and those from one on are not below it.
    upper_count :
        (l : List Double) (k : ℕ)
        → k < length l
        → IsSorted l
        → length l ≤ k + count (at_most (entry doubles l k)) l
    unfolding entry length count
    upper_count [] k h s = absurd (omega arith)
    upper_count (x ∷ l) zero h s = rw (self x) (omega (arith, Below-count x l s.0))
    upper_count (x ∷ l) (suc k) h s = omega (arith, upper_count l k (omega arith) s.1)

    count-length : (l : List Double) → count (λ y. true) l ≡ length l
    unfolding count length
    count-length [] = refl
    count-length (x ∷ l) = omega (arith, count-length l)

    sort-length : (l : List Double) → length (sort doubles l) ≡ length l
    sort-length l = sym (count-length (sort doubles l)) ∙ sort-count (λ y. true) l ∙ count-length l

    -- Where the order of the times is total and transitive, the level is a fraction, and there are
    -- times, no more than `double` counts exactly: with k the level of one time less than there are,
    -- rounded down, the index k is among the times, more than k of the times are not above the
    -- percentile, and at most k of them are below it.
    pub percentile-count :
        (v : List Double) (p : Double)
        → IsFraction p
        → 0 < length v
        → length v ≤ 2 ^ 53
        → let k = doubles.to_size (doubles.mul p (doubles.of_size (length v - 1))) in
          (k < length v)
          × (k < count (λ t. at_most t (percentile doubles v p)) v)
          × (length v ≤ k + count (at_most (percentile doubles v p)) v)
    unfolding percentile length
    percentile-count [] p fraction some few = absurd (omega arith)
    percentile-count (x ∷ l) p fraction some few =
        let k = rank doubles (x ∷ l) p in
        let sorted = sort doubles (x ∷ l) in
        let within : k < length (x ∷ l) = omega (arith, fraction (length l) (omega (arith, few))) in
        let inside : k < length sorted = rw (sort-length (x ∷ l)) within in
        let low = lower_count sorted k inside (sort-IsSorted (x ∷ l)) in
        let high = upper_count sorted k inside (sort-IsSorted (x ∷ l)) in
        (
          within,
          rw (← sort-count (λ t. at_most t (entry doubles sorted k)) (x ∷ l)) low,
          omega (
            arith,
            sort-length (x ∷ l),
            sort-count (at_most (entry doubles sorted k)) (x ∷ l),
            high,
          ),
        )
