-- ===== src/Owner/Alone.antt =====
-- No two plans of a program own one state, and the states they own have not been destroyed.
use dsp_dispatch.Base.{
  ℕ, suc, ◌≤◌, ◌≡◌, ◌≢◌, refl, arith, Bool, ◌==◌, some, none, Option, [], Bool-cases, inl, inr,
}
use dsp_dispatch.Owner.{Owned, Movable, Program, owned, Step, Reach}
use dsp_dispatch.Owner.{create, construct, assign, destroy, call, here, next}
use dsp_dispatch.Base.Lists.{get_elem?, count, get_elem?-set, le-total, add-le-total, total-eq-zero}
use dsp_dispatch.Owner.Ledger.{
  weight, count-owned, set-owned, other, exchanged, IsBalanced, Reach-IsBalanced,
}

-- A state at an address.
abbrev pub is_at : {M : Type 0} → ℕ → Owned M → Bool
is_at a c = c.0 == a

module _ {M P : Type 0} (class : Movable M P) where
  open class use {state_of}

  abbrev IsDistinct : Program M P → Type 0
  IsDistinct s = (a : ℕ) → count (is_at a) (owned class s.plans) ≤ 1

  -- The plan of variable `j` has the state at `a`.
  abbrev pub Has : Program M P → (j a : ℕ) → P → Type 0
  Has s j a q = (get_elem? s.plans j ≡ some (some q)) × ((state_of q).pointer ≡ some a)

  weight_self :
      (a : ℕ) (q : P) → (state_of q).pointer ≡ some a → weight class (is_at a) (some q) ≡ 1
  unfolding count
  weight_self a q e = ground (arith, e)

  weight_other :
      (a : ℕ) (o : Option P)
      → ((q : P) → o ≡ some q → (state_of q).pointer ≢ some a)
      → weight class (is_at a) o ≡ 0
  unfolding count
  weight_other a none h = refl
  weight_other a (some q) h = ground (arith, h q refl)

  -- An address that no plan has is not owned.
  new-owned :
      (s : Program M P) (a : ℕ)
      → ((j : ℕ) (q : P) → get_elem? s.plans j ≡ some (some q) → (state_of q).pointer ≢ some a)
      → count (is_at a) (owned class s.plans) ≡ 0
  new-owned s a new = rw (count-owned class (is_at a) s.plans) (
      total-eq-zero (weight class (is_at a)) s.plans
        (λ j o e. weight_other a o (λ q f. new j q (rw (← f) e))))

  Step-IsDistinct : {s t : Program M P} → Step class s t → IsDistinct s → IsDistinct t
  unfolding count
  Step-IsDistinct {s} (create i a p e f new) h b =
      let put = set-owned class (is_at b) s.plans i (some p) none e in
      elim (Bool-cases (a == b)) [
        | inl same ↦
            let clear = new-owned s b (λ j q g k. new j q g (ground (arith, k, same))) in
            ground (arith, put, clear, f, same)
        | inr not ↦ ground (arith, put, h b, f, not)
      ]
  Step-IsDistinct {s} (construct i j p e f) h b =
      let moved =
        exchanged class (is_at b) s.plans i j p none e
          (get_elem?-set s.plans j i _ none f (other class s.plans i j p e f)) in
      omega (arith, moved, h b)
  Step-IsDistinct {s} (assign i j p q e f) h b =
      omega (arith, exchanged class (is_at b) s.plans i j p (some q) e f, h b)
  Step-IsDistinct {s} (destroy i p e) h b =
      omega (arith, set-owned class (is_at b) s.plans i none (some p) e, h b)
  Step-IsDistinct (call i a p m e f u) h b = h b

  Reach-IsDistinct : {s t : Program M P} → IsDistinct s → Reach class s t → IsDistinct t
  Reach-IsDistinct h here = h
  Reach-IsDistinct h (next r st) = Step-IsDistinct st (Reach-IsDistinct h r)

  -- What holds of the states of a program: they are handed over as often as they are with plans or
  -- destroyed; the state of a plan has been handed over once more than destroyed; and two variables
  -- never have the same.
  pub record IsSound (s : Program M P) : Type 0 where
    pub balanced : IsBalanced class s
    pub live :
        (j a : ℕ) (q : P)
        → Has s j a q
        → count (is_at a) s.created ≡ suc (count (is_at a) s.world.destroyed)
    pub alone : (i j a : ℕ) (p q : P) → Has s i a p → Has s j a q → i ≡ j

  IsSound_of : {s : Program M P} → IsBalanced class s → IsDistinct s → IsSound s
  IsSound_of {s} balanced distinct = record {
    balanced = balanced;
    live = λ j a q h. omega (
      arith,
      balanced (is_at a),
      distinct a,
      count-owned class (is_at a) s.plans,
      le-total (weight class (is_at a)) s.plans j (some q) h.0,
      weight_self a q h.1,
    );
    alone = λ i j a p q h k. elim (Bool-cases (i == j)) [
      | inl same ↦ ground (arith, same)
      | inr apart ↦ absurd (
          omega (
            arith,
            distinct a,
            count-owned class (is_at a) s.plans,
            add-le-total (weight class (is_at a)) s.plans i j (some p) (some q) h.0 k.0
                (λ e. ground (arith, e, apart)),
            weight_self a p h.1,
            weight_self a q k.1,
          ))
    ];
  }

  -- A program that starts with no plan.
  pub record IsStart (s : Program M P) : Type 0 where
    pub no_plans : owned class s.plans ≡ []
    pub no_states : s.created ≡ []
    pub no_calls : s.world.destroyed ≡ []

  pub Reach-IsSound : {s t : Program M P} → IsStart s → Reach class s t → IsSound t
  unfolding count
  Reach-IsSound {s} {t} start r =
      IsSound_of
        (Reach-IsBalanced class (λ test. rw (start.no_plans, start.no_states, start.no_calls) refl)
          r)
        (Reach-IsDistinct (λ a. rw start.no_plans (omega arith)) r)
