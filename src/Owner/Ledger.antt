-- ===== src/Owner/Ledger.antt =====
-- What is handed over is destroyed once: the account of a program's states.
use dsp_dispatch.Base.{ℕ, ◌+◌, ◌≡◌, ◌≢◌, refl, arith, Bool, Option, none, some, List, [], ◌∷◌}
use dsp_dispatch.Owner.{
  Owned, UniquePtr, World, owned_by, delete, released, Movable, Program, owned_in, owned, Step,
  Reach,
}
use dsp_dispatch.Owner.{create, construct, assign, destroy, call, here, next}
use dsp_dispatch.Base.Lists.{get_elem?, set, count, count-append, get_elem?-set, total, total-set}

-- `delete` records exactly what the pointer is responsible for.
count-delete :
    {M : Type 0} (test : Owned M → Bool) (u : UniquePtr M) (w : World M)
    → count test (delete u w).destroyed ≡ count test (owned_by u) + count test w.destroyed
unfolding delete count
count-delete test u w = ground arith

count-released :
    {M : Type 0} (test : Owned M → Bool) (u : UniquePtr M) → count test (owned_by (released u)) ≡ 0
unfolding count
count-released test u = refl

module _ {M P : Type 0} (class : Movable M P) where
  open class use {state_of, moved_from}

  abbrev pub weight : (Owned M → Bool) → Option P → ℕ
  weight test o = count test (owned_in class o)

  pub count-owned :
      (test : Owned M → Bool) (l : List (Option P))
      → count test (owned class l) ≡ total (weight test) l
  unfolding owned total count
  count-owned test [] = refl
  count-owned test (o ∷ l) =
      omega (arith, count-append test (owned_in class o) (owned class l), count-owned test l)

  moved-weight : (test : Owned M → Bool) (p : P) → weight test (some (moved_from p)) ≡ 0
  moved-weight test p = rw (class.state_of-moved_from p) (count-released test (state_of p))

  -- As many states as pass a test have been handed over, as are with plans or destroyed.
  abbrev pub IsBalanced : Program M P → Type 0
  IsBalanced s =
      (test : Owned M → Bool)
      → count test s.created ≡ count test (owned class s.plans) + count test s.world.destroyed

  pub set-owned :
      (test : Owned M → Bool) (l : List (Option P)) (i : ℕ) (o' o : Option P)
      → get_elem? l i ≡ some o
      → count test (owned class (set l i o')) + weight test o
        ≡ count test (owned class l) + weight test o'
  set-owned test l i o' o e =
      rw (count-owned test (set l i o'), count-owned test l) (total-set (weight test) l i o' o e)

  -- The source of a move no longer counts.
  moved-owned :
      (test : Owned M → Bool) (l : List (Option P)) (j : ℕ) (p : P)
      → get_elem? l j ≡ some (some p)
      → count test (owned class (set l j (some (moved_from p)))) + weight test (some p)
        ≡ count test (owned class l)
  moved-owned test l j p e =
      omega (arith, set-owned test l j (some (moved_from p)) (some p) e, moved-weight test p)

  -- Distinct variables: one has a plan, and the other has none.
  pub other :
      (l : List (Option P)) (i j : ℕ) (p : P)
      → get_elem? l j ≡ some (some p)
      → get_elem? l i ≡ some none
      → j ≢ i
  other l i j p e f same = ground (arith, e, f, same)

  -- After a move into variable `i`, which had `o` when the source had given up its state.
  pub exchanged :
      (test : Owned M → Bool) (l : List (Option P)) (i j : ℕ) (p : P) (o : Option P)
      → get_elem? l j ≡ some (some p)
      → get_elem? (set l j (some (moved_from p))) i ≡ some o
      → count test (owned class (set (set l j (some (moved_from p))) i (some p))) + weight test o
        ≡ count test (owned class l)
  exchanged test l i j p o e f = omega (
    arith,
    moved-owned test l j p e,
    set-owned test (set l j (some (moved_from p))) i (some p) o f,
  )

  step_balance :
      {s t : Program M P} (test : Owned M → Bool)
      → Step class s t
      → count test t.created + count test (owned class s.plans) + count test s.world.destroyed
        ≡ count test s.created + count test (owned class t.plans) + count test t.world.destroyed
  unfolding count
  step_balance {s} test (create i a p e f new) =
      let fresh = set-owned test s.plans i (some p) none e in ground (arith, fresh, f)
  step_balance {s} test (construct i j p e f) = omega (
    arith,
    exchanged test s.plans i j p none e
        (get_elem?-set s.plans j i _ none f (other s.plans i j p e f)),
  )
  step_balance {s} test (assign i j p q e f) =
      omega
        (arith, exchanged test s.plans i j p (some q) e f, count-delete test (state_of q) s.world)
  step_balance {s} test (destroy i p e) =
      omega
        (arith, set-owned test s.plans i none (some p) e, count-delete test (state_of p) s.world)
  step_balance test (call i a p m e f u) = omega arith

  Step-IsBalanced : {s t : Program M P} → Step class s t → IsBalanced s → IsBalanced t
  Step-IsBalanced st h test = omega (arith, step_balance test st, h test)

  pub Reach-IsBalanced : {s t : Program M P} → IsBalanced s → Reach class s t → IsBalanced t
  Reach-IsBalanced h here = h
  Reach-IsBalanced h (next r st) = Step-IsBalanced st (Reach-IsBalanced h r)
