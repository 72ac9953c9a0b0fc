-- ===== src/Owner.antt =====
-- include/fir/fir.h and include/fft/fft.h: who owns the state behind a plan. `FirPlan` and `FftPlan`
-- hold it by a `std::unique_ptr<void, DestroyFn>`, can be moved and not copied, and leave the rest to
-- the defaulted members. Here are that pointer, and the steps of a program with any number of plans.
-- Children have the variables and the proofs.
pub mod Ledger
pub mod Alone
pub mod Scope
use dsp_dispatch.Base.{ℕ, zero, suc, ◌≡◌, ◌≢◌, Pointer, none, some, Option, List, [], ◌∷◌, ◌++◌}
use dsp_dispatch.Base.Lists.{get_elem?, set}

-- Over what a program can change.
module _ (M : Type 0) where
  -- `void (*)(void* state)`
  abbrev pub DestroyFn : Type 0
  DestroyFn = ℕ → M → M

  -- A state with the function that destroys it.
  abbrev pub Owned : Type 0
  Owned = ℕ × DestroyFn

  -- `std::unique_ptr<void, DestroyFn>`
  pub record UniquePtr : Type 0 where
    pub pointer : Pointer
    pub deleter : DestroyFn

  -- The machine, and the calls of deleters so far.
  pub record World : Type 0 where
    pub machine : M
    pub destroyed : List Owned

module _ {M : Type 0} where
  -- What the pointer is responsible for.
  abbrev pub owned_by : UniquePtr M → List (Owned M)
  owned_by u = elim u.pointer [ none ↦ [] | some a ↦ (a, u.deleter) ∷ [] ]

  -- The source of a move.
  abbrev pub released : UniquePtr M → UniquePtr M
  released u = record u { pointer = none }

  -- `~unique_ptr`, and what `reset` does to the old pointer: the deleter is called unless it is null.
  unfoldable pub delete : UniquePtr M → World M → World M
  delete u w = elim u.pointer [
    | none ↦ w
    | some a ↦ record { machine = u.deleter a w.machine; destroyed = (a, u.deleter) ∷ w.destroyed }
  ]

-- What a class of plans is to its owner: its pointer, what a move leaves in the source, and the calls
-- that change the machine. The new plan of a move has all members of the source.
pub record Movable (M P : Type 0) : Type 1 where
  pub state_of : P → UniquePtr M
  pub moved_from : P → P
  pub state_of-moved_from : (p : P) → state_of (moved_from p) ≡ released (state_of p)
  pub Use : P → M → M → Type 0

-- A program with its variables, each with a plan while it lives, and the states that backends have
-- handed over so far.
pub record Program (M P : Type 0) : Type 0 where
  pub plans : List (Option P)
  pub world : World M
  pub created : List (Owned M)

module _ {M P : Type 0} (class : Movable M P) where
  open class use {state_of, moved_from}

  -- The states that the plans of a program are responsible for.
  abbrev pub owned_in : Option P → List (Owned M)
  owned_in o = elim o [ none ↦ [] | some p ↦ owned_by (state_of p) ]

  unfoldable pub owned : List (Option P) → List (Owned M)
  owned [] = []
  owned (o ∷ l) = owned_in o ++ owned l

  -- The move constructor: variable `i` begins with the plan `p` of variable `j`.
  abbrev pub move_construct : (i j : ℕ) → P → Program M P → Program M P
  move_construct i j p s = record s { plans = set (set s.plans j (some (moved_from p))) i (some p) }

  -- The move assignment of the plan `p` of variable `j` to variable `i`, which has the plan `t` when
  -- the source has given up its state.
  abbrev pub move_assign : (i j : ℕ) → (p t : P) → Program M P → Program M P
  move_assign i j p t s = record s {
    plans = set (set s.plans j (some (moved_from p))) i (some p);
    world = delete (state_of t) s.world;
  }

  -- The end of the lifetime of variable `i`, with its plan `p`.
  abbrev pub end_lifetime : (i : ℕ) → P → Program M P → Program M P
  end_lifetime i p s = record s { plans = set s.plans i none; world = delete (state_of p) s.world }

  -- A step of a program. A plan that has been moved from can be assigned to and destroyed; it is not
  -- called. A state is handed over at an address that no plan has.
  pub data Step (s : Program M P) : Program M P → Type 0 where
    create :
        (i a : ℕ) (p : P)
        → get_elem? s.plans i ≡ some none
        → (state_of p).pointer ≡ some a
        → ((j : ℕ) (q : P) → get_elem? s.plans j ≡ some (some q) → (state_of q).pointer ≢ some a)
        → Step s (record s {
          plans = set s.plans i (some p);
          created = (a, (state_of p).deleter) ∷ s.created;
        })
    construct :
        (i j : ℕ) (p : P)
        → get_elem? s.plans j ≡ some (some p)
        → get_elem? s.plans i ≡ some none
        → Step s (move_construct i j p s)
    assign :
        (i j : ℕ) (p t : P)
        → get_elem? s.plans j ≡ some (some p)
        → get_elem? (set s.plans j (some (moved_from p))) i ≡ some (some t)
        → Step s (move_assign i j p t s)
    destroy : (i : ℕ) (p : P) → get_elem? s.plans i ≡ some (some p) → Step s (end_lifetime i p s)
    call :
        (i a : ℕ) (p : P) (m : M)
        → get_elem? s.plans i ≡ some (some p)
        → (state_of p).pointer ≡ some a
        → class.Use p s.world.machine m
        → Step s (record s { world = record s.world { machine = m } })

  -- The end of the lifetime of variable `k`, if it lives.
  abbrev pub end_one : (k : ℕ) → Option (Option P) → Program M P → Program M P
  end_one k (some (some p)) s = end_lifetime k p s
  end_one k _ s = s

  -- The end of a scope: the variables below `k`, the last one first.
  unfoldable pub end_scope : (k : ℕ) → Program M P → Program M P
  end_scope zero s = s
  end_scope (suc k) s = end_scope k (end_one k (get_elem? s.plans k) s)

  -- What steps reach.
  pub data Reach (s : Program M P) : Program M P → Type 0 where
    here : Reach s s
    next : {t u : Program M P} → Reach s t → Step t u → Reach s u
