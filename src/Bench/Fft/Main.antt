-- ===== src/Bench/Fft/Main.antt =====
-- bench/bench_fft.cpp: the benchmarks that `main` registers. Their names tell them apart.
use mathlib.Core.List.{append_cancel_left}
use dsp_dispatch.Base.{
  ℕ, zero, suc, ◌≡◌, ◌⊎◌, inl, inr, refl, ap, sym, ◌∙◌, arith, some, List, [], ◌∷◌, ◌++◌,
}
use dsp_dispatch.Base.Lists.{get_elem?, length}
use dsp_dispatch.Base.Decimal.{codes, to_string, to_string-injective}
use dsp_dispatch.Bench.Percentile.{Doubles}
use dsp_dispatch.Bench.Register.{Registration, register_execute, register_plan_create}

-- The lambdas that are registered, with what they capture.
pub data Run : Type 0 where
  run_execute : (n : ℕ) → Run
  run_plan_create : (n : ℕ) → Run

-- `kLengths`
abbrev pub lengths : List ℕ
lengths = 64 ∷ 128 ∷ 256 ∷ 512 ∷ 1024 ∷ 2048 ∷ 4096 ∷ 8192 ∷ 16384 ∷ []

-- the first character of a name
abbrev first : List ℕ → ℕ
first [] = 0
first (c ∷ s) = c

module _ (doubles : Doubles) where
  abbrev pub execute_benchmark : (n : ℕ) → Registration doubles Run
  execute_benchmark n =
      register_execute doubles (codes "execute/c2c/f32/" ++ to_string n) (Run.run_execute n)

  abbrev pub plan_create_benchmark : (n : ℕ) → Registration doubles Run
  plan_create_benchmark n =
      register_plan_create doubles (codes "plan_create/c2c/f32/" ++ to_string n)
        (Run.run_plan_create n)

  -- The loop of `main`, over the array.
  unfoldable pub register_lengths : List ℕ → List (Registration doubles Run)
  register_lengths [] = []
  register_lengths (n ∷ ns) = execute_benchmark n ∷ plan_create_benchmark n ∷ register_lengths ns

  abbrev pub main : List (Registration doubles Run)
  main = register_lengths lengths

  -- A registered benchmark is one of a pair.
  abbrev IsListed : Registration doubles Run → Type 0
  IsListed e = (n : ℕ) × ((e ≡ execute_benchmark n) ⊎ (e ≡ plan_create_benchmark n))

  register_lengths-IsListed :
      (ns : List ℕ) (i : ℕ) (e : Registration doubles Run)
      → get_elem? (register_lengths ns) i ≡ some e
      → IsListed e
  unfolding register_lengths
  register_lengths-IsListed [] i e h = cc
  register_lengths-IsListed (n ∷ ns) zero e h = (n, inl cc)
  register_lengths-IsListed (n ∷ ns) (suc zero) e h = (n, inr cc)
  register_lengths-IsListed (n ∷ ns) (suc (suc i)) e h = register_lengths-IsListed ns i e h

  abbrev name_of : Registration doubles Run → List ℕ
  name_of e = e.name

  name-IsListed :
      (e e' : Registration doubles Run) → IsListed e → IsListed e' → name_of e ≡ name_of e' → e ≡ e'
  name-IsListed e e' (n, inl x) (n', inl x') h =
      let length = to_string-injective n n' (
        append_cancel_left (codes "execute/c2c/f32/") (to_string n) (to_string n')
          (sym (ap name_of x) ∙ h ∙ ap name_of x')) in
      x ∙ ap execute_benchmark length ∙ sym x'
  name-IsListed e e' (n, inl x) (n', inr x') h =
      absurd (omega (arith, ap first (sym (ap name_of x) ∙ h ∙ ap name_of x')))
  name-IsListed e e' (n, inr x) (n', inl x') h =
      absurd (omega (arith, ap first (sym (ap name_of x) ∙ h ∙ ap name_of x')))
  name-IsListed e e' (n, inr x) (n', inr x') h =
      let length = to_string-injective n n' (
        append_cancel_left (codes "plan_create/c2c/f32/") (to_string n) (to_string n')
          (sym (ap name_of x) ∙ h ∙ ap name_of x')) in
      x ∙ ap plan_create_benchmark length ∙ sym x'

  -- Whatever lengths the array has, two entries of what the loop of `main` registers that have the
  -- same name are the same benchmark: the name gives the run, its length and its settings.
  pub register_lengths-name :
      (ns : List ℕ) (i j : ℕ) (e e' : Registration doubles Run)
      → get_elem? (register_lengths ns) i ≡ some e
      → get_elem? (register_lengths ns) j ≡ some e'
      → name_of e ≡ name_of e'
      → e ≡ e'
  register_lengths-name ns i j e e' at at' =
      name-IsListed e e' (register_lengths-IsListed ns i e at)
        (register_lengths-IsListed ns j e' at')

  -- `main` registers two benchmarks for each length.
  length-main : length main ≡ 18
  unfolding register_lengths
  length-main = refl
