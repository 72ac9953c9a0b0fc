-- ===== src/Bench/Fir/Main.antt =====
-- bench/bench_fir.cpp: the benchmarks that `main` registers. Their names tell them apart.
use mathlib.Core.List.{append_cancel_left, append_assoc}
use dsp_dispatch.Base.{
  ℕ, suc, ◌*◌, ◌≡◌, ◌⊎◌, inl, inr, refl, ap, sym, ◌∙◌, arith, some, List, [], ◌∷◌, ◌++◌, zero,
}
use dsp_dispatch.Base.Lists.{get_elem?, get_elem?-append, length}
use dsp_dispatch.Base.Decimal.{codes, to_string, to_string-injective, to_string-slash}
use dsp_dispatch.Bench.Percentile.{Doubles}
use dsp_dispatch.Bench.Register.{Registration, register_execute, register_plan_create}

-- The lambdas that are registered, with what they capture.
pub data Run : Type 0 where
  run_execute : (block_size tap_count : ℕ) → Run
  run_plan_create : (block_size tap_count : ℕ) → Run

-- `kBlockSizes` and `kTapCounts`
abbrev pub block_sizes : List ℕ
block_sizes = 64 ∷ 128 ∷ 256 ∷ 512 ∷ 1024 ∷ 2048 ∷ 4096 ∷ 8192 ∷ []

abbrev pub tap_counts : List ℕ
tap_counts = 8 ∷ 32 ∷ 128 ∷ []

abbrev pub suffix : (block_size tap_count : ℕ) → List ℕ
suffix block_size tap_count = to_string block_size ++ codes "/taps/" ++ to_string tap_count

-- the first character of a name
abbrev first : List ℕ → ℕ
first [] = 0
first (c ∷ s) = c

module _ (doubles : Doubles) where
  abbrev pub execute_benchmark : (block_size tap_count : ℕ) → Registration doubles Run
  execute_benchmark block_size tap_count =
      register_execute doubles (codes "execute/real/f32/block/" ++ suffix block_size tap_count)
        (Run.run_execute block_size tap_count)

  abbrev pub plan_create_benchmark : (block_size tap_count : ℕ) → Registration doubles Run
  plan_create_benchmark block_size tap_count =
      register_plan_create doubles
        (codes "plan_create/real/f32/block/" ++ suffix block_size tap_count)
        (Run.run_plan_create block_size tap_count)

  -- The inner and the outer loop of `main`, over the arrays.
  unfoldable pub register_taps : (block_size : ℕ) → List ℕ → List (Registration doubles Run)
  register_taps block_size [] = []
  register_taps block_size (t ∷ ts) =
      execute_benchmark block_size t
      ∷ plan_create_benchmark block_size t
      ∷ register_taps block_size ts

  unfoldable pub register_blocks : (blocks taps : List ℕ) → List (Registration doubles Run)
  register_blocks [] ts = []
  register_blocks (b ∷ bs) ts = register_taps b ts ++ register_blocks bs ts

  abbrev pub main : List (Registration doubles Run)
  main = register_blocks block_sizes tap_counts

  suffix-injective : (b b' t t' : ℕ) → suffix b t ≡ suffix b' t' → (b ≡ b') × (t ≡ t')
  suffix-injective b b' t t' e =
      let (same, rest) =
        to_string-slash b b' (codes "taps/" ++ to_string t) (codes "taps/" ++ to_string t') (
          sym (append_assoc (to_string b) (codes "/taps/") (to_string t))
          ∙ e
          ∙ append_assoc (to_string b') (codes "/taps/") (to_string t')) in
      (same, to_string-injective t t' (append_cancel_left (codes "taps/") _ _ rest))

  -- A registered benchmark is one of a pair.
  abbrev IsListed : Registration doubles Run → Type 0
  IsListed e = (b t : ℕ) × ((e ≡ execute_benchmark b t) ⊎ (e ≡ plan_create_benchmark b t))

  register_taps-IsListed :
      (b : ℕ) (ts : List ℕ) (i : ℕ) (e : Registration doubles Run)
      → get_elem? (register_taps b ts) i ≡ some e
      → IsListed e
  unfolding register_taps
  register_taps-IsListed b [] i e h = cc
  register_taps-IsListed b (t ∷ ts) zero e h = (b, t, inl cc)
  register_taps-IsListed b (t ∷ ts) (suc zero) e h = (b, t, inr cc)
  register_taps-IsListed b (t ∷ ts) (suc (suc i)) e h = register_taps-IsListed b ts i e h

  register_blocks-IsListed :
      (bs ts : List ℕ) (i : ℕ) (e : Registration doubles Run)
      → get_elem? (register_blocks bs ts) i ≡ some e
      → IsListed e
  unfolding register_blocks
  register_blocks-IsListed [] ts i e h = cc
  register_blocks-IsListed (b ∷ bs) ts i e h =
      elim (get_elem?-append (register_taps b ts) (register_blocks bs ts) i e h) [
        | inl here ↦ register_taps-IsListed b ts i e here
        | inr (j, there) ↦ register_blocks-IsListed bs ts j e there
      ]

  abbrev name_of : Registration doubles Run → List ℕ
  name_of e = e.name

  name-IsListed :
      (e e' : Registration doubles Run) → IsListed e → IsListed e' → name_of e ≡ name_of e' → e ≡ e'
  name-IsListed e e' (b, t, inl x) (b', t', inl x') h =
      let (block, taps) = suffix-injective b b' t t' (
        append_cancel_left (codes "execute/real/f32/block/") (suffix b t) (suffix b' t')
          (sym (ap name_of x) ∙ h ∙ ap name_of x')) in
      x ∙ rw (block, taps) refl ∙ sym x'
  name-IsListed e e' (b, t, inl x) (b', t', inr x') h =
      absurd (omega (arith, ap first (sym (ap name_of x) ∙ h ∙ ap name_of x')))
  name-IsListed e e' (b, t, inr x) (b', t', inl x') h =
      absurd (omega (arith, ap first (sym (ap name_of x) ∙ h ∙ ap name_of x')))
  name-IsListed e e' (b, t, inr x) (b', t', inr x') h =
      let (block, taps) = suffix-injective b b' t t' (
        append_cancel_left (codes "plan_create/real/f32/block/") (suffix b t) (suffix b' t')
          (sym (ap name_of x) ∙ h ∙ ap name_of x')) in
      x ∙ rw (block, taps) refl ∙ sym x'

  -- Whatever block sizes and numbers of taps the arrays have, two entries of what the loops of `main`
  -- register that have the same name are the same benchmark: the name gives the run, its sizes and its
  -- settings.
  pub register_blocks-name :
      (blocks taps : List ℕ) (i j : ℕ) (e e' : Registration doubles Run)
      → get_elem? (register_blocks blocks taps) i ≡ some e
      → get_elem? (register_blocks blocks taps) j ≡ some e'
      → name_of e ≡ name_of e'
      → e ≡ e'
  register_blocks-name blocks taps i j e e' at at' =
      name-IsListed e e' (register_blocks-IsListed blocks taps i e at)
        (register_blocks-IsListed blocks taps j e' at')

  length-register_taps : (b : ℕ) (ts : List ℕ) → length (register_taps b ts) ≡ 2 * length ts
  unfolding register_taps
  length-register_taps b [] = refl
  length-register_taps b (t ∷ ts) = omega (arith, length-register_taps b ts)

  -- `main` registers two benchmarks for each block size and number of taps.
  length-main : length main ≡ 48
  unfolding register_blocks register_taps
  length-main = refl
