-- ===== src/Base/Loop.antt =====
-- Counted loops, `for (i = first; i < first + n; ++i) s = body i s;`, and their invariant rule.
use Prim.Native.Nat.{ℕ, zero, suc, ◌+◌, ◌≤◌, ◌<◌}
use mathlib.Core.Path.{◌≡◌, subst}
use native.Mathlib.Omega.{arith}

unfoldable pub for_range {ℓ} : {S : Type ℓ} → (rounds i : ℕ) → (ℕ → S → S) → S → S
for_range zero i body s = s
for_range (suc n) i body s = for_range n (suc i) body (body i s)

-- What holds at `i` before the loop and is kept by each of its rounds holds at the end.
pub for_range_inv {ℓ κ} :
    {S : Type ℓ} (P : ℕ → S → Type κ) (body : ℕ → S → S) (stop n i : ℕ) (s : S)
    → i + n ≡ stop
    → ((k : ℕ) (t : S) → i ≤ k → k < stop → P k t → P (suc k) (body k t))
    → P i s
    → P stop (for_range n i body s)
unfolding for_range
for_range_inv P body stop zero i s e keep p = subst (λ k. P k s) (omega arith) p
for_range_inv P body stop (suc n) i s e keep p =
    for_range_inv P body stop n (suc i) (body i s) (omega arith) (λ k t lo. keep k t (omega arith))
      (keep i s (omega arith) (omega arith) p)
