-- ===== src/Owner/Scope.antt =====
-- The end of a scope leaves nothing behind.
use mathlib.Core.Path.{subst}
use dsp_dispatch.Base.{
  ℕ, zero, suc, ◌≤◌, ◌≡◌, refl, ◌∙◌, arith, Bool, ◌==◌, some, none, Option, List, [], ◌∷◌,
  Bool-cases, inl, inr,
}
use dsp_dispatch.Owner.{Owned, Movable, Program, owned, end_one, end_scope, Reach, destroy, next}
use dsp_dispatch.Base.Lists.{
  get_elem?, set, count, length, get_elem?-lt-length, get_elem?-set_self, get_elem?-of_set,
}
use dsp_dispatch.Owner.Alone.{IsStart, Reach-IsSound}

module _ {M P : Type 0} (class : Movable M P) where
  -- The variables from `k` on have no plan.
  abbrev AllEnded : ℕ → List (Option P) → Type 0
  AllEnded k l = (i : ℕ) (o : Option P) → k ≤ i → get_elem? l i ≡ some o → o ≡ none

  AllEnded-nil : (l : List (Option P)) → AllEnded 0 l → owned class l ≡ []
  unfolding owned
  AllEnded-nil [] h = refl
  AllEnded-nil (o ∷ l) h =
      rw (h 0 o (omega arith) refl) (AllEnded-nil l (λ i o lo e. h (suc i) o (omega arith) e))

  end_one-Reach :
      (k : ℕ) (o : Option (Option P)) {s t : Program M P}
      → get_elem? t.plans k ≡ o
      → Reach class s t
      → Reach class s (end_one class k o t)
  end_one-Reach k none e r = r
  end_one-Reach k (some none) e r = r
  end_one-Reach k (some (some p)) e r = next r (destroy k p e)

  end_one-AllEnded :
      (k : ℕ) (o : Option (Option P)) (t : Program M P)
      → get_elem? t.plans k ≡ o
      → AllEnded (suc k) t.plans
      → AllEnded k (end_one class k o t).plans
  end_one-AllEnded k none t e h i o lo f = elim (Bool-cases (k == i)) [
    | inl same ↦ ground (arith, e, f, same)
    | inr apart ↦ h i o (ground (arith, apart)) f
  ]
  end_one-AllEnded k (some none) t e h i o lo f = elim (Bool-cases (k == i)) [
    | inl same ↦ ground (arith, e, f, same)
    | inr apart ↦ h i o (ground (arith, apart)) f
  ]
  end_one-AllEnded k (some (some p)) t e h i o lo f = elim (Bool-cases (k == i)) [
    | inl same ↦
        let here : i ≡ k = ground (arith, same) in
        get_elem?-set_self t.plans k none o
          (subst (λ n. get_elem? (set t.plans k none) n ≡ some o) here f)
    | inr apart ↦
        h i o (ground (arith, apart))
          (get_elem?-of_set t.plans k i none o f (λ e. ground (arith, e, apart)))
  ]

  end_one-created :
      (k : ℕ) (o : Option (Option P)) (t : Program M P) → (end_one class k o t).created ≡ t.created
  end_one-created k none t = refl
  end_one-created k (some none) t = refl
  end_one-created k (some (some p)) t = refl

  -- What the end of a scope gives, of variables below `k`.
  end_scope-Reach :
      (k : ℕ) {s : Program M P} (t : Program M P)
      → Reach class s t
      → AllEnded k t.plans
      → Reach class s (end_scope class k t)
        × (owned class (end_scope class k t).plans ≡ [])
        × ((end_scope class k t).created ≡ t.created)
  unfolding end_scope
  end_scope-Reach zero t r ended = (r, AllEnded-nil t.plans ended, refl)
  end_scope-Reach (suc k) t r ended =
      let o = get_elem? t.plans k in
      let (reached, none_left, same) =
        end_scope-Reach k (end_one class k o t) (end_one-Reach k o refl r)
          (end_one-AllEnded k o t refl ended) in
      (reached, none_left, same ∙ end_one-created k o t)

  -- From whatever a program has reached, the end of the scope of all its variables is a sequence of
  -- its steps, and then every state has been destroyed as often as it has been handed over.
  pub end_scope-Balanced :
      {s t : Program M P}
      → IsStart class s
      → Reach class s t
      → let end = end_scope class (length t.plans) t in
        Reach class s end
        × (owned class end.plans ≡ [])
        × ((test : Owned M → Bool) → count test t.created ≡ count test end.world.destroyed)
  unfolding count
  end_scope-Balanced {t} start r =
      let (reached, none_left, same) =
        end_scope-Reach (length t.plans) t r
          (λ i o lo e. absurd (omega (arith, get_elem?-lt-length t.plans i o e))) in
      (
        reached,
        none_left,
        λ test.
            rw (← same)
              (ground (arith, (Reach-IsSound class start reached).balanced test, none_left)),
      )
