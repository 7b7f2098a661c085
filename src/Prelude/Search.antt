-- ===== src/Prelude/Search.antt =====
-- The search for the first entry of a list that passes a test.
use Prim.Native.Nat.{ℕ, zero, suc, ◌<◌}
use mathlib.Core.Path.{◌≡◌, refl, sym}
use mathlib.Core.Logic.{◌≢◌, inl, inr}
use mathlib.Core.Bool.{Bool, true, false}
use mathlib.Core.List.{List, [], ◌∷◌}
use mathlib.Core.Option.{Option, none, some}
use mathlib.Core.Option
use native.Mathlib.Omega.{arith}
use my_wine.Prelude.Tests.{if◌then◌else◌, Bool-cases, Option-cases}
use my_wine.Prelude.Lists.{length, get_or, set}

none≢some : (i : ℕ) → ◌≢◌ {A = Option ℕ} none (some i)
none≢some i e = cc

some-inj : (i j : ℕ) → ◌≡◌ {A = Option ℕ} (some i) (some j) → i ≡ j
some-inj i j e = cc

module _ {ℓ} {A : Type ℓ} where
  unfoldable pub find_index : (A → Bool) → List A → Option ℕ
  find_index p [] = none
  find_index p (r ∷ table) =
      let rest = Option.map suc (find_index p table) in if p r then some 0 else rest

  -- The parts of a search that failed.
  pub find_index-none :
      (p : A → Bool) (x : A) (table : List A)
      → find_index p (x ∷ table) ≡ none
      → (p x ≡ false) × (find_index p table ≡ none)
  unfolding find_index
  find_index-none p x table e = elim (Bool-cases (p x)) [
    | inl here ↦ absurd (none≢some 0 (sym (rw here at e)))
    | inr other ↦ elim (Option-cases (find_index p table)) [
      | inl f ↦ (other, f)
      | inr f ↦ absurd (none≢some (suc f.0) (sym (rw (other, f.1) at e)))
    ]
  ]

  pub find_index-hit :
      (p : A → Bool) (table : List A) (i : ℕ) (d : A)
      → find_index p table ≡ some i
      → (i < length table) × (p (get_or table i d) ≡ true)
  unfolding find_index
  find_index-hit p [] i d e = absurd (none≢some i e)
  find_index-hit p (r ∷ table) i d e = elim (Bool-cases (p r)) [
    | inl here ↦ let first : 0 ≡ i = some-inj 0 i (rw here at e) in rw (← first) (omega arith, here)
    | inr other ↦ elim (Option-cases (find_index p table)) [
      | inl f ↦ absurd (none≢some i (rw (other, f) at e))
      | inr f ↦
          let next : suc f.0 ≡ i = some-inj (suc f.0) i (rw (other, f.1) at e) in
          let rest = find_index-hit p table f.0 d f.1 in rw (← next) (omega (arith, rest.0), rest.1)
    ]
  ]

  -- Where the test failed everywhere, it is met at the one slot that is written.
  pub find_index-set :
      (p : A → Bool) (table : List A) (i : ℕ) (r : A)
      → find_index p table ≡ none
      → i < length table
      → p r ≡ true
      → find_index p (set table i r) ≡ some i
  unfolding find_index
  find_index-set p [] i r e b h = absurd (omega arith)
  find_index-set p (x ∷ table) zero r e b h = rw h refl
  find_index-set p (x ∷ table) (suc i) r e b h =
      let parts = find_index-none p x table e in
      rw (parts.0, find_index-set p table i r parts.1 (omega arith) h) refl

  -- Writing the slot that was found with another entry that passes leaves the search as it was.
  pub find_index-rewrite :
      (p : A → Bool) (table : List A) (i : ℕ) (r : A)
      → find_index p table ≡ some i
      → p r ≡ true
      → find_index p (set table i r) ≡ some i
  unfolding find_index
  find_index-rewrite p [] i r e h = absurd (none≢some i e)
  find_index-rewrite p (x ∷ table) i r e h = elim (Bool-cases (p x)) [
    | inl here ↦ let first : 0 ≡ i = some-inj 0 i (rw here at e) in rw (← first, h) refl
    | inr other ↦ elim (Option-cases (find_index p table)) [
      | inl f ↦ absurd (none≢some i (rw (other, f) at e))
      | inr f ↦
          let next : suc f.0 ≡ i = some-inj (suc f.0) i (rw (other, f.1) at e) in
          let rest = find_index-rewrite p table f.0 r f.1 h in rw (← next, other, rest) refl
    ]
  ]
