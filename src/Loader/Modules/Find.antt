-- ===== src/Loader/Modules/Find.antt =====
-- The searches of src/loader/module_list.c, and adding a module.
use my_wine.Prelude.{
  ℕ, zero, suc, ◌+◌, ◌≤◌, ◌<◌, ◌≡◌, ◌≢◌, refl, ◌∙◌, arith, inl, inr, Bool, true, false, List, [],
  ◌∷◌, Option, none, some, length, get_or-replicate, Bool-cases, ◌==◌,
}
use my_wine.Strings.{ascii_lower, same_nocase}
use my_wine.Loader.Modules.{
  Loaded, ModuleList, free_slot, max_modules, module_at, init_module_list, find_from,
  is_named_module, find_module_by_name, both_end, find_module_by_name_safe,
}

-- The modules fill the slots below the count, and the others are zeroed.
pub record IsPacked (l : ModuleList) : Type 0 where
  pub size : length l.modules ≡ max_modules
  pub bound : l.module_count ≤ max_modules
  pub live : (i : ℕ) → i < l.module_count → (module_at l i).base ≢ 0
  pub zeroed : (i : ℕ) → l.module_count ≤ i → module_at l i ≡ free_slot

pub init-IsPacked : IsPacked init_module_list
unfolding init_module_list
init-IsPacked = record {
  size = refl;
  bound = omega arith;
  live = λ i h. absurd (omega arith);
  zeroed = λ i h. get_or-replicate 16 i free_slot;
}

pub find_from_hit :
    (p : Loaded → Bool) (l : ModuleList) (rounds i j : ℕ)
    → find_from p l rounds i ≡ some j
    → (i ≤ j) × (j < i + rounds) × (p (module_at l j) ≡ true)
unfolding find_from
find_from_hit p l zero i j h = absurd (ground (arith, h))
find_from_hit p l (suc rounds) i j h = elim (Bool-cases (p (module_at l i))) [
  | inl e ↦ ground (arith, e, h)
  | inr e ↦
      let rest : find_from p l rounds (i + 1) ≡ some j = rw e at h in
      let (low, high, own) = find_from_hit p l rounds (i + 1) j rest in
      (omega (arith, low), omega (arith, high), own)
]

-- Searches whose tests agree on the slots that they look at agree.
pub find_from_cong :
    (p q : Loaded → Bool) (l : ModuleList) (rounds i : ℕ)
    → ((j : ℕ) → i ≤ j → j < i + rounds → p (module_at l j) ≡ q (module_at l j))
    → find_from p l rounds i ≡ find_from q l rounds i
unfolding find_from
find_from_cong p q l zero i same = refl
find_from_cong p q l (suc rounds) i same =
    rw
      (
        same i (omega arith) (omega arith),
        find_from_cong p q l rounds (i + 1) (λ j a b. same j (omega arith) (omega arith)),
      )
      refl

-- The first slot that passes the test is found.
pub find_from_first :
    (p : Loaded → Bool) (l : ModuleList) (rounds i j : ℕ)
    → i ≤ j
    → j < i + rounds
    → p (module_at l j) ≡ true
    → ((k : ℕ) → i ≤ k → k < j → p (module_at l k) ≡ false)
    → find_from p l rounds i ≡ some j
unfolding find_from
find_from_first p l zero i j low high own before = absurd (omega arith)
find_from_first p l (suc rounds) i j low high own before = elim (Bool-cases (i == j)) [
  | inl here ↦ ground (arith, own)
  | inr past ↦ rw (before i (omega arith) (ground arith)) (
      find_from_first p l rounds (i + 1) j (ground arith) (omega arith) own
        (λ k a b. before k (omega arith) b))
]

-- Nothing is found where every test fails.
pub find_from_miss :
    (p : Loaded → Bool) (l : ModuleList) (rounds i k : ℕ)
    → find_from p l rounds i ≡ none
    → i ≤ k
    → k < i + rounds
    → p (module_at l k) ≡ false
unfolding find_from
find_from_miss p l zero i k h low high = absurd (omega arith)
find_from_miss p l (suc rounds) i k h low high = elim (Bool-cases (p (module_at l i))) [
  | inl e ↦ let bad : ◌≡◌ {A = Option ℕ} (some i) none = rw e at h in absurd (ground (arith, bad))
  | inr e ↦ elim (Bool-cases (i == k)) [
    | inl here ↦ ground (arith, e)
    | inr past ↦ find_from_miss p l rounds (i + 1) k (rw e at h) (ground arith) (omega arith)
  ]
]

both_end-same_nocase : (as' bs : List ℕ) → both_end as' bs ≡ same_nocase as' bs
unfolding both_end same_nocase ascii_lower
both_end-same_nocase [] [] = refl
both_end-same_nocase [] (b ∷ bs) = refl
both_end-same_nocase (a ∷ as') [] = refl
both_end-same_nocase (a ∷ as') (b ∷ bs) = elim (Bool-cases (ascii_lower a == ascii_lower b)) [
  | inl e ↦ rw e (both_end-same_nocase as' bs)
  | inr e ↦ rw e refl
]

-- Where every slot below the count is live, the two searches by name agree.
pub find_module_by_name_safe-eq :
    (name : List ℕ) (l : ModuleList)
    → ((i : ℕ) → i < l.module_count → (module_at l i).base ≢ 0)
    → find_module_by_name_safe name l ≡ find_module_by_name name l
unfolding find_module_by_name find_module_by_name_safe is_named_module
find_module_by_name_safe-eq name l live =
    find_from_cong (λ m. both_end m.name name) (is_named_module name) l l.module_count 0
      (λ j a b.
        let alive : ((module_at l j).base == 0) ≡ false = ground (arith, live j (omega arith)) in
        both_end-same_nocase (module_at l j).name name ∙ rw alive refl)
