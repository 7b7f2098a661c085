-- ===== src/Loader/Modules/Gap.antt =====
-- add_module and remove_module of src/loader/module_list.c, at the end of the list and before it.
use my_wine.Prelude.{
  ℕ, zero, suc, ◌+◌, ◌-◌, ◌≤◌, ◌<◌, ◌≡◌, ◌≢◌, refl, sym, ap, ◌∙◌, arith, Bool, true, false, List,
  [], ◌∷◌, none, some, length, get_or, set, length-set, get_or-set, get_or-set_ne, set-set,
  set-get_or, leb, ltb, ◌==◌, if◌then◌else◌,
}
use mathlib.Core.Path.{ap₂}
use my_wine.Strings.{same_nocase_self, copy_str_whole}
use my_wine.Pe.{NtHeaders}
use my_wine.Loader.Modules.{
  Loaded, ModuleList, free_slot, max_modules, module_at, find_free_module, new_module, add_module,
  find_from, is_named_module, find_module_by_name, find_module_by_addr, holds_addr, remove_module,
  init_ldr_entry,
}
use my_wine.Loader.Modules.Find.{IsPacked, find_from_hit, find_from_first, find_from_miss}

-- The first free slot is the one behind the live ones.
find_free_module_first :
    (ms : List Loaded) (c : ℕ)
    → c < length ms
    → ((i : ℕ) → i < c → (get_or ms i free_slot).base ≢ 0)
    → (get_or ms c free_slot).base ≡ 0
    → find_free_module ms ≡ some c
unfolding find_free_module
find_free_module_first [] c inside live free = absurd (omega arith)
find_free_module_first (m ∷ ms) zero inside live free =
    let e : (m.base == 0) ≡ true = ground (arith, free) in rw e refl
find_free_module_first (m ∷ ms) (suc c) inside live free =
    let e : (m.base == 0) ≡ false = ground (arith, live 0 (omega arith)) in
    rw (e, find_free_module_first ms c (omega arith) (λ i h. live (suc i) (omega arith)) free) refl

find_free_module_full :
    (ms : List Loaded)
    → ((i : ℕ) → i < length ms → (get_or ms i free_slot).base ≢ 0)
    → find_free_module ms ≡ none
unfolding find_free_module
find_free_module_full [] live = refl
find_free_module_full (m ∷ ms) live =
    let e : (m.base == 0) ≡ false = ground (arith, live 0 (omega arith)) in
    rw (e, find_free_module_full ms (λ i h. live (suc i) (omega arith))) refl

list_eq : (l l' : ModuleList) → l.modules ≡ l'.modules → l.module_count ≡ l'.module_count → l ≡ l'
list_eq l l' e f = ap₂ (λ ms n. record { modules = ms; module_count = n }) e f

removed : ℕ → ModuleList → ModuleList
removed i l = record { modules = set l.modules i free_slot; module_count = l.module_count - 1 }

remove_module-below :
    (i : ℕ) (l : ModuleList) → i < l.module_count → remove_module i l ≡ removed i l
unfolding remove_module removed
remove_module-below i l h = let e : ltb i l.module_count ≡ true = ground arith in rw e refl

module _ (base : ℕ) (name : List ℕ) (nt : NtHeaders) (l : ModuleList) where
  added : ModuleList
  added = record {
    modules = set l.modules l.module_count (new_module base name nt);
    module_count = l.module_count + 1;
  }

  add_module-packed :
      IsPacked l
      → l.module_count < max_modules
      → add_module base name nt l ≡ (some l.module_count, added)
  unfolding add_module added
  add_module-packed p room =
      rw
        (
          add_module,
          find_free_module_first l.modules l.module_count (omega (arith, p.size)) p.live
              (ap (λ m. m.base) (p.zeroed l.module_count (omega arith))),
        )
        refl

  added_at :
      (i : ℕ)
      → IsPacked l
      → l.module_count < max_modules
      → module_at added i ≡ (if l.module_count == i then new_module base name nt else module_at l i)
  unfolding added
  added_at i p room =
      get_or-set l.modules l.module_count i (new_module base name nt) free_slot
        (omega (arith, p.size))

  added-IsPacked : base ≢ 0 → IsPacked l → l.module_count < max_modules → IsPacked added
  unfolding added new_module init_ldr_entry
  added-IsPacked real p room = record {
    size = length-set l.modules l.module_count (new_module base name nt) ∙ p.size;
    bound = omega arith;
    live = λ i h. ground (arith, added_at i p room, p.live i);
    zeroed = λ i h. ground (arith, added_at i p room, p.zeroed i);
  }

-- On a list without gaps and with a free slot, add_module of an image with a base puts it behind the
-- others and leaves no gap, and a search for its name, of at most 259 bytes, finds it there if it
-- found nothing before.
pub find_module_by_name-add_module :
    (base : ℕ) (name : List ℕ) (nt : NtHeaders) (l : ModuleList)
    → IsPacked l
    → l.module_count < max_modules
    → base ≢ 0
    → leb (length name) 259 ≡ true
    → find_module_by_name name l ≡ none
    → let (m, l') = add_module base name nt l in
      (m ≡ some l.module_count)
      × IsPacked l'
      × (find_module_by_name name l' ≡ some l.module_count)
      × ((module_at l' l.module_count).nt ≡ some nt)
unfolding find_module_by_name
find_module_by_name-add_module base name nt l p room real short fresh =
    rw (add_module-packed base name nt l p room)
      (refl, added-IsPacked base name nt l real p room, found, ap (λ m. m.nt) here ∙ headers)
  where
    here : module_at (added base name nt l) l.module_count ≡ new_module base name nt
    here =
        let e : (l.module_count == l.module_count) ≡ true = ground arith in
        added_at base name nt l l.module_count p room ∙ rw e refl

    headers : (new_module base name nt).nt ≡ some nt
    headers = unfold new_module init_ldr_entry in refl

    named : is_named_module name (new_module base name nt) ≡ true
    named =
        let e : (base == 0) ≡ false = ground arith in
        unfold is_named_module new_module init_ldr_entry in
        rw (copy_str_whole 259 name short, e, same_nocase_self name) refl

    before :
        (k : ℕ)
        → 0 ≤ k
        → k < l.module_count
        → is_named_module name (module_at (added base name nt l) k) ≡ false
    before k a b =
        let e : (l.module_count == k) ≡ false = ground arith in
        ap (is_named_module name) (added_at base name nt l k p room ∙ rw e refl)
        ∙ find_from_miss (is_named_module name) l l.module_count 0 k fresh a (omega arith)

    found :
        find_from
          (is_named_module name)
          (added base name nt l)
          (added base name nt l).module_count
          0
        ≡ some l.module_count
    found =
        find_from_first (is_named_module name) (added base name nt l)
          (added base name nt l).module_count 0 l.module_count (omega arith)
          (unfold added in omega arith) (ap (is_named_module name) here ∙ named) before

-- Removing the module that was added last, as a load that fails does, gives a list without gaps back
-- as it was.
pub remove_module-add_module :
    (base : ℕ) (name : List ℕ) (nt : NtHeaders) (l : ModuleList)
    → IsPacked l
    → l.module_count < max_modules
    → remove_module l.module_count (add_module base name nt l).1 ≡ l
unfolding remove_module added
remove_module-add_module base name nt l p room =
    let e : ltb l.module_count (l.module_count + 1) ≡ true = ground arith in
    let back =
      set-set l.modules l.module_count (new_module base name nt) free_slot
      ∙ ap (set l.modules l.module_count) (sym (p.zeroed l.module_count (omega arith)))
      ∙ set-get_or l.modules l.module_count free_slot in
    rw (add_module-packed base name nt l p room, e) (list_eq _ _ back (omega arith))

-- On a list without gaps, removing a module that is not the last one makes the last one, which stays
-- loaded, unreachable: no search by name or by address finds it, and remove_module leaves it.
pub remove_module_hides :
    (i j : ℕ) (l : ModuleList)
    → IsPacked l
    → i < j
    → j + 1 ≡ l.module_count
    → let l' = remove_module i l in
      ((module_at l' j).base ≢ 0)
      × ((name : List ℕ) → find_module_by_name name l' ≢ some j)
      × ((addr : ℕ) → find_module_by_addr addr l' ≢ some j)
      × (remove_module j l' ≡ l')
unfolding find_module_by_name find_module_by_addr removed
remove_module_hides i j l p before last = rw (remove_module-below i l (omega arith)) (
  λ e. p.live j (omega arith) (sym (ap (λ m. m.base) kept) ∙ e),
  λ name e. beyond (is_named_module name) e,
  λ addr e. beyond (holds_addr addr) e,
  stays,
)
  where
    kept : module_at (removed i l) j ≡ module_at l j
    kept = get_or-set_ne l.modules i j free_slot free_slot (λ e. absurd (omega arith))

    beyond : (q : Loaded → Bool) → find_from q (removed i l) (removed i l).module_count 0 ≢ some j
    beyond q e =
        let high = (find_from_hit q (removed i l) (l.module_count - 1) 0 j e).1 in
        absurd (omega (arith, high))

    stays : remove_module j (removed i l) ≡ removed i l
    stays =
        let e : ltb j (l.module_count - 1) ≡ false = ground arith in
        unfold remove_module in rw e refl
