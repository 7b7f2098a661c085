-- ===== src/Registry/Find.antt =====
-- Searching the values of the registry: reg_find_value and reg_ensure_value.
use my_wine.Prelude.{
  ℕ, zero, suc, ◌<◌, ◌≡◌, ◌≢◌, refl, sym, ap, arith, inl, inr, true, false, List, [], ◌∷◌, Option,
  none, some, length, get_or, set, Bool-cases, Option-cases, leb, ◌==◌,
}
use my_wine.Registry.{
  Value, is_value, reg_find_value, find_unused, new_value, unused, reg_copy_cstr,
}
use my_wine.Classes.{same_name}
use my_wine.Classes.Laws.{same_name_self}

some_ne_none : {i : ℕ} → ◌≢◌ {A = Option ℕ} (some i) none
some_ne_none e = cc

pub find_hit :
    (vs : List Value) (path name : List ℕ) (i : ℕ)
    → reg_find_value vs path name ≡ some i
    → (i < length vs) × (is_value path name (get_or vs i unused) ≡ true)
unfolding reg_find_value
find_hit [] path name i h = absurd (some_ne_none (sym h))
find_hit (v ∷ vs) path name zero h = elim (Bool-cases (is_value path name v)) [
  | inl e ↦ (omega arith, e)
  | inr e ↦ elim (Option-cases (reg_find_value vs path name)) [
    | inl none_found ↦
        let bad : ◌≡◌ {A = Option ℕ} none (some 0) = rw (e, none_found) at h in
        absurd (some_ne_none (sym bad))
    | inr (j, found) ↦
        let bad : ◌≡◌ {A = Option ℕ} (some (suc j)) (some 0) = rw (e, found) at h in
        absurd (ground (arith, bad))
  ]
]
find_hit (v ∷ vs) path name (suc i) h = elim (Bool-cases (is_value path name v)) [
  | inl e ↦ let bad : some 0 ≡ some (suc i) = rw e at h in absurd (ground (arith, bad))
  | inr e ↦ elim (Option-cases (reg_find_value vs path name)) [
    | inl none_found ↦
        let bad : ◌≡◌ {A = Option ℕ} none (some (suc i)) = rw (e, none_found) at h in
        absurd (some_ne_none (sym bad))
    | inr (j, found) ↦
        let same : ◌≡◌ {A = Option ℕ} (some (suc j)) (some (suc i)) = rw (e, found) at h in
        let at_i : reg_find_value vs path name ≡ some i = ground (arith, same, found) in
        let (inside, hit) = find_hit vs path name i at_i in (omega (arith, inside), hit)
  ]
]

-- A value that has the path and the name, stored where the search stopped, is what it finds.
pub find-set_hit :
    (vs : List Value) (path name : List ℕ) (i : ℕ) (v : Value)
    → reg_find_value vs path name ≡ some i
    → is_value path name v ≡ true
    → reg_find_value (set vs i v) path name ≡ some i
unfolding reg_find_value
find-set_hit [] path name i v h own = cc
find-set_hit (w ∷ vs) path name zero v h own = rw own refl
find-set_hit (w ∷ vs) path name (suc i) v h own = elim (Bool-cases (is_value path name w)) [
  | inl e ↦ let bad : some 0 ≡ some (suc i) = rw e at h in absurd (ground (arith, bad))
  | inr e ↦ elim (Option-cases (reg_find_value vs path name)) [
    | inl none_found ↦
        let bad : ◌≡◌ {A = Option ℕ} none (some (suc i)) = rw (e, none_found) at h in
        absurd (some_ne_none (sym bad))
    | inr (j, found) ↦
        let same : ◌≡◌ {A = Option ℕ} (some (suc j)) (some (suc i)) = rw (e, found) at h in
        let at_i : reg_find_value vs path name ≡ some i = ground (arith, same, found) in
        rw (e, find-set_hit vs path name i v at_i own) refl
  ]
]

-- Stored anywhere where the search found nothing, it is found.
pub find-set_miss :
    (vs : List Value) (path name : List ℕ) (i : ℕ) (v : Value)
    → reg_find_value vs path name ≡ none
    → i < length vs
    → is_value path name v ≡ true
    → reg_find_value (set vs i v) path name ≡ some i
unfolding reg_find_value
find-set_miss [] path name i v h inside own = absurd (omega arith)
find-set_miss (w ∷ vs) path name zero v h inside own = rw own refl
find-set_miss (w ∷ vs) path name (suc i) v h inside own = elim (Bool-cases (is_value path name w)) [
  | inl e ↦ let bad : ◌≡◌ {A = Option ℕ} (some 0) none = rw e at h in absurd (some_ne_none bad)
  | inr e ↦ elim (Option-cases (reg_find_value vs path name)) [
    | inr (j, found) ↦
        let bad : ◌≡◌ {A = Option ℕ} (some (suc j)) none = rw (e, found) at h in
        absurd (some_ne_none bad)
    | inl none_found ↦ rw (e, find-set_miss vs path name i v none_found (omega arith) own) refl
  ]
]

pub find_unused_hit : (vs : List Value) (i : ℕ) → find_unused vs ≡ some i → i < length vs
unfolding find_unused
find_unused_hit [] i h = absurd (some_ne_none (sym h))
find_unused_hit (v ∷ vs) zero h = omega arith
find_unused_hit (v ∷ vs) (suc i) h = elim (Bool-cases v.used) [
  | inr e ↦
      let bad : some 0 ≡ some (suc i) = rw (find_unused, e) at h in absurd (ground (arith, bad))
  | inl e ↦ elim (Option-cases (find_unused vs)) [
    | inl none_found ↦
        let bad : ◌≡◌ {A = Option ℕ} none (some (suc i)) = rw (e, none_found) at h in
        absurd (some_ne_none (sym bad))
    | inr (j, found) ↦
        let same : ◌≡◌ {A = Option ℕ} (some (suc j)) (some (suc i)) = rw (e, found) at h in
        let at_i : find_unused vs ≡ some i = ground (arith, same, found) in
        omega (arith, find_unused_hit vs i at_i)
  ]
]

-- A path and a name that fit their buffers are stored whole.
pub new_value-is_value :
    (path name : List ℕ)
    → length path < 256
    → length name < 128
    → is_value path name (new_value path name) ≡ true
unfolding is_value reg_copy_cstr
new_value-is_value path name p n =
    let fits : leb 256 (length path) ≡ false = ground arith in
    let fits' : leb 128 (length name) ≡ false = ground arith in
    rw (fits, fits', same_name_self path, same_name_self name) refl

-- Storing a value that is not looked for in the place of another such changes no search.
pub find-set_other :
    (vs : List Value) (path name : List ℕ) (i : ℕ) (v : Value)
    → is_value path name (get_or vs i unused) ≡ false
    → is_value path name v ≡ false
    → reg_find_value (set vs i v) path name ≡ reg_find_value vs path name
unfolding reg_find_value
find-set_other [] path name i v was now = refl
find-set_other (w ∷ vs) path name zero v was now = rw (was, now) refl
find-set_other (w ∷ vs) path name (suc i) v was now =
    rw (find-set_other vs path name i v was now) refl

pub find_unused_free :
    (vs : List Value) (path name : List ℕ) (i : ℕ)
    → find_unused vs ≡ some i
    → is_value path name (get_or vs i unused) ≡ false
unfolding find_unused is_value
find_unused_free [] path name i h = absurd (some_ne_none (sym h))
find_unused_free (v ∷ vs) path name i h = elim (Bool-cases v.used) [
  | inr e ↦
      let first : ◌≡◌ {A = Option ℕ} (some 0) (some i) = rw (find_unused, e) at h in
      let at_zero : i ≡ 0 = ground (arith, first) in rw (at_zero, e) refl
  | inl e ↦ elim (Option-cases (find_unused vs)) [
    | inl nowhere ↦
        let bad : ◌≡◌ {A = Option ℕ} none (some i) = rw (find_unused, e, nowhere) at h in
        absurd (some_ne_none (sym bad))
    | inr (j, found) ↦
        let same : ◌≡◌ {A = Option ℕ} (some (suc j)) (some i) = rw (find_unused, e, found) at h in
        let at_j : i ≡ suc j = ground (arith, same) in
        rw at_j (find_unused_free vs path name j found)
  ]
]

pub same_name-length : (as' bs : List ℕ) → same_name as' bs ≡ true → length as' ≡ length bs
unfolding same_name
same_name-length [] [] h = refl
same_name-length [] (b ∷ bs) h = cc
same_name-length (a ∷ as') [] h = cc
same_name-length (a ∷ as') (b ∷ bs) h = elim (Bool-cases (a == b)) [
  | inl e ↦ ap suc (same_name-length as' bs (rw e at h))
  | inr e ↦ let bad : false ≡ true = rw e at h in cc
]
