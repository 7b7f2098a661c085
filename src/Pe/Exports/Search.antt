-- ===== src/Pe/Exports/Search.antt =====
-- The binary search of lookup_export in src/loader/export_table.c.
use my_wine.Prelude.{
  ◌⊎◌, Option, none, refl, ℕ, zero, suc, ◌+◌, ◌-◌, ◌/◌, ◌≤◌, ◌<◌, ◌≡◌, ap, arith, inl, inr, true,
  List, some, Bool-cases, order_cases, leb, leb→le, ◌==◌,
}
use my_wine.Pe.Exports.{Module, image_cstr_valid}
use my_wine.Pe.Exports.Lookup.{
  Sign, below, same, above, strcmp, name_at, export_of_name, search, lookup_export,
}

-- The name stands at index `k`, the names before it are below it and those behind it above it, and
-- every name is a string inside the image.
pub record Holds (m : Module) (name : List ℕ) (k : ℕ) : Type 0 where
  pub inside : k < m.cache.number_of_names
  pub here : strcmp name (name_at m k) ≡ same
  pub before : (j : ℕ) → j < k → strcmp name (name_at m j) ≡ above
  pub behind : (j : ℕ) → k < j → j < m.cache.number_of_names → strcmp name (name_at m j) ≡ below
  pub strings :
      (j : ℕ) → j < m.cache.number_of_names → image_cstr_valid m (m.cache.name_table j) ≡ true

-- Every name that the search reads is a string inside the image, so it never stops early.
search_finds :
    (fuel : ℕ) (m : Module) (name : List ℕ) (k lo hi : ℕ)
    → Holds m name k
    → lo ≤ k
    → k < hi
    → hi ≤ m.cache.number_of_names
    → hi < fuel + lo
    → search fuel m name lo hi ≡ some (export_of_name m k)
unfolding search
search_finds zero m name k lo hi h low high top enough = absurd (omega arith)
search_finds (suc fuel) m name k lo hi h low high top enough =
    let ih = search_finds fuel m name k in
    let mid = lo + (hi - lo) / 2 in
    let inside : mid < hi = omega arith in
    elim (Bool-cases (leb hi lo)) [
      | inl e ↦ absurd (omega (arith, leb→le hi lo e))
      | inr e ↦
          rw (e, h.strings mid (omega arith))
            elim (order_cases mid k) [
              | inl below_k ↦
                  rw (h.before mid below_k) (ih (mid + 1) hi h (omega arith) high top (omega arith))
              | inr (inl at_k) ↦
                  let found : strcmp name (name_at m mid) ≡ same = rw at_k h.here in
                  rw found (ap (λ i. some (export_of_name m i)) at_k)
              | inr (inr above_k) ↦
                  rw (h.behind mid above_k (omega arith))
                    (ih lo mid h low above_k (omega arith) (omega arith))
            ]
    ]

-- If a name stands at an index of the table, the names before it compare below it and those behind
-- it above it, and every name is a string inside the image, then lookup_export, with more fuel
-- than there are names, returns what export_of_name gives for that index.
pub lookup_export_finds :
    (fuel : ℕ) (m : Module) (name : List ℕ) (k : ℕ)
    → Holds m name k
    → m.cache.number_of_names < fuel
    → lookup_export fuel m name ≡ some (export_of_name m k)
unfolding lookup_export
lookup_export_finds fuel m name k h enough = elim (Bool-cases (m.cache.number_of_names == 0)) [
  | inl e ↦ absurd (ground (arith, h.inside))
  | inr e ↦ rw e (
      search_finds fuel m name k 0 m.cache.number_of_names h (omega arith) h.inside (omega arith)
        (omega arith))
]

-- What an answer of a lookup is: nothing, or the export at an index that carries the name.
pub IsAnswer : Module → List ℕ → Option ℕ → Type 0
IsAnswer m name r =
    (r ≡ none)
    ⊎ ((k : ℕ) × (k < m.cache.number_of_names)
        × (image_cstr_valid m (m.cache.name_table k) ≡ true)
        × (strcmp name (name_at m k) ≡ same)
        × (r ≡ export_of_name m k))

Sign-cases : (s : Sign) → (s ≡ below) ⊎ ((s ≡ same) ⊎ (s ≡ above))
Sign-cases below = inl refl
Sign-cases same = inr (inl refl)
Sign-cases above = inr (inr refl)

search_ends :
    (fuel : ℕ) (m : Module) (name : List ℕ) (lo hi : ℕ)
    → hi ≤ m.cache.number_of_names
    → hi < fuel + lo
    → lo ≤ hi
    → (r : Option ℕ) × (search fuel m name lo hi ≡ some r) × IsAnswer m name r
unfolding search IsAnswer
search_ends zero m name lo hi top enough low = absurd (omega arith)
search_ends (suc fuel) m name lo hi top enough low =
    let ih = search_ends fuel m name in
    let mid = lo + (hi - lo) / 2 in
    elim (Bool-cases (leb hi lo)) [
      | inl e ↦ rw e (none, refl, inl refl)
      | inr e ↦
          let inside : mid < hi = ground arith in
          rw e elim (Bool-cases (image_cstr_valid m (m.cache.name_table mid))) [
            | inr bad ↦ rw bad (none, refl, inl refl)
            | inl valid ↦ rw valid elim (Sign-cases (strcmp name (name_at m mid))) [
              | inl left ↦ rw left (ih lo mid (omega arith) (omega arith) (omega arith))
              | inr (inl found) ↦
                  rw found (export_of_name m mid, refl, inr (mid, omega arith, valid, found, refl))
              | inr (inr right) ↦ rw right (ih (mid + 1) hi top (omega arith) (omega arith))
            ]
          ]
    ]

-- With more fuel than there are names, `lookup_export` comes to its end on every table, and what
-- it returns is NULL, or what export_of_name gives for an index of the table whose name is a
-- string inside the image and is the name that was looked for.
pub lookup_export_ends :
    (fuel : ℕ) (m : Module) (name : List ℕ)
    → m.cache.number_of_names < fuel
    → (r : Option ℕ) × (lookup_export fuel m name ≡ some r) × IsAnswer m name r
unfolding lookup_export IsAnswer
lookup_export_ends fuel m name enough = elim (Bool-cases (m.cache.number_of_names == 0)) [
  | inl e ↦ rw e (none, refl, inl refl)
  | inr e ↦
      rw e (
        search_ends fuel m name 0 m.cache.number_of_names (omega arith) (omega arith) (omega arith))
]
