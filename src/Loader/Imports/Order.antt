-- ===== src/Loader/Imports/Order.antt =====
-- The order of names by syscall_safe_strcmp and import_entry_cmp_nolibc.
use my_wine.Prelude.{
  ℕ, ◌<◌, ◌≡◌, ◌≢◌, refl, ap, sym, ◌∙◌, arith, inl, inr, ◌⊎◌, true, List, [], ◌∷◌, ◌==◌,
  order_cases,
}
use my_wine.Pe.Exports.Lookup.{Sign, below, same, above, strcmp}

abbrev pub opposite : Sign → Sign
opposite below = above
opposite same = same
opposite above = below

pub strcmp_self : (xs : List ℕ) → strcmp xs xs ≡ same
unfolding strcmp
strcmp_self [] = refl
strcmp_self (x ∷ xs) = let e : (x == x) ≡ true = ground arith in rw (e, strcmp_self xs) refl

pub strcmp_eq : (xs ys : List ℕ) → strcmp xs ys ≡ same → xs ≡ ys
unfolding strcmp
strcmp_eq [] [] h = refl
strcmp_eq [] (y ∷ ys) h = absurd (cc)
strcmp_eq (x ∷ xs) [] h = absurd (cc)
strcmp_eq (x ∷ xs) (y ∷ ys) h =
    let ih = strcmp_eq xs ys in
    elim (order_cases x y) [
      | inl lt ↦ absurd (ground (arith, h))
      | inr (inl e) ↦
          let t : (x == y) ≡ true = ground arith in
          let rest : strcmp xs ys ≡ same = ground (arith, h) in
          ap (λ z. z ∷ xs) e ∙ ap (λ zs. y ∷ zs) (ih rest)
      | inr (inr gt) ↦ absurd (ground (arith, h))
    ]

strcmp_less : (x y : ℕ) (xs ys : List ℕ) → x < y → strcmp (x ∷ xs) (y ∷ ys) ≡ below
unfolding strcmp
strcmp_less x y xs ys h = ground arith

strcmp_greater : (x y : ℕ) (xs ys : List ℕ) → y < x → strcmp (x ∷ xs) (y ∷ ys) ≡ above
unfolding strcmp
strcmp_greater x y xs ys h = ground arith

strcmp_equal : (x y : ℕ) (xs ys : List ℕ) → x ≡ y → strcmp (x ∷ xs) (y ∷ ys) ≡ strcmp xs ys
unfolding strcmp
strcmp_equal x y xs ys h = ground arith

pub below≢above : below ≢ above
below≢above e = cc

pub same≢above : same ≢ above
same≢above e = cc

pub same≢below : same ≢ below
same≢below e = cc

pub Sign-cases : (s : Sign) → (s ≡ below) ⊎ ((s ≡ same) ⊎ (s ≡ above))
Sign-cases below = inl refl
Sign-cases same = inr (inl refl)
Sign-cases above = inr (inr refl)

pub strcmp_swap : (xs ys : List ℕ) → strcmp ys xs ≡ opposite (strcmp xs ys)
unfolding strcmp
strcmp_swap [] [] = refl
strcmp_swap [] (y ∷ ys) = refl
strcmp_swap (x ∷ xs) [] = refl
strcmp_swap (x ∷ xs) (y ∷ ys) = elim (order_cases x y) [
  | inl lt ↦ rw (strcmp_less x y xs ys lt, strcmp_greater y x ys xs lt) refl
  | inr (inl e) ↦ rw (strcmp_equal x y xs ys e, strcmp_equal y x ys xs (sym e)) (strcmp_swap xs ys)
  | inr (inr gt) ↦ rw (strcmp_greater x y xs ys gt, strcmp_less y x ys xs gt) refl
]

-- One name stands before the other, or they are the same.
abbrev pub AtMost : List ℕ → List ℕ → Type 0
AtMost xs ys = strcmp xs ys ≢ above

pub AtMost-trans : (xs ys zs : List ℕ) → AtMost xs ys → AtMost ys zs → AtMost xs zs
unfolding strcmp
AtMost-trans [] ys [] a b = λ e. cc
AtMost-trans [] ys (z ∷ zs) a b = λ e. cc
AtMost-trans (x ∷ xs) [] zs a b = absurd (a refl)
AtMost-trans (x ∷ xs) (y ∷ ys) [] a b = absurd (b refl)
AtMost-trans (x ∷ xs) (y ∷ ys) (z ∷ zs) a b = elim (order_cases x z) [
  | inl lt ↦ λ e. below≢above (sym (strcmp_less x z xs zs lt) ∙ e)
  | inr (inl same_head) ↦ elim (order_cases x y) [
    | inl lt ↦ λ e. b (strcmp_greater y z ys zs (omega arith))
    | inr (inl x_y) ↦
        let y_z : y ≡ z = omega arith in
        λ e.
          AtMost-trans xs ys zs (λ f. a (strcmp_equal x y xs ys x_y ∙ f))
            (λ f. b (strcmp_equal y z ys zs y_z ∙ f)) (sym (strcmp_equal x z xs zs same_head) ∙ e)
    | inr (inr gt) ↦ λ e. a (strcmp_greater x y xs ys gt)
  ]
  | inr (inr gt) ↦ λ e. elim (order_cases x y) [
    | inl lt ↦ b (strcmp_greater y z ys zs (omega arith))
    | inr (inl x_y) ↦ b (strcmp_greater y z ys zs (omega arith))
    | inr (inr gt') ↦ a (strcmp_greater x y xs ys gt')
  ]
]

-- What is not above the key is not below it from the other side.
pub AtMost-total : (xs ys : List ℕ) → AtMost xs ys ⊎ AtMost ys xs
AtMost-total xs ys = elim (Sign-cases (strcmp xs ys)) [
  | inl e ↦ inl (λ f. below≢above (sym e ∙ f))
  | inr (inl e) ↦ inl (λ f. same≢above (sym e ∙ f))
  | inr (inr e) ↦ inr (λ f. below≢above (sym (strcmp_swap xs ys ∙ ap opposite e) ∙ f))
]
