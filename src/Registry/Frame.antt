-- ===== src/Registry/Frame.antt =====
-- RegSetValueExA of src/msvcrt/advapi32_registry.c and queries for other values.
use my_wine.Prelude.{
  ℕ, ◌%◌, ◌^◌, ◌<◌, ◌≡◌, ◌≢◌, refl, sym, ap, ◌∙◌, arith, inl, inr, Bool, true, false, ◌&&◌, List,
  [], ◌∷◌, Option, none, some, length, get_or, set, get_or-set_self, get_or-set_ne, set-set,
  Bool-cases, Option-cases, ◌==◌, if◌then◌else◌,
}
use my_wine.Handles
use my_wine.Classes.{same_name}
use my_wine.Registry.{
  Value, State, is_value, reg_find_value, find_unused, new_value, unused, reg_ensure_value,
  hkey_current_user,
}
use my_wine.Registry.Calls.{Answer, answer, failed, query_value, set_value, write_value}
use my_wine.Registry.Find.{
  find_hit, find-set_other, find_unused_free, find_unused_hit, new_value-is_value,
}

same_name_eq : (as' bs : List ℕ) → same_name as' bs ≡ true → as' ≡ bs
unfolding same_name
same_name_eq [] [] h = refl
same_name_eq [] (b ∷ bs) h = cc
same_name_eq (a ∷ as') [] h = cc
same_name_eq (a ∷ as') (b ∷ bs) h = elim (Bool-cases (a == b)) [
  | inl e ↦ let head : a ≡ b = ground (arith, e) in let tail = same_name_eq as' bs (rw e at h) in cc
  | inr e ↦ let bad : false ≡ true = rw e at h in cc
]

-- What a query answers once the key is known.
look : List Value → List ℕ → List ℕ → Bool → Option ℕ → Answer
look vs path name has_data room = elim (reg_find_value vs path name) [
  | none ↦ failed 2
  | some idx ↦ answer (get_or vs idx unused) has_data room
]

look-set :
    (vs : List Value) (path name : List ℕ) (i : ℕ) (v : Value) (has_data : Bool) (room : Option ℕ)
    → is_value path name (get_or vs i unused) ≡ false
    → is_value path name v ≡ false
    → look (set vs i v) path name has_data room ≡ look vs path name has_data room
unfolding look
look-set vs path name i v has_data room was now =
    let kept = find-set_other vs path name i v was now in
    elim (Option-cases (reg_find_value vs path name)) [
      | inl missing ↦ rw (look, kept, missing) refl
      | inr (j, found) ↦
          let apart : i ≢ j = λ e. elsewhere j found (sym e) in
          rw (look, kept, found)
            (ap (λ w. answer w has_data room) (get_or-set_ne vs i j v unused apart))
    ]
  where
    elsewhere : (j : ℕ) → reg_find_value vs path name ≡ some j → j ≢ i
    elsewhere j found e =
        let own : is_value path name (get_or vs i unused) ≡ true =
          rw e at (find_hit vs path name j found).1 in
        let bad : false ≡ true = sym was ∙ own in absurd (ground (arith, bad))

and_both : (a b : Bool) → (a && b) ≡ true → (a ≡ true) × (b ≡ true)
and_both true b h = (refl, h)
and_both false b h = absurd (ground (arith, h))

and_none : (a b : Bool) → b ≡ false → (a && b) ≡ false
and_none true b h = h
and_none false b h = refl

-- A value of one path and name is none of another.
other_value :
    (path name path' name' : List ℕ) (v : Value)
    → is_value path name v ≡ true
    → (same_name path path' && same_name name name') ≡ false
    → is_value path' name' v ≡ false
unfolding is_value
other_value path name path' name' v own differ =
    let both =
      and_both (same_name v.path path) (same_name v.name name)
        (and_both v.used (same_name v.path path && same_name v.name name) own).1 in
    let at_path : v.path ≡ path = same_name_eq v.path path both.0 in
    let at_name : v.name ≡ name = same_name_eq v.name name both.1 in
    and_none v.used (same_name v.path path' && same_name v.name name') (
      ap (λ p. same_name p path' && same_name v.name name') at_path
      ∙ ap (λ n. same_name path path' && same_name n name') at_name
      ∙ differ)

write_other :
    (path name given : List ℕ) (type : ℕ) (v : Value)
    → is_value path name v ≡ false
    → is_value path name (write_value type given v) ≡ false
unfolding is_value write_value
write_other path name given type v other = other

-- Storing under one path and name changes no query for another.
ensure-look :
    (vs vs' : List Value) (path name path' name' given : List ℕ) (idx type : ℕ) (has_data : Bool)
    (room : Option ℕ)
    → length path < 256
    → length name < 128
    → (same_name path path' && same_name name name') ≡ false
    → reg_ensure_value vs path name ≡ some (idx, vs')
    → look (set vs' idx (write_value type given (get_or vs' idx unused))) path' name' has_data room
      ≡ look vs path' name' has_data room
unfolding reg_ensure_value
ensure-look vs vs' path name path' name' given idx type has_data room p n differ h =
    elim (Option-cases (reg_find_value vs path name)) [
      | inr (i, found) ↦
          let same : ◌≡◌ {A = Option (ℕ × List Value)} (some (i, vs)) (some (idx, vs')) =
            rw (reg_ensure_value, found) at h in
          let at_i : idx ≡ i = cc in
          let kept : vs' ≡ vs = cc in
          let (inside, own) = find_hit vs path name i found in
          let was = other_value path name path' name' (get_or vs i unused) own differ in
          rw (at_i, kept)
            (look-set vs path' name' i (write_value type given (get_or vs i unused)) has_data room
              was (write_other path' name' given type (get_or vs i unused) was))
      | inl missing ↦ elim (Option-cases (find_unused vs)) [
        | inl full ↦
            let bad : ◌≡◌ {A = Option (ℕ × List Value)} none (some (idx, vs')) =
              rw (reg_ensure_value, missing, full) at h in
            absurd (cc)
        | inr (i, free) ↦
            let new = new_value path name in
            let same : ◌≡◌ {A = Option (ℕ × List Value)} (some (i, set vs i new))
                (some (idx, vs')) =
              rw (reg_ensure_value, missing, free) at h in
            let at_i : idx ≡ i = cc in
            let stored : vs' ≡ set vs i new = cc in
            let inside = find_unused_hit vs i free in
            let other =
              other_value path name path' name' new (new_value-is_value path name p n) differ in
            rw
              (
                at_i,
                stored,
                get_or-set_self vs i new unused inside,
                set-set vs i new (write_value type given new),
              )
              (look-set vs path' name' i (write_value type given new) has_data room
                (find_unused_free vs path' name' i free)
                (write_other path' name' given type new other))
      ]
    ]

query-look :
    (s : State) (root : ℕ) (name : List ℕ) (has_data : Bool) (room : Option ℕ)
    → query_value s root name has_data room ≡ (
        if root == hkey_current_user
        then failed 2
        else if Handles.get s.handles (root % 2 ^ 32) == 0
        then failed 2
        else look s.values (s.keys (Handles.get s.handles (root % 2 ^ 32))) name has_data room)
unfolding query_value look
query-look s root name has_data room = refl

-- Setting a value under a path of at most 255 bytes and a name of at most 127 changes the answer of
-- no query whose path or name is another, whether or not the value could be set.
pub query_value-set_value_other :
    (s : State) (root root' : ℕ) (name name' given : List ℕ) (type : ℕ) (has_data : Bool)
    (room : Option ℕ)
    → length (s.keys (Handles.get s.handles (root % 2 ^ 32))) < 256
    → length name < 128
    → (same_name
          (s.keys (Handles.get s.handles (root % 2 ^ 32)))
          (s.keys (Handles.get s.handles (root' % 2 ^ 32)))
        && same_name name name')
      ≡ false
    → query_value (set_value s root name type given).1 root' name' has_data room
      ≡ query_value s root' name' has_data room
unfolding set_value
query_value-set_value_other s root root' name name' given type has_data room p n differ =
    let path = s.keys (Handles.get s.handles (root % 2 ^ 32)) in
    let path' = s.keys (Handles.get s.handles (root' % 2 ^ 32)) in
    elim (Bool-cases (Handles.get s.handles (root % 2 ^ 32) == 0)) [
      | inl null ↦ rw null refl
      | inr live ↦ elim (Option-cases (reg_ensure_value s.values path name)) [
        | inl full ↦ rw (live, full) refl
        | inr ((idx, vs), ensured) ↦
            let v = write_value type given (get_or vs idx unused) in
            let after : set_value s root name type given ≡ (0, record s { values = set vs idx v }) =
              rw (set_value, live, ensured) refl in
            let same =
              ensure-look s.values vs path name path' name' given idx type has_data room p n differ
                ensured in
            ap (λ r. query_value r.1 root' name' has_data room) after
            ∙ query-look (record s { values = set vs idx v }) root' name' has_data room
            ∙ ap
                (λ l.
                  if root' == hkey_current_user
                  then failed 2
                  else if Handles.get s.handles (root' % 2 ^ 32) == 0
                  then failed 2
                  else l)
                same
            ∙ sym (query-look s root' name' has_data room)
      ]
    ]
