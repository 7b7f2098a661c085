-- ===== src/Registry/Values.antt =====
-- RegSetValueExA and RegQueryValueExA of src/msvcrt/advapi32_registry.c on one value.
use my_wine.Prelude.{
  ℕ, zero, suc, ◌%◌, ◌^◌, ◌≤◌, ◌<◌, ◌≡◌, ◌≢◌, refl, ap, ◌∙◌, arith, inl, inr, Bool, true, false,
  ◌&&◌, List, [], ◌∷◌, ◌++◌, Option, none, some, length, get_or, set, take, drop, length-set,
  get_or-set_self, set-set, Bool-cases, Option-cases, leb, ltb, ◌==◌, if◌then◌else◌,
}
use my_wine.Handles
use my_wine.Classes.{same_name}
use my_wine.Registry.{
  Value, State, is_value, reg_find_value, find_unused, new_value, unused, reg_ensure_value,
  reg_copy_cstr, hkey_current_user,
}
use my_wine.Registry.Calls.{answer, query_value, set_value, write_value}
use my_wine.Registry.Find.{
  find_hit, find-set_hit, find-set_miss, find_unused_hit, new_value-is_value, find-set_other,
  find_unused_free, same_name-length,
}

-- What reg_ensure_value gives: an index of a value that has the path and the name, and that a
-- value with them which is stored there is found at.
record Ensured (path name : List ℕ) (idx : ℕ) (vs : List Value) : Type 0 where
  inside : idx < length vs
  own : is_value path name (get_or vs idx unused) ≡ true
  finds :
      (v : Value) → is_value path name v ≡ true → reg_find_value (set vs idx v) path name ≡ some idx

ensure_finds :
    (vs vs' : List Value) (path name : List ℕ) (idx : ℕ)
    → length path < 256
    → length name < 128
    → reg_ensure_value vs path name ≡ some (idx, vs')
    → Ensured path name idx vs'
unfolding reg_ensure_value
ensure_finds vs vs' path name idx p n h = elim (Option-cases (reg_find_value vs path name)) [
  | inr (i, found) ↦
      let same : ◌≡◌ {A = Option (ℕ × List Value)} (some (i, vs)) (some (idx, vs')) =
        rw (reg_ensure_value, found) at h in
      let at_i : idx ≡ i = cc in
      let kept : vs' ≡ vs = cc in
      let (inside, own) = find_hit vs path name i found in
      rw (at_i, kept)
        (record {
          inside = inside;
          own = own;
          finds = λ v has. find-set_hit vs path name i v found has;
        })
  | inl missing ↦ elim (Option-cases (find_unused vs)) [
    | inl full ↦
        let bad : ◌≡◌ {A = Option (ℕ × List Value)} none (some (idx, vs')) =
          rw (reg_ensure_value, missing, full) at h in
        absurd (cc)
    | inr (i, free) ↦
        let new = new_value path name in
        let same : ◌≡◌ {A = Option (ℕ × List Value)} (some (i, set vs i new)) (some (idx, vs')) =
          rw (reg_ensure_value, missing, free) at h in
        let at_i : idx ≡ i = cc in
        let stored : vs' ≡ set vs i new = cc in
        let inside = find_unused_hit vs i free in
        rw (at_i, stored)
          (record {
            inside = rw (length-set vs i new) inside;
            own = rw (get_or-set_self vs i new unused inside) (new_value-is_value path name p n);
            finds = λ v has.
                rw (set-set vs i new v) (find-set_miss vs path name i v missing inside has);
          })
  ]
]

take-append_whole :
    {A : Type 0} (xs ys : List A) → take (length xs) (take (length xs) xs ++ ys) ≡ xs
take-append_whole [] ys = refl
take-append_whole (x ∷ xs) ys = ap (λ zs. x ∷ zs) (take-append_whole xs ys)

write_value-is_value :
    (path name given : List ℕ) (type : ℕ) (v : Value)
    → is_value path name v ≡ true
    → is_value path name (write_value type given v) ≡ true
unfolding is_value write_value
write_value-is_value path name given type v own = own

-- The answer to a query with room for the bytes just written.
written :
    (v : Value) (given : List ℕ) (type room : ℕ)
    → length given ≤ 512
    → length given ≤ room
    → answer (write_value type given v) true (some room) ≡ record {
      code = 0;
      type = some (if type == 0 then 1 else type);
      bytes = some given;
      size = some (length given);
    }
unfolding answer write_value
written v given type room small fits =
    let whole : ltb 512 (length given) ≡ false = ground arith in
    let enough : ltb room (length given) ≡ false = ground arith in
    rw (whole, enough, take-append_whole given (drop (length given) v.bytes)) refl

abbrev object_of : State → ℕ → ℕ
object_of s root = Handles.get s.handles (root % 2 ^ 32)

query_at :
    (s : State) (root : ℕ) (name : List ℕ) (idx : ℕ) (has_data : Bool) (room : Option ℕ)
    → (root == hkey_current_user) ≡ false
    → (object_of s root == 0) ≡ false
    → reg_find_value s.values (s.keys (object_of s root)) name ≡ some idx
    → query_value s root name has_data room ≡ answer (get_or s.values idx unused) has_data room
unfolding query_value
query_at s root name idx has_data room other live hit = rw (other, live, hit) refl

-- Setting a value through a key that is not HKEY_CURRENT_USER, with a path of at most 255 bytes, a
-- name of at most 127 and at most 512 bytes of data: if RegSetValueExA returns 0, a query for that
-- name through that key with enough room returns 0, the bytes that were set, their number, and the
-- type that was set, or REG_SZ for the type 0.
pub query_value-set_value :
    (s : State) (root : ℕ) (name given : List ℕ) (type room : ℕ)
    → root ≢ hkey_current_user
    → length (s.keys (Handles.get s.handles (root % 2 ^ 32))) < 256
    → length name < 128
    → length given ≤ 512
    → length given ≤ room
    → (set_value s root name type given).0 ≡ 0
    → query_value (set_value s root name type given).1 root name true (some room) ≡ record {
      code = 0;
      type = some (if type == 0 then 1 else type);
      bytes = some given;
      size = some (length given);
    }
unfolding set_value
query_value-set_value s root name given type room not_root p n small fits ok =
    elim (Bool-cases (object_of s root == 0)) [
      | inl null ↦ let bad : 2 ≡ 0 = rw (set_value, null) at ok in absurd (omega (arith, bad))
      | inr live ↦
          elim (Option-cases (reg_ensure_value s.values (s.keys (object_of s root)) name)) [
            | inl full ↦
                let bad : 8 ≡ 0 = rw (set_value, live, full) at ok in absurd (omega (arith, bad))
            | inr ((idx, vs), ensured) ↦
                let e = ensure_finds s.values vs (s.keys (object_of s root)) name idx p n ensured in
                let v = write_value type given (get_or vs idx unused) in
                let other : (root == hkey_current_user) ≡ false = ground arith in
                let after : set_value s root name type given
                    ≡ (0, record s { values = set vs idx v }) =
                  rw (set_value, live, ensured) refl in
                let hit = e.finds v (
                  write_value-is_value (s.keys (object_of s root)) name given type
                    (get_or vs idx unused) e.own) in
                ap (λ r. query_value r.1 root name true (some room)) after
                ∙ query_at (record s { values = set vs idx v }) root name idx true (some room) other
                    live hit
                ∙ ap (λ w. answer w true (some room)) (get_or-set_self vs idx v unused e.inside)
                ∙ written (get_or vs idx unused) given type room small fits
          ]
    ]

and_false : (a : Bool) → (a && false) ≡ false
and_false true = refl
and_false false = refl

length-take : {A : Type 0} (n : ℕ) (xs : List A) → n ≤ length xs → length (take n xs) ≡ n
length-take zero xs h = refl
length-take (suc n) [] h = absurd (omega arith)
length-take (suc n) (x ∷ xs) h = ap suc (length-take n xs (omega arith))

-- A stored name of 127 bytes is not a name of more.
long_name_lost :
    (path name : List ℕ) → 128 ≤ length name → is_value path name (new_value path name) ≡ false
unfolding is_value reg_copy_cstr
long_name_lost path name long =
    let cut : leb 128 (length name) ≡ true = ground arith in
    let stored : length (take 127 name) ≡ 127 = length-take 127 name (omega arith) in
    elim (Bool-cases (same_name (take 127 name) name)) [
      | inl e ↦ absurd (omega (arith, same_name-length (take 127 name) name e, stored))
      | inr e ↦ rw (cut, e) (and_false (same_name (reg_copy_cstr 256 path) path))
    ]

-- A name of 128 bytes or more that is set through a live key, when the table has an unused value,
-- is reported as set, and a query for it still answers that it does not exist.
pub set_value_long_name :
    (s : State) (root : ℕ) (name given : List ℕ) (type i : ℕ) (has_data : Bool) (room : Option ℕ)
    → Handles.get s.handles (root % 2 ^ 32) ≢ 0
    → 128 ≤ length name
    → reg_find_value s.values (s.keys (Handles.get s.handles (root % 2 ^ 32))) name ≡ none
    → find_unused s.values ≡ some i
    → ((set_value s root name type given).0 ≡ 0)
      × ((query_value (set_value s root name type given).1 root name has_data room).code ≡ 2)
unfolding set_value query_value reg_ensure_value is_value
set_value_long_name s root name given type i has_data room key long missing free =
    let path = s.keys (object_of s root) in
    let new = new_value path name in
    let live : (object_of s root == 0) ≡ false = ground arith in
    let vs = set s.values i new in
    let v = write_value type given (get_or vs i unused) in
    let inside = find_unused_hit s.values i free in
    let after : set_value s root name type given ≡ (0, record s { values = set vs i v }) =
      rw (set_value, live, missing, free) refl in
    let stored : get_or vs i unused ≡ new = get_or-set_self s.values i new unused inside in
    let lost : is_value path name (write_value type given (get_or vs i unused)) ≡ false =
      rw stored (long_name_lost path name long) in
    let unfound : reg_find_value (set vs i v) path name ≡ none = rw (set-set s.values i new v) (
      find-set_other s.values path name i v (find_unused_free s.values path name i free) lost
      ∙ missing) in
    elim (Bool-cases (root == hkey_current_user)) [
      | inl e ↦ rw (after, e) (refl, refl)
      | inr e ↦ rw (after, e, live, unfound) (refl, refl)
    ]
