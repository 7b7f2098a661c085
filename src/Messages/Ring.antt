-- ===== src/Messages/Ring.antt =====
-- A ring seen as the list of its messages, oldest first, and what reading, appending, closing a gap
-- and compacting do to that list.
pub mod Shift
use my_wine.Prelude.{
  ℕ, zero, suc, ◌+◌, ◌-◌, ◌%◌, ◌≤◌, ◌<◌, ◌≡◌, ◌≢◌, refl, sym, ap, ◌∙◌, arith, inl, inr, ◌⊎◌, Bool,
  true, false, Bool-cases, List, [], ◌∷◌, ◌++◌, Option, none, some, get_or, get_or-set,
  get_or-set_ne, set, length, length-set, ◌==◌, if◌then◌else◌,
}
use mathlib.Core.List.{append_assoc, append-nil}
use mathlib.Core.Path.{ap₂}
use mathlib.Core.Option
use my_wine.Messages.{Msg, zero_msg, capacity, Queue, read, find_from, shift, compact}

-- The `n` messages from position `p` on; positions count on past the end of the array.
abbrev pub window : List Msg → ℕ → ℕ → List Msg
window buf p zero = []
window buf p (suc n) = read buf (p % capacity) ∷ window buf (p + 1) n

abbrev pub contents : Queue → List Msg
contents q = window q.buf q.head q.count

-- What every operation keeps of a ring.
pub record IsRing (q : Queue) : Type 0 where
  pub size : length q.buf ≡ capacity
  pub bound : q.count ≤ capacity

pub length-window : (buf : List Msg) (p n : ℕ) → length (window buf p n) ≡ n
length-window buf p zero = refl
length-window buf p (suc n) = ap suc (length-window buf (p + 1) n)

-- Equal reads give equal windows.
pub window_cong :
    (buf buf' : List Msg) (p n : ℕ)
    → ((d : ℕ) → d < n → read buf ((p + d) % capacity) ≡ read buf' ((p + d) % capacity))
    → window buf p n ≡ window buf' p n
window_cong buf buf' p zero same = refl
window_cong buf buf' p (suc n) same =
    ap₂ ◌∷◌
      (ap (λ j. read buf (j % capacity)) (omega arith)
        ∙ same 0 (omega arith)
        ∙ ap (λ j. read buf' (j % capacity)) (omega arith))
      (window_cong buf buf' (p + 1) n (λ d h.
        ap (λ j. read buf (j % capacity)) (omega arith)
        ∙ same (d + 1) (omega arith)
        ∙ ap (λ j. read buf' (j % capacity)) (omega arith)))

pub window-add :
    (buf : List Msg) (p m n : ℕ) → window buf p (m + n) ≡ window buf p m ++ window buf (p + m) n
window-add buf p zero n = ap₂ (window buf) (omega arith) (omega arith)
window-add buf p (suc m) n =
    let count : suc m + n ≡ suc (m + n) = omega arith in
    let start : p + 1 + m ≡ p + suc m = omega arith in
    ap (window buf p) count
    ∙ ap (λ l. read buf (p % capacity) ∷ l)
        (window-add buf (p + 1) m n ∙ ap (λ j. window buf (p + 1) m ++ window buf j n) start)

-- A write outside a window is not seen in it.
pub window-set :
    (buf : List Msg) (p n i : ℕ) (v : Msg)
    → ((d : ℕ) → d < n → (p + d) % capacity ≢ i)
    → window (set buf i v) p n ≡ window buf p n
window-set buf p n i v away =
    window_cong (set buf i v) buf p n
      (λ d h. get_or-set_ne buf i ((p + d) % capacity) v zero_msg (λ e. away d h (sym e)))

-- A write just behind a window appends to it.
pub window-set_end :
    (buf : List Msg) (p n : ℕ) (v : Msg)
    → length buf ≡ capacity
    → n < capacity
    → window (set buf ((p + n) % capacity) v) p (n + 1) ≡ window buf p n ++ v ∷ []
window-set_end buf p n v size room =
    window-add (set buf ((p + n) % capacity) v) p n 1
    ∙ ap₂ ◌++◌ (window-set buf p n ((p + n) % capacity) v (λ d h. omega arith)) (
        ap (λ m. m ∷ [])
          (ground (arith, get_or-set buf ((p + n) % capacity) ((p + n) % capacity) v zero_msg)))

-- The messages of a list that a test keeps.
abbrev pub keep : (Msg → Bool) → List Msg → List Msg
keep p [] = []
keep p (x ∷ xs) = if p x then x ∷ keep p xs else keep p xs

-- The compaction leaves in front of position `p` the messages that the test keeps, in order.
pub compact-window :
    (alive : Msg → Bool) (p rounds i w : ℕ) (buf : List Msg)
    → length buf ≡ capacity
    → w ≤ i
    → i + rounds ≤ capacity
    → let (w', buf') = compact alive p rounds i w buf in
      (length buf' ≡ capacity)
      × (w' ≤ w + rounds)
      × (window buf' p w' ≡ window buf p w ++ keep alive (window buf (p + i) rounds))
unfolding compact
compact-window alive p zero i w buf size behind room = (size, omega arith, sym (append-nil _))
compact-window alive p (suc rounds) i w buf size behind room =
    let msg = read buf ((p + i) % capacity) in
    let next : p + (i + 1) ≡ p + i + 1 = omega arith in
    elim (Bool-cases (alive (read buf ((p + i) % capacity)))) [
      | inr dead ↦
          let ih = compact-window alive p rounds (i + 1) w buf size (omega arith) (omega arith) in
          rw dead (
            ih.0,
            omega (arith, ih.1),
            ih.2 ∙ ap (λ j. window buf p w ++ keep alive (window buf j rounds)) next,
          )
      | inl lives ↦
          let buf' = set buf ((p + w) % capacity) msg in
          let ih =
            compact-window alive p rounds (i + 1) (w + 1) buf' (length-set buf _ _ ∙ size)
              (omega arith) (omega arith) in
          rw lives (
            ih.0,
            omega (arith, ih.1),
            ih.2
                ∙ ap₂ ◌++◌ (window-set_end buf p w msg size (omega arith)) (
                    ap (keep alive) (
                      window-set buf (p + (i + 1)) rounds ((p + w) % capacity) msg
                        (λ d h. omega arith)
                      ∙ ap (λ j. window buf j rounds) next))
                ∙ append_assoc (window buf p w) (msg ∷ [])
                    (keep alive (window buf (p + i + 1) rounds)),
          )
    ]

-- The offset of the first message that a test takes.
abbrev pub first_offset : (Msg → Bool) → List Msg → Option ℕ
first_offset p [] = none
first_offset p (x ∷ xs) = if p x then some 0 else Option.map suc (first_offset p xs)

first_offset_step :
    (p i : ℕ) (o : Option ℕ)
    → Option.map (λ k. (p + (i + 1) + k) % capacity) o
      ≡ Option.map (λ k. (p + i + k) % capacity) (Option.map suc o)
first_offset_step p i none = refl
first_offset_step p i (some k) =
    let e : p + (i + 1) + k ≡ p + i + suc k = omega arith in ap (λ j. some (j % capacity)) e

-- The search answers with the place of that offset in the array.
pub find_from-window :
    (p : Msg → Bool) (buf : List Msg) (head rounds i : ℕ)
    → find_from p buf head rounds i
      ≡ Option.map (λ k. (head + i + k) % capacity) (first_offset p (window buf (head + i) rounds))
unfolding find_from
find_from-window p buf head zero i = refl
find_from-window p buf head (suc rounds) i =
    let next : head + (i + 1) ≡ head + i + 1 = omega arith in
    let here : head + i ≡ head + i + 0 = omega arith in
    elim (Bool-cases (p (read buf ((head + i) % capacity)))) [
      | inl hit ↦ rw hit (ap (λ j. some (j % capacity)) here)
      | inr miss ↦ rw miss (
          find_from-window p buf head rounds (i + 1)
          ∙ first_offset_step head i (first_offset p (window buf (head + (i + 1)) rounds))
          ∙ ap
              (λ j.
                Option.map (λ k. (head + i + k) % capacity)
                  (Option.map suc (first_offset p (window buf j rounds))))
              next)
    ]
