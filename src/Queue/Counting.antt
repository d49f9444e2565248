-- ===== src/Queue/Counting.antt =====
-- How much a queue can hold: a node stands in it once.
use rtk.Common.{
  ℕ, zero, suc, ◌≤◌, ◌<◌, ◌≡◌, ◌∙◌, ap, refl, sym, true, false, Bool, ◌&&◌, not, List, [], ◌∷◌,
  ◌++◌, arith, Bool-cases, inl, inr, has, erase, has-append, has-erase, has-erase_ne, length, ◌+◌,
}
use mathlib.Core.List.{append_assoc}
use rtk.Queue.{null, QueueNode, Memory}
use rtk.Queue.Segment.{Dll, null-not-mem}
use rtk.Queue.Store.{IsStore}

-- No number twice.
abbrev pub distinct : List ℕ → Bool
distinct [] = true
distinct (x ∷ xs) = not (has x xs) && distinct xs

distinct-erase : (a : ℕ) (xs : List ℕ) → distinct xs ≡ true → distinct (erase a xs) ≡ true
distinct-erase a [] h = refl
distinct-erase a (x ∷ xs) h = ground (arith, distinct-erase a xs, has-erase a x xs)

has-erase-distinct : (a : ℕ) (xs : List ℕ) → distinct xs ≡ true → has a (erase a xs) ≡ false
has-erase-distinct a [] h = refl
has-erase-distinct a (x ∷ xs) h = ground (arith, has-erase-distinct a xs)

length-erase : (a : ℕ) (xs : List ℕ) → has a xs ≡ true → length xs ≡ suc (length (erase a xs))
length-erase a [] h = absurd (ground arith)
length-erase a (x ∷ xs) h = ground (arith, length-erase a xs)

-- Of the `n` numbers from `l` on, none twice, there are at most `n`.
pub length_distinct :
    (l n : ℕ) (xs : List ℕ)
    → distinct xs ≡ true
    → ((a : ℕ) → has a xs ≡ true → (l ≤ a) × (a < l + n))
    → length xs ≤ n
length_distinct l zero [] d within = omega arith
length_distinct l zero (x ∷ xs) d within = absurd (ground (arith, within x))
length_distinct l (suc n) xs d within = elim (Bool-cases (has (l + n) xs)) [
  | inl e ↦
      let ih : length (erase (l + n) xs) ≤ n =
        length_distinct l n (erase (l + n) xs) (distinct-erase (l + n) xs d) (λ a h.
          ground (arith, has-erase-distinct (l + n) xs, has-erase_ne (l + n) a xs, within a)) in
      omega (arith, length-erase (l + n) xs e)
  | inr e ↦
      let ih : length xs ≤ n = length_distinct l n xs d (λ a h. ground (arith, within a)) in
      omega arith
]

Dll-distinct :
    (n : ℕ → QueueNode) (before first last : ℕ) (xs : List ℕ)
    → Dll n before first last xs
    → distinct xs ≡ true
Dll-distinct n before first last [] d = refl
Dll-distinct n before first last (x ∷ xs) d =
    ground (arith, Dll-distinct n x (n x).next last xs d.4)

-- What the queues of a list hold, one after the other.
abbrev pub concat : (ℕ → List ℕ) → List ℕ → List ℕ
concat v [] = []
concat v (q ∷ qs) = v q ++ concat v qs

pub concat-append :
    (v : ℕ → List ℕ) (qs rs : List ℕ) → concat v (qs ++ rs) ≡ concat v qs ++ concat v rs
concat-append v [] rs = refl
concat-append v (q ∷ qs) rs =
    ap (λ xs. v q ++ xs) (concat-append v qs rs)
    ∙ sym (append_assoc (v q) (concat v qs) (concat v rs))

concat-mem :
    (v : ℕ → List ℕ) (qs : List ℕ) (a : ℕ)
    → has a (concat v qs) ≡ true
    → (q : ℕ) × (has q qs ≡ true) × (has a (v q) ≡ true)
concat-mem v [] a h = absurd (ground arith)
concat-mem v (q ∷ qs) a h = elim (Bool-cases (has a (v q))) [
  | inl e ↦ (q, ground arith, e)
  | inr e ↦
      let (r, g, later) = concat-mem v qs a (ground (arith, has-append a (v q) (concat v qs))) in
      (r, ground arith, later)
]

pub distinct-append :
    (xs ys : List ℕ)
    → distinct xs ≡ true
    → distinct ys ≡ true
    → ((a : ℕ) → has a xs ≡ true → has a ys ≡ false)
    → distinct (xs ++ ys) ≡ true
distinct-append [] ys d e out = e
distinct-append (x ∷ xs) ys d e out = ground (
  arith,
  has-append x xs ys,
  out x,
  distinct-append xs ys (ground arith) e (λ a h. out a (ground arith)),
)

module _ {bound : ℕ} {v : ℕ → List ℕ} {m : Memory} (s : IsStore bound v m) where
  in_front : (q a : ℕ) → has a (v q) ≡ true → 0 < a
  in_front q a h =
      ground (arith, null-not-mem m.node null (m.queue q).first (m.queue q).last (v q) (s.linked q))

  -- A queue holds at most as many nodes as there are.
  pub store-length : {n : ℕ} (q : ℕ) → ((a : ℕ) → has a (v q) ≡ true → a ≤ n) → length (v q) ≤ n
  store-length {n} q within =
      length_distinct 1 n (v q)
        (Dll-distinct m.node null (m.queue q).first (m.queue q).last (v q) (s.linked q))
        (λ a h. (in_front q a h, omega (arith, within a h)))

  concat-distinct : (qs : List ℕ) → distinct qs ≡ true → distinct (concat v qs) ≡ true
  concat-distinct [] d = refl
  concat-distinct (q ∷ qs) d =
      distinct-append (v q) (concat v qs)
        (Dll-distinct m.node null (m.queue q).first (m.queue q).last (v q) (s.linked q))
        (concat-distinct qs (ground arith)) elsewhere
    where
      elsewhere : (a : ℕ) → has a (v q) ≡ true → has a (concat v qs) ≡ false
      elsewhere a h = elim (Bool-cases (has a (concat v qs))) [
        | inl g ↦
            let (r, in_qs, there) = concat-mem v qs a g in ground (arith, s.apart q r a h there)
        | inr g ↦ g
      ]

  -- And so do different queues together.
  pub concat-length :
      {n : ℕ} (qs : List ℕ)
      → distinct qs ≡ true
      → ((q a : ℕ) → has q qs ≡ true → has a (v q) ≡ true → a ≤ n)
      → length (concat v qs) ≤ n
  concat-length {n} qs d within = length_distinct 1 n (concat v qs) (concat-distinct qs d) (λ a h.
      let (q, g, there) = concat-mem v qs a h in
      (in_front q a there, omega (arith, within q a g there)))
