-- ===== src/Queue/Segment.antt =====
-- Doubly linked segments: what a chain of `struct queue_node` stands for.
use rtk.Common.{
  ℕ, ◌≡◌, refl, ◌≢◌, ◌⊎◌, inl, inr, true, false, List, [], ◌∷◌, ◌++◌, arith, ◌==◌, has, erase,
  if◌then◌else◌, Bool-cases, has-append, has-erase,
}
use rtk.Queue.{null, QueueNode}

-- From `first` the nodes `xs`, all different, are linked both ways; `before` is what the first
-- node's `prev` holds, and `last` is the last node, `before` if there is none.
abbrev pub Dll : (ℕ → QueueNode) → (before first last : ℕ) → List ℕ → Type 0
Dll n before first last [] = (first ≡ null) × (last ≡ before)
Dll n before first last (x ∷ xs) =
    (first ≡ x)
    × (x ≢ null)
    × ((n x).prev ≡ before)
    × (has x xs ≡ false)
    × Dll n x (n x).next last xs

-- A segment survives a change that spares its own nodes.
pub frame :
    (n n' : ℕ → QueueNode) (before first last : ℕ) (xs : List ℕ)
    → Dll n before first last xs
    → ((a : ℕ) → has a xs ≡ true → n' a ≡ n a)
    → Dll n' before first last xs
frame n n' before first last [] d same = d
frame n n' before first last (x ∷ xs) d same =
    let here : n' x ≡ n x = same x (ground arith) in
    (
      d.0,
      d.1,
      ground arith,
      d.3,
      rw here (frame n n' x (n x).next last xs d.4 (λ a h. same a (ground arith))),
    )

pub last-mem :
    (n : ℕ → QueueNode) (before first last x : ℕ) (xs : List ℕ)
    → Dll n before first last (x ∷ xs)
    → has last (x ∷ xs) ≡ true
last-mem n before first last x [] d = ground arith
last-mem n before first last x (y ∷ ys) d = ground (arith, last-mem n x (n x).next last y ys d.4)

pub null-not-mem :
    (n : ℕ → QueueNode) (before first last : ℕ) (xs : List ℕ)
    → Dll n before first last xs
    → has null xs ≡ false
null-not-mem n before first last [] d = refl
null-not-mem n before first last (x ∷ xs) d =
    ground (arith, null-not-mem n x (n x).next last xs d.4)

-- A node behind the last one.
pub append-Dll :
    (n n' : ℕ → QueueNode) (before first last a : ℕ) (xs : List ℕ)
    → Dll n before first last xs
    → has a xs ≡ false
    → a ≢ null
    → n' a ≡ record { next = null; prev = last }
    → ((x : ℕ)
        → has x xs ≡ true
        → n' x ≡ (if x == last then record { next = a; prev = (n x).prev } else n x))
    → Dll n' before (if first == null then a else first) a (xs ++ a ∷ [])
append-Dll n n' before first last a [] d out ne at others = ground arith
append-Dll n n' before first last a (x ∷ []) d out ne at others = ground (arith, others x)
append-Dll n n' before first last a (x ∷ y ∷ ys) d out ne at others =
    let ih =
      append-Dll n n' x (n x).next last a (y ∷ ys) d.4 (ground arith) ne at
        (λ z h. others z (ground arith)) in
    let near : x ≢ last = ground (arith, last-mem n x (n x).next last y ys d.4) in
    let here : n' x ≡ n x = ground (arith, others x) in
    ground (arith, has-append x (y ∷ ys) (a ∷ []))

pub prev_of_first :
    (n : ℕ → QueueNode) (before first last a : ℕ) (xs : List ℕ)
    → Dll n before first last xs
    → has a xs ≡ true
    → first ≡ a
    → (n a).prev ≡ before
prev_of_first n before first last a [] d m e = cc
prev_of_first n before first last a (x ∷ xs) d m e = ground arith

pub prev-mem :
    (n : ℕ → QueueNode) (before first last a : ℕ) (xs : List ℕ)
    → Dll n before first last xs
    → has a xs ≡ true
    → first ≢ a
    → has (n a).prev xs ≡ true
prev-mem n before first last a [] d m ne = cc
prev-mem n before first last a (x ∷ xs) d m ne =
    let below : has a xs ≡ true = ground arith in
    elim (Bool-cases ((n x).next == a)) [
      | inl e ↦ ground (arith, prev_of_first n x (n x).next last a xs d.4 below)
      | inr e ↦ ground (arith, prev-mem n x (n x).next last a xs d.4 below)
    ]

pub next-mem :
    (n : ℕ → QueueNode) (before first last a : ℕ) (xs : List ℕ)
    → Dll n before first last xs
    → has a xs ≡ true
    → ((n a).next ≡ null) ⊎ (has (n a).next xs ≡ true)
next-mem n before first last a [] d m = cc
next-mem n before first last a (x ∷ []) d m = ground arith
next-mem n before first last a (x ∷ y ∷ ys) d m =
    ground (arith, next-mem n x (n x).next last a (y ∷ ys) d.4)

-- The links of `z` once `a` is unlinked.
abbrev pub bypass : (ℕ → QueueNode) → ℕ → ℕ → QueueNode
bypass n a z = record {
  next = if z == (n a).prev then (n a).next else (n z).next;
  prev = if z == (n a).next then (n a).prev else (n z).prev;
}

-- The first node taken out of a segment.
tail-Dll :
    (n n' : ℕ → QueueNode) (before first last a : ℕ) (xs : List ℕ)
    → Dll n before first last (a ∷ xs)
    → has before xs ≡ false
    → ((z : ℕ) → has z xs ≡ true → z ≢ a → n' z ≡ bypass n a z)
    → Dll n' before (n a).next (if last == a then (n a).prev else last) xs
tail-Dll n n' before first last a [] d out others = ground arith
tail-Dll n n' before first last a (y ∷ ys) d out others =
    let here : n' y ≡ bypass n a y = others y (ground arith) (ground arith) in
    let next : (n' y).next ≡ (n y).next = ground arith in
    let far : last ≢ a = ground (arith, last-mem n a (n a).next last y ys d.4) in
    let rest =
      frame n n' y (n y).next last ys d.4.4
        (λ z h. ground (arith, others z (ground arith) (ground arith))) in
    ground (arith, rest)

-- A node taken out of a segment.
pub erase-Dll :
    (n n' : ℕ → QueueNode) (before first last a : ℕ) (xs : List ℕ)
    → Dll n before first last xs
    → has before xs ≡ false
    → has a xs ≡ true
    → ((z : ℕ) → has z xs ≡ true → z ≢ a → n' z ≡ bypass n a z)
    → Dll n' before
        (if first == a then (n a).next else first)
        (if last == a then (n a).prev else last)
        (erase a xs)
erase-Dll n n' before first last a [] d out m others = cc
erase-Dll n n' before first last a (x ∷ xs) d out m others = elim (Bool-cases (a == x)) [
  | inl e ↦ ground (
    arith,
    tail-Dll n n' before first last x xs d (ground arith)
        (λ z h ne. ground (arith, others z (ground arith) (ground arith))),
  )
  | inr e ↦
      let below : has a xs ≡ true = ground arith in
      let ih =
        erase-Dll n n' x (n x).next last a xs d.4 d.3 below
          (λ z h ne. others z (ground arith) ne) in
      let here : n' x ≡ bypass n a x = others x (ground arith) (ground arith) in
      ground (
        arith,
        prev_of_first n x (n x).next last a xs d.4 below,
        prev-mem n x (n x).next last a xs d.4 below,
        next-mem n x (n x).next last a xs d.4 below,
        has-erase a x xs d.3,
        ih,
      )
]

-- The end of a segment of which nothing stands in front.
pub last-has :
    (n : ℕ → QueueNode) (first last : ℕ) (xs : List ℕ)
    → Dll n null first last xs
    → last ≢ null
    → has last xs ≡ true
last-has n first last [] d ne = absurd (ne d.1)
last-has n first last (x ∷ xs) d ne = last-mem n null first last x xs d

-- No node of a segment is its own neighbour.
pub next-ne :
    (n : ℕ → QueueNode) (before first last a : ℕ) (xs : List ℕ)
    → Dll n before first last xs
    → has a xs ≡ true
    → (n a).next ≢ a
next-ne n before first last a [] d m = cc
next-ne n before first last a (x ∷ []) d m = ground arith
next-ne n before first last a (x ∷ y ∷ ys) d m =
    ground (arith, next-ne n x (n x).next last a (y ∷ ys) d.4)

pub prev-ne :
    (n : ℕ → QueueNode) (before first last a : ℕ) (xs : List ℕ)
    → Dll n before first last xs
    → has before xs ≡ false
    → has a xs ≡ true
    → (n a).prev ≢ a
prev-ne n before first last a [] d out m = cc
prev-ne n before first last a (x ∷ xs) d out m =
    ground (arith, prev-ne n x (n x).next last a xs d.4 d.3)

pub has-erase_self :
    (n : ℕ → QueueNode) (before first last a : ℕ) (xs : List ℕ)
    → Dll n before first last xs
    → has a (erase a xs) ≡ false
has-erase_self n before first last a [] d = refl
has-erase_self n before first last a (x ∷ xs) d =
    ground (arith, has-erase_self n x (n x).next last a xs d.4)

pub first-has :
    (n : ℕ → QueueNode) (before first last : ℕ) (xs : List ℕ)
    → Dll n before first last xs
    → first ≢ null
    → has first xs ≡ true
first-has n before first last [] d ne = absurd (ne d.0)
first-has n before first last (x ∷ xs) d ne = ground arith
