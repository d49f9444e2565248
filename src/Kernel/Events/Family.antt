-- ===== src/Kernel/Events/Family.antt =====
-- kernel/task.c: a task's children, their children and so on, which DestroyHandler destroys with it.
use rtk.Common.{
  ℕ, ◌%◌, ◌<◌, ◌≡◌, ◌≢◌, ◌∙◌, ap, refl, sym, subst, true, false, List, [], ◌∷◌, ◌++◌, arith, ◌==◌,
  has, has-append, has-erase_ne, erase_absent, ◌||◌, Bool-cases, inl, inr, some, ◌-◌, map, erase,
}
use mathlib.Core.List.{append-nil, append_assoc, map-append}
use rtk.Common.Int.{pos}
use rtk.Queue.{update}
use rtk.Queue.Laws.{without}
use rtk.Queue.Counting.{distinct}
use rtk.Kernel.State.{Task, task_node, sibling_node, children, max_tasks, available_descriptors}
use rtk.Kernel.Tasks.{task_queue, long_max}

-- The tasks of a queue of children: the first child's tid, its children, and the children after it.
pub data Family : Type 0 where
  nobody : Family
  member : (n : ℕ) (kids rest : Family) → Family

-- The descriptors, a task's behind those of its children.
abbrev pub order : Family → List ℕ
order nobody = []
order (member n kids rest) = order kids ++ (n % max_tasks) ∷ order rest

-- The queue of children.
abbrev pub siblings : Family → List ℕ
siblings nobody = []
siblings (member n kids rest) = sibling_node (n % max_tasks) ∷ siblings rest

-- The descriptor `i` leaves its queue, and becomes the last of the free ones.
abbrev pub freed : ℕ → (ℕ → List ℕ) → ℕ → List ℕ
freed i v =
    let w = without (task_node i) v in
    update w available_descriptors (w available_descriptors ++ task_node i ∷ [])

-- The lists when the tasks are destroyed: each leaves its siblings, its children are destroyed, and
-- its descriptor is freed.
abbrev pub destroyed_lists : (ℕ → List ℕ) → Family → ℕ → List ℕ
destroyed_lists v nobody = v
destroyed_lists v (member n kids rest) =
    destroyed_lists
      (freed (n % max_tasks) (destroyed_lists (without (sibling_node (n % max_tasks)) v) kids)) rest

-- The descriptor `t` of the task with tid `n`, a child of the task with tid `parent`; `c` is the
-- current task. Its tids have not run out.
pub record IsMember (t : Task) (c parent n : ℕ) : Type 0 where
  pub other : c ≢ n % max_tasks
  pub holds : t.tid ≡ pos n
  pub queue : ℕ
  pub queued : task_queue t ≡ some queue
  pub small : n < long_max - max_tasks
  pub parent_tid : t.parent_tid ≡ pos parent

-- The children of the task with tid `parent`, and the queues of their own children.
abbrev pub AreMembers : (ℕ → List ℕ) → (ℕ → Task) → (c parent : ℕ) → Family → Type 0
AreMembers v t c parent nobody = Unit {0}
AreMembers v t c parent (member n kids rest) =
    IsMember (t (n % max_tasks)) c parent n
    × (v (children (n % max_tasks)) ≡ siblings kids)
    × AreMembers v t c n kids
    × AreMembers v t c parent rest

-- The parts of a list with no number twice.
pub distinct-parts :
    (xs ys : List ℕ)
    → distinct (xs ++ ys) ≡ true
    → (distinct xs ≡ true) × (distinct ys ≡ true) × ((s : ℕ) → has s xs ≡ true → has s ys ≡ false)
distinct-parts [] ys d = (refl, d, λ s h. absurd (ground arith))
distinct-parts (x ∷ xs) ys d =
    let (left, right, apart) = distinct-parts xs ys (ground arith) in
    (ground (arith, has-append x xs ys), right, λ s h. ground (arith, has-append x xs ys, apart s))

has-order :
    (n : ℕ) (kids rest : Family) (s : ℕ)
    → has s (order (member n kids rest))
      ≡ (has s (order kids) || has s ((n % max_tasks) ∷ order rest))
has-order n kids rest s = has-append s (order kids) ((n % max_tasks) ∷ order rest)

pub order-small : (f : Family) (s : ℕ) → has s (order f) ≡ true → s < max_tasks
order-small nobody s h = absurd (ground arith)
order-small (member n kids rest) s h =
    ground (arith, has-order n kids rest s, order-small kids s, order-small rest s)

-- A queue with no node of a member stays as it is.
pub destroyed_lists-same :
    (f : Family) (v : ℕ → List ℕ) (q : ℕ)
    → q ≢ available_descriptors
    → ((s : ℕ)
        → has s (order f) ≡ true
        → (has (task_node s) (v q) ≡ false) × (has (sibling_node s) (v q) ≡ false))
    → destroyed_lists v f q ≡ v q
destroyed_lists-same nobody v q ne out = refl
destroyed_lists-same (member n kids rest) v q ne out =
    let i = n % max_tasks in
    let v1 = without (sibling_node i) v in
    let here = out i (ground (arith, has-order n kids rest i)) in
    let e1 : v1 q ≡ v q = erase_absent (sibling_node i) (v q) here.1 in
    let e2 : destroyed_lists v1 kids q ≡ v q =
      destroyed_lists-same kids v1 q ne
        (λ s g. rw e1 (out s (ground (arith, has-order n kids rest s))))
      ∙ e1 in
    let v3 = freed i (destroyed_lists v1 kids) in
    let e3 : v3 q ≡ v q = ground (arith, e2, erase_absent (task_node i) (v q)) in
    destroyed_lists-same rest v3 q ne
      (λ s g. rw e3 (out s (ground (arith, has-order n kids rest s))))
    ∙ e3

-- A node of no member stays in its queue.
pub destroyed_lists-has :
    (f : Family) (v : ℕ → List ℕ) (q a : ℕ)
    → q ≢ available_descriptors
    → ((s : ℕ) → has s (order f) ≡ true → (a ≢ task_node s) × (a ≢ sibling_node s))
    → has a (destroyed_lists v f q) ≡ has a (v q)
destroyed_lists-has nobody v q a ne out = refl
destroyed_lists-has (member n kids rest) v q a ne out =
    let i = n % max_tasks in
    let v1 = without (sibling_node i) v in
    let v2 = destroyed_lists v1 kids in
    let here = out i (ground (arith, has-order n kids rest i)) in
    destroyed_lists-has rest (freed i v2) q a ne
      (λ s g. out s (ground (arith, has-order n kids rest s)))
    ∙ ground (arith, has-erase_ne (task_node i) a (v2 q))
    ∙ destroyed_lists-has kids v1 q a ne (λ s g. out s (ground (arith, has-order n kids rest s)))
    ∙ has-erase_ne (sibling_node i) a (v q) here.1

-- A queue of children holds nodes of members.
pub siblings-order :
    (f : Family) (a : ℕ)
    → has a (siblings f) ≡ true
    → (s : ℕ) × (a ≡ sibling_node s) × (s < max_tasks) × (has s (order f) ≡ true)
siblings-order nobody a h = absurd (ground arith)
siblings-order (member n kids rest) a h = elim (Bool-cases (a == sibling_node (n % max_tasks))) [
  | inl e ↦ (
    n % max_tasks,
    ground arith,
    omega arith,
    ground (arith, has-order n kids rest (n % max_tasks)),
  )
  | inr e ↦
      let (s, is, small, later) = siblings-order rest a (ground arith) in
      (s, is, small, ground (arith, has-order n kids rest s))
]

-- So does the queue of children of a member.
pub members-inside :
    (v : ℕ → List ℕ) (t : ℕ → Task) (c parent : ℕ) (f : Family) (j a : ℕ)
    → AreMembers v t c parent f
    → has j (order f) ≡ true
    → has a (v (children j)) ≡ true
    → (s : ℕ) × (a ≡ sibling_node s) × (s < max_tasks) × (has s (order f) ≡ true)
members-inside v t c parent nobody j a h g e = absurd (ground arith)
members-inside v t c parent (member n kids rest) j a h g e =
    let i = n % max_tasks in
    elim (Bool-cases (has j (order kids))) [
      | inl deep ↦
          let (s, is, small, later) = members-inside v t c n kids j a h.2 deep e in
          (s, is, small, ground (arith, has-order n kids rest s))
      | inr o ↦ elim (Bool-cases (j == i)) [
        | inl here ↦
            let k : j ≡ i = ground arith in
            let (s, is, small, later) = siblings-order kids a (rw (← h.1) (rw (← k) e)) in
            (s, is, small, ground (arith, has-order n kids rest s))
        | inr there ↦
            let (s, is, small, later) =
              members-inside v t c parent rest j a h.3 (ground (arith, has-order n kids rest j))
                e in
            (s, is, small, ground (arith, has-order n kids rest s))
      ]
    ]

-- The descriptor of a member has a queue.
pub members-queued :
    (v : ℕ → List ℕ) (t : ℕ → Task) (c parent : ℕ) (f : Family) (s : ℕ)
    → AreMembers v t c parent f
    → has s (order f) ≡ true
    → (q : ℕ) × (task_queue (t s) ≡ some q)
members-queued v t c parent nobody s h g = absurd (ground arith)
members-queued v t c parent (member n kids rest) s h g = elim (Bool-cases (s == n % max_tasks)) [
  | inl here ↦
      let k : s ≡ n % max_tasks = ground arith in
      (h.0.queue, ap (λ i. task_queue (t i)) k ∙ h.0.queued)
  | inr there ↦ elim (Bool-cases (has s (order kids))) [
    | inl deep ↦ members-queued v t c n kids s h.2 deep
    | inr o ↦ members-queued v t c parent rest s h.3 (ground (arith, has-order n kids rest s))
  ]
]

has-task_node : (s : ℕ) (is : List ℕ) → has (task_node s) (map task_node is) ≡ has s is
has-task_node s [] = refl
has-task_node s (i ∷ is) = ground (arith, has-task_node s is)

has-sibling_node :
    (s : ℕ) (is : List ℕ)
    → ((j : ℕ) → has j is ≡ true → j < max_tasks)
    → has (sibling_node s) (map task_node is) ≡ false
has-sibling_node s [] small = refl
has-sibling_node s (i ∷ is) small =
    ground (arith, small i, has-sibling_node s is (λ j h. small j (ground arith)))

-- The descriptors go behind the free ones in their order.
pub destroyed_lists-free :
    (f : Family) (v : ℕ → List ℕ)
    → distinct (order f) ≡ true
    → ((s : ℕ)
        → has s (order f) ≡ true
        → (has (task_node s) (v available_descriptors) ≡ false)
          × (has (sibling_node s) (v available_descriptors) ≡ false))
    → destroyed_lists v f available_descriptors ≡ v available_descriptors ++ map task_node (order f)
destroyed_lists-free nobody v d out = sym (append-nil (v available_descriptors))
destroyed_lists-free (member n kids rest) v d out =
    let i = n % max_tasks in
    let a = available_descriptors in
    let v1 = without (sibling_node i) v in
    let v2 = destroyed_lists v1 kids in
    let (dk, dr, apart) = distinct-parts (order kids) (i ∷ order rest) d in
    let here = out i (ground (arith, has-order n kids rest i)) in
    let e1 : v1 a ≡ v a = erase_absent (sibling_node i) (v a) here.1 in
    let e2 : v2 a ≡ v a ++ map task_node (order kids) =
      destroyed_lists-free kids v1 dk
        (λ s g. rw e1 (out s (ground (arith, has-order n kids rest s))))
      ∙ ap (λ xs. xs ++ map task_node (order kids)) e1 in
    let e3 : freed i v2 a ≡ (v a ++ map task_node (order kids)) ++ task_node i ∷ [] =
      ap (λ xs. erase (task_node i) xs ++ task_node i ∷ []) e2
      ∙ ap (λ xs. xs ++ task_node i ∷ [])
          (erase_absent (task_node i) (v a ++ map task_node (order kids)) (
            ground (
              arith,
              has-append (task_node i) (v a) (map task_node (order kids)),
              has-task_node i (order kids),
              apart i,
              Bool-cases (has i (order kids)),
            ))) in
    destroyed_lists-free rest (freed i v2) (ground arith) (λ s g. rw e3 (
      let o = out s (ground (arith, has-order n kids rest s)) in
      ground (
        arith,
        has-append (task_node s) (v a ++ map task_node (order kids)) (task_node i ∷ []),
        has-append (task_node s) (v a) (map task_node (order kids)),
        has-append (sibling_node s) (v a ++ map task_node (order kids)) (task_node i ∷ []),
        has-append (sibling_node s) (v a) (map task_node (order kids)),
        has-task_node s (order kids),
        has-sibling_node s (order kids) (order-small kids),
        apart s,
        Bool-cases (has s (order kids)),
      )))
    ∙ rw e3 (simp (append_assoc, map-append))

-- Only the members' descriptors and queues of children matter.
pub members-frame :
    (v w : ℕ → List ℕ) (t u : ℕ → Task) (c parent : ℕ) (f : Family)
    → ((j : ℕ) → has j (order f) ≡ true → u j ≡ t j)
    → ((j : ℕ) → has j (order f) ≡ true → w (children j) ≡ v (children j))
    → AreMembers v t c parent f
    → AreMembers w u c parent f
members-frame v w t u c parent nobody same lists h = tt
members-frame v w t u c parent (member n kids rest) same lists h =
    let i = n % max_tasks in
    let at_i : has i (order (member n kids rest)) ≡ true =
      ground (arith, has-order n kids rest i) in
    (
      subst (λ x. IsMember x c parent n) (sym (same i at_i)) h.0,
      lists i at_i ∙ h.1,
      members-frame v w t u c n kids (λ j g. same j (ground (arith, has-order n kids rest j)))
          (λ j g. lists j (ground (arith, has-order n kids rest j))) h.2,
      members-frame v w t u c parent rest (λ j g. same j (ground (arith, has-order n kids rest j)))
          (λ j g. lists j (ground (arith, has-order n kids rest j))) h.3,
    )
