-- ===== src/Kernel/Runs/Unique.antt =====
-- The lists that a memory's queues hold are determined by the memory.
use rtk.Common.{ℕ, ◌≡◌, refl, ap₂, sym, subst, List, [], ◌∷◌, arith, fun_ext}
use rtk.Queue.{null, QueueNode, Memory}
use rtk.Queue.Segment.{Dll}
use rtk.Queue.Store.{IsStore}

Dll-unique :
    (n : ℕ → QueueNode) (before before' first last last' : ℕ) (xs ys : List ℕ)
    → Dll n before first last xs
    → Dll n before' first last' ys
    → xs ≡ ys
Dll-unique n before before' first last last' [] [] d e = refl
Dll-unique n before before' first last last' [] (y ∷ ys) d e = absurd (ground arith)
Dll-unique n before before' first last last' (x ∷ xs) [] d e = absurd (ground arith)
Dll-unique n before before' first last last' (x ∷ xs) (y ∷ ys) d e =
    let same : x ≡ y = ground arith in
    ap₂ (λ x xs. x ∷ xs) same
      (Dll-unique n x y (n x).next last last' xs ys d.4
        (subst (λ z. Dll n y (n z).next last' ys) (sym same) e.4))

pub lists_unique :
    {bound : ℕ} {v w : ℕ → List ℕ} {m : Memory} → IsStore bound v m → IsStore bound w m → v ≡ w
lists_unique {v} {w} {m} s t = fun_ext (λ q.
    Dll-unique m.node null null (m.queue q).first (m.queue q).last (m.queue q).last (v q) (w q)
      (s.linked q) (t.linked q))
