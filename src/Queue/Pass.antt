-- ===== src/Queue/Pass.antt =====
-- A node that passes through a queue, and nodes whose links are not looked after.
use rtk.Common.{
  ℕ, ◌≤◌, ◌≡◌, ◌≢◌, false, List, [], fun_ext, arith, has, subst, sym, ◌==◌, ==_iff, ==-refl,
  Bool-cases, inl, inr,
}
use rtk.Queue.{null, Memory, enqueue_queue, dequeue_queue, set_next, set_prev}
use rtk.Queue.Segment.{frame}
use rtk.Queue.Store.{IsStore}
use rtk.Queue.Laws.{enqueue_append, dequeue_head}

module _ {bound : ℕ} {v : ℕ → List ℕ} {m : Memory} (s : IsStore bound v m) (a : ℕ) where
  -- The links of a node above the bound, in no queue, may hold anything.
  pub relink :
      (next prev : ℕ)
      → bound ≤ a
      → ((p : ℕ) → has a (v p) ≡ false)
      → IsStore bound v (set_prev a prev (set_next a next m))
  relink next prev above out = record {
    linked = λ q.
        frame m.node (set_prev a prev (set_next a next m)).node null (m.queue q).first
          (m.queue q).last (v q) (s.linked q) (λ z h. ground (arith, out q));
    apart = s.apart;
    idle = λ z lt h. ground (arith, s.idle z lt h);
  }

  -- Through an empty queue.
  pub enqueue_then_dequeue :
      (q : ℕ)
      → a ≢ null
      → ((p : ℕ) → has a (v p) ≡ false)
      → v q ≡ []
      → ((dequeue_queue q (enqueue_queue q a m)).0 ≡ a)
        × IsStore bound v (dequeue_queue q (enqueue_queue q a m)).1
  enqueue_then_dequeue q ne out empty =
      let posted = enqueue_append q a s ne out in
      let taken = (dequeue_head q posted).1 a [] (rw (==-refl q) (rw empty)) in
      (
        taken.0,
        subst (λ w. IsStore bound w (dequeue_queue q (enqueue_queue q a m)).1)
            (fun_ext (λ p. elim (Bool-cases (p == q)) [
              | inl e ↦ rw e (sym (subst (λ j. v j ≡ []) (sym ((==_iff p q).0 e)) empty))
              | inr e ↦ rw e
            ]))
            taken.1,
      )
