-- ===== src/Kernel/Communication/Tests.antt =====
-- Send to a task that does not wait, and Receive with a message in the queue.
use rtk.Kernel.Communication.Mailing.{Fetched, mail_arrives}
use rtk.Kernel.Lifecycle.{schedule_and_activate}
use rtk.Common.{ℕ, ◌≡◌, refl, List, [], ◌∷◌, some, arith}
use rtk.Common.Int.{pos}
use rtk.Queue.{Memory, update, enqueue_queue}
use rtk.Queue.Store.{enqueue-IsStore}
use rtk.Kernel.State.{Kernel, Message, ready, receive_blocked, task_node, message_node, msg_queue}
use rtk.Kernel.Tasks.{task_queue}
use rtk.Kernel.Tasks.Placement.{IsPlaced}
use rtk.Kernel.Communication.{send_proxy, receive_proxy, sent_message}
use rtk.Kernel.Communication.Deliver.{Delivered}
use rtk.Kernel.Communication.Posting.{Posted, send_to_busy}
use rtk.Kernel.Communication.Queued.{HasMail, opened}
use rtk.Kernel.Communication.Fetching.{fetched, rest_lists, receive_fetches}
use rtk.Kernel.Tests.{
  blank, blank-IsStore, no_message, world, one_list, queued, queued-IsPlaced, runner,
}

-- Task 0 sends to task 1, which is ready.
send_to_busy_example :
    (k' : Kernel) × (send_proxy no_message (pos 1) 100 (pos 8) 200 (pos 4) (queued ready 5)
      ≡ some (pos 0, k'))
    × Posted
        (one_list 5)
        (queued ready 5)
        0
        1
        (sent_message no_message (pos 0) (pos 1) 100 (pos 8) 200 (pos 4))
        k'
unfolding task_queue
send_to_busy_example = send_to_busy {qa = 10} no_message 100 (pos 8) 200 (pos 4) (record {
  placed = queued-IsPlaced ready 5 refl;
  running = refl;
  sender = runner ready 5;
  receiver = record { index = refl; small = omega arith; holds = refl };
  alive = refl;
  busy = refl;
  unposted = λ p. ground arith;
})

-- Task 1 has sent to task 0, and waits.
abbrev mail_lists : ℕ → List ℕ
mail_lists = update (one_list 20) (msg_queue 0) (message_node 1 ∷ [])

abbrev mail_memory : Memory
mail_memory = enqueue_queue (msg_queue 0) (message_node 1) (enqueue_queue 20 (task_node 1) blank)

abbrev letter : Message
letter = record no_message { from_tid = pos 1; msg_buffer = 100; msg_buffer_size = pos 8 }

abbrev with_mail : Kernel
with_mail = record (world receive_blocked mail_memory) { messages = λ j. letter }

with_mail-IsPlaced : IsPlaced mail_lists with_mail
unfolding task_queue
with_mail-IsPlaced = record {
  store =
      enqueue-IsStore (enqueue-IsStore blank-IsStore 20 (task_node 1) (omega arith) (λ p. refl))
        (msg_queue 0) (message_node 1) (omega arith) (λ p. ground arith);
  own = λ i q lt h. ground arith;
  kinds = λ q a le h. ground arith;
  off = λ c q e. ground arith;
  current_in = λ c e. ground arith;
  slots = λ i n lt e. ground arith;
}

the_mail : HasMail mail_lists with_mail 0 0 10 1 1 []
unfolding task_queue enqueue_queue
the_mail = record {
  placed = with_mail-IsPlaced;
  running = refl;
  task = record { index = refl; holds = refl; queued = refl };
  queue = refl;
  end = refl;
}

receive_fetches_example :
    (k' : Kernel) × (receive_proxy no_message
        (record { next = 7; prev = 8 })
        500
        600
        (pos 16)
        with_mail
      ≡ some (pos 8, k'))
    × Delivered
        (rest_lists the_mail 500 600 (pos 16))
        (opened the_mail 500 600 (pos 16))
        (fetched with_mail 1 1 500 600 (pos 16))
        0
        1
        1
        0
        8
        16
        k'
unfolding task_queue
receive_fetches_example =
    receive_fetches no_message (record { next = 7; prev = 8 }) 500 600 (pos 16)
      (record {
        mail = the_mail;
        sender = record { index = refl; holds = refl; queued = refl };
        apart = omega arith;
        small = omega arith;
        from = refl;
        to = refl;
        sent = refl;
        room = refl;
      })

mail_arrives_example :
    (k1 : Kernel) × (k2 : Kernel) × (k3 : Kernel) × (send_proxy no_message
        (pos 1)
        100
        (pos 8)
        200
        (pos 4)
        (queued ready 5)
      ≡ some (pos 0, k1))
    × (schedule_and_activate 30 k1 ≡ some k2)
    × (receive_proxy no_message (record { next = 7; prev = 8 }) 500 600 (pos 16) k2
        ≡ some (pos 8, k3))
    × Fetched (queued ready 5) 0 0 1 500 600 8 16 100 k3
unfolding task_queue
mail_arrives_example =
    mail_arrives {qa = 10} {xs = []} no_message no_message (record { next = 7; prev = 8 }) 100 8 200
      (pos 4) 30 500 600 16
      (record {
        busy = record {
          placed = queued-IsPlaced ready 5 refl;
          running = refl;
          sender = runner ready 5;
          receiver = record { index = refl; small = omega arith; holds = refl };
          alive = refl;
          busy = refl;
          unposted = λ p. ground arith;
        };
        apart = omega arith;
        caller = omega arith;
        receiver = omega arith;
        first = refl;
        higher = λ j lt. absurd (omega arith);
        empty = refl;
      })
