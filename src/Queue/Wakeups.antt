-- ===== src/Queue/Wakeups.antt =====
-- The callers of `Dequeue`: those in `cond.Wait` and those that hold or wait for the mutex.
use krellin.Prelude.{
  ℕ, zero, suc, ◌+◌, ◌≤◌, ◌≡◌, refl, Bool, true, false, List, [], ◌∷◌, arith, length, length-append,
  ◌⊎◌, inl, inr,
}
use krellin.Queue.{
  Queue, new_queue, enqueue, Dequeued, item_of, queue_closed, cancelled, waits, dequeue_round,
  close,
}

-- `awake` callers take the mutex at some time; `asleep` ones stand in `cond.Wait`.
pub record Monitor {ℓ} (A : Type ℓ) : Type ℓ where
  pub queue : Queue A
  pub awake : ℕ
  pub asleep : ℕ

abbrev pub new_monitor {ℓ} : {A : Type ℓ} → Monitor A
new_monitor = record { queue = new_queue; awake = 0; asleep = 0 }

-- `cond.Signal` and `cond.Broadcast`
unfoldable pub signal {ℓ} : {A : Type ℓ} → Monitor A → Monitor A
signal m = elim m.asleep [
  | zero ↦ m
  | suc asleep ↦ record m { awake = suc m.awake; asleep = asleep }
]

unfoldable pub broadcast {ℓ} : {A : Type ℓ} → Monitor A → Monitor A
broadcast m = record m { awake = m.awake + m.asleep; asleep = 0 }

abbrev signal_if {ℓ} : {A : Type ℓ} → Bool → Monitor A → Monitor A
signal_if true m = signal m
signal_if false m = m

-- What a pass of the loop does with its caller: it returns, or it waits.
abbrev settle {ℓ} : {A : Type ℓ} → Dequeued A → Monitor A → Monitor A
settle (item_of item) m = m
settle queue_closed m = m
settle cancelled m = m
settle waits m = record m { asleep = suc m.asleep }

-- The steps of the goroutines.
pub data Step {ℓ} {A : Type ℓ} : Monitor A → Monitor A → Type ℓ where
  enqueuing :
      (m : Monitor A) (item : A)
      → Step m (signal_if (enqueue item m.queue).0 (record m { queue = (enqueue item m.queue).1 }))
  calling : (m : Monitor A) → Step m (record m { awake = suc m.awake })
  passing :
      (q : Queue A) (awake asleep : ℕ) (cancel : Bool)
      → Step
          (record { queue = q; awake = suc awake; asleep = asleep })
          (settle
            (dequeue_round cancel q).0
            (record { queue = (dequeue_round cancel q).1; awake = awake; asleep = asleep }))
  cancelling : (m : Monitor A) → Step m (broadcast m)
  closing : (m : Monitor A) → Step m (broadcast (record m { queue = close m.queue }))

pub data Steps {ℓ} {A : Type ℓ} : Monitor A → Monitor A → Type ℓ where
  stays : (m : Monitor A) → Steps m m
  goes : {m n o : Monitor A} → Steps m n → Step n o → Steps m o

-- Nobody sleeps, or the queue is open and there are callers on the way to every item.
abbrev pub Awaited {ℓ} : {A : Type ℓ} → Monitor A → Type 0
Awaited m = (m.asleep ≡ 0) ⊎ ((m.queue.closed ≡ false) × (length m.queue.items ≤ m.awake))

signal-Awaited {ℓ} :
    {A : Type ℓ} (item : A) (closed : Bool) (items : List A) (awake asleep : ℕ)
    → Awaited (record {
      queue = record { closed = closed; items = items };
      awake = awake;
      asleep = asleep;
    })
    → Awaited (
        signal_if (enqueue item (record { closed = closed; items = items })).0 (record {
          queue = (enqueue item (record { closed = closed; items = items })).1;
          awake = awake;
          asleep = asleep;
        }))
unfolding signal enqueue
signal-Awaited item true items awake asleep h = h
signal-Awaited item false items awake zero h = inl refl
signal-Awaited item false items awake (suc asleep) (inl none_asleep) =
    absurd (omega (arith, none_asleep))
signal-Awaited item false items awake (suc asleep) (inr (is_open, few)) =
    inr (refl, omega (arith, few, length-append items (item ∷ [])))

passing-Awaited {ℓ} :
    {A : Type ℓ} (closed : Bool) (items : List A) (awake asleep : ℕ) (cancel : Bool)
    → Awaited (record {
      queue = record { closed = closed; items = items };
      awake = suc awake;
      asleep = asleep;
    })
    → Awaited (
        settle (dequeue_round cancel (record { closed = closed; items = items })).0 (record {
          queue = (dequeue_round cancel (record { closed = closed; items = items })).1;
          awake = awake;
          asleep = asleep;
        }))
unfolding dequeue_round
passing-Awaited true items awake asleep cancel (inl none_asleep) = inl none_asleep
passing-Awaited true items awake asleep cancel (inr (is_open, few)) = cc
passing-Awaited false [] awake asleep true h = inr (refl, omega arith)
passing-Awaited false [] awake asleep false h = inr (refl, omega arith)
passing-Awaited false (item ∷ items) awake asleep cancel (inl none_asleep) = inl none_asleep
passing-Awaited false (item ∷ items) awake asleep cancel (inr (is_open, few)) =
    inr (refl, omega (arith, few))

calling-Awaited {ℓ} :
    {A : Type ℓ} (m : Monitor A) → Awaited m → Awaited (record m { awake = suc m.awake })
calling-Awaited m (inl none_asleep) = inl none_asleep
calling-Awaited m (inr (is_open, few)) = inr (is_open, omega (arith, few))

Step-Awaited {ℓ} : {A : Type ℓ} {m n : Monitor A} → Step m n → Awaited m → Awaited n
unfolding broadcast
Step-Awaited (enqueuing m item) h =
    signal-Awaited item m.queue.closed m.queue.items m.awake m.asleep h
Step-Awaited (calling m) h = calling-Awaited m h
Step-Awaited (passing q awake asleep cancel) h =
    passing-Awaited q.closed q.items awake asleep cancel h
Step-Awaited (cancelling m) h = inl refl
Step-Awaited (closing m) h = inl refl

Steps-keep {ℓ} : {A : Type ℓ} {m n : Monitor A} → Steps m n → Awaited m → Awaited n
Steps-keep (stays m) h = h
Steps-keep (goes steps step) h = Step-Awaited step (Steps-keep steps h)

-- No wakeup is lost: whatever the goroutines do from a new queue on, no caller of `Dequeue` sleeps, or the queue is open
-- and at least as many callers are on the way to the mutex as there are items.
pub Steps-Awaited {ℓ} : {A : Type ℓ} {m : Monitor A} → Steps new_monitor m → Awaited m
Steps-Awaited steps = Steps-keep steps (inl refl)
