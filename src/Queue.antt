-- ===== src/Queue.antt =====
-- internal/queue/queue.go: the queue of actions. Each operation holds the mutex, so that a run is a
-- sequence of operations; `dequeue_round` is one pass of the loop in `Dequeue`, up to `cond.Wait`.
pub mod Fifo
pub mod Wakeups
use krellin.Prelude.{ℕ, ◌≡◌, refl, Bool, true, false, List, [], ◌∷◌, ◌++◌, length, if◌then◌else◌}

pub record Queue {ℓ} (A : Type ℓ) : Type ℓ where
  pub closed : Bool
  pub items : List A

-- `New`
abbrev pub new_queue {ℓ} : {A : Type ℓ} → Queue A
new_queue = record { closed = false; items = [] }

-- `Enqueue`: whether the item is taken (otherwise `ErrClosed`), and the queue.
unfoldable pub enqueue {ℓ} : {A : Type ℓ} → A → Queue A → Bool × Queue A
enqueue item q = if q.closed then (false, q) else (true, record q { items = q.items ++ item ∷ [] })

pub data Dequeued {ℓ} (A : Type ℓ) : Type ℓ where
  item_of : A → Dequeued A
  queue_closed cancelled waits : Dequeued A

abbrev dequeue_open {ℓ} : {A : Type ℓ} → Bool → Queue A → List A → Dequeued A × Queue A
dequeue_open cancel q [] = (if cancel then cancelled else waits, q)
dequeue_open cancel q (item ∷ items) = (item_of item, record q { items = items })

-- One pass of the loop in `Dequeue`; `cancel` tells that the context is done.
unfoldable pub dequeue_round {ℓ} : {A : Type ℓ} → Bool → Queue A → Dequeued A × Queue A
dequeue_round cancel q = if q.closed then (queue_closed, q) else dequeue_open cancel q q.items

-- `Len`
unfoldable pub len {ℓ} : {A : Type ℓ} → Queue A → ℕ
len q = length q.items

-- `Close`
unfoldable pub close {ℓ} : {A : Type ℓ} → Queue A → Queue A
close q = record q { closed = true }

if_true {ℓ} : {A : Type ℓ} (b : Bool) (x y : A) → b ≡ true → (if b then x else y) ≡ x
if_true true x y h = refl
if_true false x y h = cc

if_false {ℓ} : {A : Type ℓ} (b : Bool) (x y : A) → b ≡ false → (if b then x else y) ≡ y
if_false true x y h = cc
if_false false x y h = refl

pub enqueue_on_closed {ℓ} :
    {A : Type ℓ} (item : A) (q : Queue A) → q.closed ≡ true → enqueue item q ≡ (false, q)
unfolding enqueue
enqueue_on_closed item q h =
    if_true q.closed (false, q) (true, record q { items = q.items ++ item ∷ [] }) h

pub enqueue_on_open {ℓ} :
    {A : Type ℓ} (item : A) (q : Queue A)
    → q.closed ≡ false
    → enqueue item q ≡ (true, record q { items = q.items ++ item ∷ [] })
unfolding enqueue
enqueue_on_open item q h =
    if_false q.closed (false, q) (true, record q { items = q.items ++ item ∷ [] }) h

pub dequeue_on_closed {ℓ} :
    {A : Type ℓ} (cancel : Bool) (q : Queue A)
    → q.closed ≡ true
    → dequeue_round cancel q ≡ (queue_closed, q)
unfolding dequeue_round
dequeue_on_closed cancel q h = if_true q.closed (queue_closed, q) (dequeue_open cancel q q.items) h
