-- ===== src/Queue/Fifo.antt =====
-- A run of the queue: what `Enqueue` takes and what `Dequeue` gives, in the order of the mutex.
use krellin.Prelude.{
  ◌≡◌, refl, sym, ap, ◌∙◌, inl, inr, Bool, true, false, List, [], ◌∷◌, ◌++◌, append-nil,
  append_assoc, Bool-cases,
}
use krellin.Queue.{
  Queue, enqueue, Dequeued, item_of, queue_closed, cancelled, waits, dequeue_round, close,
  enqueue_on_closed, enqueue_on_open, dequeue_on_closed,
}

pub data Operation {ℓ} (A : Type ℓ) : Type ℓ where
  enqueues : A → Operation A
  dequeues : Bool → Operation A
  closes : Operation A

-- What went into the queue, what came out of it, and the queue at the end.
pub record Run {ℓ} (A : Type ℓ) : Type ℓ where
  pub taken : List A
  pub given : List A
  pub left : Queue A

abbrev after_enqueue {ℓ} : {A : Type ℓ} → A → Bool → Run A → Run A
after_enqueue item true r = record r { taken = item ∷ r.taken }
after_enqueue item false r = r

abbrev after_dequeue {ℓ} : {A : Type ℓ} → Dequeued A → Run A → Run A
after_dequeue (item_of item) r = record r { given = item ∷ r.given }
after_dequeue queue_closed r = r
after_dequeue cancelled r = r
after_dequeue waits r = r

unfoldable pub run {ℓ} : {A : Type ℓ} → List (Operation A) → Queue A → Run A
run [] q = record { taken = []; given = []; left = q }
run (enqueues item ∷ ops) q = after_enqueue item (enqueue item q).0 (run ops (enqueue item q).1)
run (dequeues cancel ∷ ops) q =
    after_dequeue (dequeue_round cancel q).0 (run ops (dequeue_round cancel q).1)
run (closes ∷ ops) q = run ops (close q)

module _ {ℓ} {A : Type ℓ} where
  round-fifo :
      (cancel closed : Bool) (items : List A) (r : Run A)
      → (dequeue_round cancel (record { closed = closed; items = items })).1.items ++ r.taken
        ≡ r.given ++ r.left.items
      → items
          ++ (after_dequeue
              (dequeue_round cancel (record { closed = closed; items = items })).0
              r).taken
        ≡ (after_dequeue
            (dequeue_round cancel (record { closed = closed; items = items })).0
            r).given
          ++ (after_dequeue
              (dequeue_round cancel (record { closed = closed; items = items })).0
              r).left.items
  unfolding dequeue_round
  round-fifo cancel true items r h = h
  round-fifo true false [] r h = h
  round-fifo false false [] r h = h
  round-fifo cancel false (item ∷ items) r h = ap (λ xs. item ∷ xs) h

  -- In every interleaving of the operations, what was in the queue and then what was taken in is what is
  -- given out and then what is left, in this order: nothing is lost, doubled or overtaken.
  pub run-fifo :
      (ops : List (Operation A)) (q : Queue A)
      → q.items ++ (run ops q).taken ≡ (run ops q).given ++ (run ops q).left.items
  unfolding run close
  run-fifo [] q = append-nil q.items
  run-fifo (enqueues item ∷ ops) q = elim (Bool-cases q.closed) [
    | inl e ↦ simp (enqueue_on_closed item q e, run) (run-fifo ops q)
    | inr e ↦
        simp (enqueue_on_open item q e, run)
          (sym (
              append_assoc q.items (item ∷ [])
                (run ops (record q { items = q.items ++ item ∷ [] })).taken)
            ∙ run-fifo ops (record q { items = q.items ++ item ∷ [] }))
  ]
  run-fifo (dequeues cancel ∷ ops) q =
      round-fifo cancel q.closed q.items (run ops (dequeue_round cancel q).1)
        (run-fifo ops (dequeue_round cancel q).1)
  run-fifo (closes ∷ ops) q = run-fifo ops (close q)

  -- On a closed queue nothing is taken in and nothing is given out, whatever follows, and it stays as it is.
  run_closed :
      (ops : List (Operation A)) (q : Queue A)
      → q.closed ≡ true
      → ((run ops q).taken ≡ []) × ((run ops q).given ≡ []) × ((run ops q).left ≡ q)
  unfolding run close
  run_closed [] q h = (refl, refl, refl)
  run_closed (enqueues item ∷ ops) q h = simp (enqueue_on_closed item q h, run) (run_closed ops q h)
  run_closed (dequeues cancel ∷ ops) q h =
      simp (dequeue_on_closed cancel q h, run) (run_closed ops q h)
  run_closed (closes ∷ ops) q h =
      let same : close q ≡ q = ap (λ (x : Bool). record q { closed = x }) (sym h) in
      simp (same, run) (run_closed ops q h)
