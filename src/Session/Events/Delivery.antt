-- ===== src/Session/Events/Delivery.antt =====
-- `Emit` and `Unsubscribe` of internal/session/session.go: what reaches a subscriber.
use krellin.Prelude.{
  ℕ, zero, suc, ◌-◌, ◌≡◌, refl, sym, ap, ◌∙◌, inl, inr, none, some, List, [], ◌∷◌, ◌++◌, append-nil,
  append_assoc, arith, ltb, ◌==◌, if◌then◌else◌, length, length-append, take, Bool-cases, if_both,
}
use krellin.Protocol.{Event}
use krellin.Session.Events.{
  Channel, offer, Hub, offer_all, emit, without, unsubscribe, channel_of, emit_all,
}

-- The events that fit into a channel, after what it holds.
abbrev pub filled : Channel → List Event → Channel
filled ch events = record ch { held = ch.held ++ take (ch.capacity - length ch.held) events }

take-nil : (n : ℕ) → take {A = Event} n [] ≡ []
take-nil zero = refl
take-nil (suc n) = refl

filled-nil : (ch : Channel) → ch ≡ filled ch []
filled-nil ch =
    ap (λ h. record ch { held = h })
      (sym (append-nil ch.held)
        ∙ ap (λ xs. ch.held ++ xs) (sym (take-nil (ch.capacity - length ch.held))))

offer-filled :
    (event : Event) (events : List Event) (ch : Channel)
    → filled (offer event ch) events ≡ filled ch (event ∷ events)
unfolding offer
offer-filled event events ch =
    if_both (λ c. filled c events ≡ filled ch (event ∷ events)) (ltb (length ch.held) ch.capacity) _
      _
      (λ e.
        let m = ch.capacity - length (ch.held ++ event ∷ []) in
        let k : ch.capacity - length ch.held ≡ suc m =
          ground (arith, length-append ch.held (event ∷ [])) in
        ap (λ h. record ch { held = h })
          (append_assoc ch.held (event ∷ []) (take m events)
            ∙ ap (λ n. ch.held ++ take n (event ∷ events)) (sym k)))
      (λ e.
        let z : ch.capacity - length ch.held ≡ 0 = ground arith in
        ap (λ n. record ch { held = ch.held ++ take n events }) z
        ∙ sym (ap (λ n. record ch { held = ch.held ++ take n (event ∷ events) }) z))

channel_of-offer_all :
    (id : ℕ) (event : Event) (subscribers : List (ℕ × Channel)) (ch : Channel)
    → channel_of id subscribers ≡ some ch
    → channel_of id (offer_all event subscribers) ≡ some (offer event ch)
unfolding channel_of offer_all
channel_of-offer_all id event [] ch h = cc
channel_of-offer_all id event ((i, c) ∷ subscribers) ch h = elim (Bool-cases (i == id)) [
  | inl e ↦ rw e (let k : c ≡ ch = ground arith in ap (λ x. some (offer event x)) k)
  | inr e ↦ rw e (channel_of-offer_all id event subscribers ch (rw (e, channel_of) at h))
]

-- However many events are sent, and whoever else listens, a subscriber that does not read yet has what it
-- had and then the first of the events, in their order, as many as its channel has room for.
pub emit_all-filled :
    (events : List Event) (id : ℕ) (hub : Hub) (ch : Channel)
    → channel_of id hub.subscribers ≡ some ch
    → channel_of id (emit_all events hub).subscribers ≡ some (filled ch events)
unfolding emit_all emit
emit_all-filled [] id hub ch h = h ∙ ap (λ c. some c) (filled-nil ch)
emit_all-filled (event ∷ events) id hub ch h =
    emit_all-filled events id (emit event hub) (offer event ch)
      (channel_of-offer_all id event hub.subscribers ch h)
    ∙ ap (λ c. some c) (offer-filled event events ch)

channel_of-without :
    (id other : ℕ) (subscribers : List (ℕ × Channel))
    → channel_of other (without id subscribers)
      ≡ (if other == id then none else channel_of other subscribers)
unfolding channel_of without
channel_of-without id other [] = ground arith
channel_of-without id other ((i, ch) ∷ subscribers) =
    ground (arith, channel_of-without id other subscribers)

-- After `Unsubscribe` a channel is gone, and the others are as they were.
channel_of-unsubscribe :
    (id other : ℕ) (hub : Hub)
    → channel_of other (unsubscribe id hub).subscribers
      ≡ (if other == id then none else channel_of other hub.subscribers)
unfolding unsubscribe
channel_of-unsubscribe id other hub = channel_of-without id other hub.subscribers
