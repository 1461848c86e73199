-- ===== src/Session/Start/Heard.antt =====
-- No subscriber of a session misses that it has started.
use mathlib.Core.Path.{subst}
use krellin.Prelude.{
  ℕ, ◌≡◌, refl, sym, ◌∙◌, ◌⊎◌, inl, inr, true, false, Option, none, some, List, [], ◌∷◌, ◌++◌,
  arith, length, ltb, drop, ◌==◌, if◌then◌else◌, In, All, if_both, Bool-cases,
}
use krellin.Protocol.{Event}
use krellin.Session.Events.{Channel, offer, offer_all, emit, without, unsubscribe}
use krellin.Session.Start.{
  offer_to, forget, full_of, full_at, take_from, first_of, read_of, Phase, before, marked, sent,
  Shared, noted, registered, Step, mark, send, register, greet, greet_error, read, leave,
  emit_other, Steps, here, next,
}

-- All that is in the one list is in the other.
abbrev Within : {A : Type 0} → List A → List A → Type 0
Within {A} xs ys = (a : A) → In a xs → In a ys

In-append_left : {A : Type 0} (a : A) (xs ys : List A) → In a xs → In a (xs ++ ys)
In-append_left a [] ys h = absurd h
In-append_left a (x ∷ xs) ys (inl e) = inl e
In-append_left a (x ∷ xs) ys (inr h) = inr (In-append_left a xs ys h)

In-append_right : {A : Type 0} (a : A) (xs ys : List A) → In a ys → In a (xs ++ ys)
In-append_right a [] ys h = h
In-append_right a (x ∷ xs) ys h = inr (In-append_right a xs ys h)

In-append_last : {A : Type 0} (a : A) (xs : List A) → In a (xs ++ a ∷ [])
In-append_last a [] = inl refl
In-append_last a (x ∷ xs) = inr (In-append_last a xs)

offer-keeps :
    (event other : Event) (ch : Channel) → In event ch.held → In event (offer other ch).held
unfolding offer
offer-keeps event other ch h =
    if_both (λ (c : Channel). In event c.held) (ltb (length ch.held) ch.capacity) _ _
      (λ e. In-append_left event ch.held _ h) (λ e. h)

offer-has :
    (event : Event) (ch : Channel)
    → ltb (length ch.held) ch.capacity ≡ true
    → In event (offer event ch).held
unfolding offer
offer-has event ch room = rw room (In-append_last event ch.held)

-- The subscriber's own subscription is about to send it the event, or its channel holds it, or it has read it, or its
-- channel was full when the event was sent to it.
abbrev pub Served : Event → List ℕ → List (ℕ × Event) → List ℕ → ℕ × Channel → Type 0
Served event due received missed (id, ch) =
    In id due ⊎ (In event ch.held ⊎ (In (id, event) received ⊎ In id missed))

module _ (event : Event) where
  -- What is offered to a channel takes nothing out of it.
  fuller :
      (id : ℕ) (other : Event) (due : List ℕ) (received : List (ℕ × Event)) (missed : List ℕ)
      (ch : Channel)
      → Served event due received missed (id, ch)
      → Served event due received missed (id, offer other ch)
  fuller id other due received missed ch (inl d) = inl d
  fuller id other due received missed ch (inr (inl h)) = inr (inl (offer-keeps event other ch h))
  fuller id other due received missed ch (inr (inr k)) = inr (inr k)

  offer_all-Served :
      (other : Event) (due : List ℕ) (received : List (ℕ × Event)) (missed : List ℕ)
      (subscribers : List (ℕ × Channel))
      → All (Served event due received missed) subscribers
      → All (Served event due received missed) (offer_all other subscribers)
  unfolding offer_all
  offer_all-Served other due received missed [] h = tt
  offer_all-Served other due received missed ((id, ch) ∷ subscribers) (k, h) = (
    fuller id other due received missed ch k,
    offer_all-Served other due received missed subscribers h,
  )

  offer_to-Served :
      (id : ℕ) (other : Event) (due : List ℕ) (received : List (ℕ × Event)) (missed : List ℕ)
      (subscribers : List (ℕ × Channel))
      → All (Served event due received missed) subscribers
      → All (Served event due received missed) (offer_to id other subscribers)
  unfolding offer_to
  offer_to-Served id other due received missed [] h = tt
  offer_to-Served id other due received missed ((i, ch) ∷ subscribers) (k, h) = (
    if_both (λ (c : Channel). Served event due received missed (i, c)) (i == id) _ _
        (λ e. fuller i other due received missed ch k) (λ e. k),
    offer_to-Served id other due received missed subscribers h,
  )

  -- The event itself goes to everyone whose channel is not full.
  Served-offer_all :
      (due : List ℕ) (received : List (ℕ × Event)) (missed : List ℕ)
      (subscribers : List (ℕ × Channel))
      → Within (full_of subscribers) missed
      → All (Served event due received missed) (offer_all event subscribers)
  unfolding offer_all full_of
  Served-offer_all due received missed [] within = tt
  Served-offer_all due received missed ((id, ch) ∷ subscribers) within = (
    one (Bool-cases (ltb (length ch.held) ch.capacity)),
    Served-offer_all due received missed subscribers deeper,
  )
    where
      one :
          (ltb (length ch.held) ch.capacity ≡ true) ⊎ (ltb (length ch.held) ch.capacity ≡ false)
          → Served event due received missed (id, offer event ch)
      one (inl e) = inr (inl (offer-has event ch e))
      one (inr e) = inr (inr (inr (within id (rw e (inl refl)))))

      deeper : Within (full_of subscribers) missed
      deeper i k =
          within i (if_both (In i) (ltb (length ch.held) ch.capacity) _ _ (λ e. k) (λ e. inr k))

  In-forget : (i id : ℕ) (due : List ℕ) → (i == id) ≡ false → In i due → In i (forget id due)
  unfolding forget
  In-forget i id [] e h = h
  In-forget i id (x ∷ due) e (inl same) =
      let e' : (x == id) ≡ false = ground arith in rw e' (inl same)
  In-forget i id (x ∷ due) e (inr k) =
      let rest = In-forget i id due e k in if_both (In i) (x == id) _ _ (λ f. rest) (λ f. inr rest)

  wider :
      (due : List ℕ) (received more : List (ℕ × Event)) (missed others : List ℕ)
      → Within received more
      → Within missed others
      → (id : ℕ) (ch : Channel) → Served event due received missed (id, ch)
      → Served event due more others (id, ch)
  wider due received more missed others r m id ch (inl d) = inl d
  wider due received more missed others r m id ch (inr (inl h)) = inr (inl h)
  wider due received more missed others r m id ch (inr (inr (inl h))) =
      inr (inr (inl (r (id, event) h)))
  wider due received more missed others r m id ch (inr (inr (inr h))) = inr (inr (inr (m id h)))

  -- The event given to its own subscription, which is due no more.
  Served-forget :
      (id : ℕ) (due : List ℕ) (received : List (ℕ × Event)) (missed others : List ℕ)
      (subscribers : List (ℕ × Channel))
      → Within missed others
      → Within (full_at id subscribers) others
      → All (Served event due received missed) subscribers
      → All (Served event (forget id due) received others) (offer_to id event subscribers)
  unfolding offer_to full_at
  Served-forget id due received missed others [] old new h = tt
  Served-forget id due received missed others ((i, ch) ∷ subscribers) old new (served, h) = (
    one (Bool-cases (i == id)),
    Served-forget id due received missed others subscribers old deeper h,
  )
    where
      deeper : Within (full_at id subscribers) others
      deeper j k = new j (
          if_both (In j) (i == id) _ _
            (λ e. if_both (In j) (ltb (length ch.held) ch.capacity) _ _ (λ f. k) (λ f. inr k))
            (λ e. k))

      sent_to :
          (i == id) ≡ true
          → (ltb (length ch.held) ch.capacity ≡ true) ⊎ (ltb (length ch.held) ch.capacity ≡ false)
          → Served event (forget id due) received others (i, offer event ch)
      sent_to e (inl f) = inr (inl (offer-has event ch f))
      sent_to e (inr f) = inr (inr (inr (new i (rw e (rw f (inl refl))))))

      spared :
          (i == id) ≡ false
          → Served event due received missed (i, ch)
          → Served event (forget id due) received others (i, ch)
      spared e (inl d) = inl (In-forget i id due e d)
      spared e (inr k) =
          wider (forget id due) received received missed others (λ p q. q) old i ch (inr k)

      one :
          ((i == id) ≡ true) ⊎ ((i == id) ≡ false)
          → Served event (forget id due) received others (i, if i == id then offer event ch else ch)
      one (inl e) = rw e (sent_to e (Bool-cases (ltb (length ch.held) ch.capacity)))
      one (inr e) = rw e (spared e served)

  -- What a reader takes out of its channel it has received.
  Served-take_from :
      (id : ℕ) (due : List ℕ) (received more : List (ℕ × Event)) (missed : List ℕ)
      (subscribers : List (ℕ × Channel))
      → Within received more
      → Within (read_of id subscribers) more
      → All (Served event due received missed) subscribers
      → All (Served event due more missed) (take_from id subscribers)
  unfolding take_from read_of
  Served-take_from id due received more missed [] old new h = tt
  Served-take_from id due received more missed ((i, ch) ∷ subscribers) old new (served, h) = (
    one (Bool-cases (i == id)),
    Served-take_from id due received more missed subscribers old deeper h,
  )
    where
      deeper : Within (read_of id subscribers) more
      deeper p k =
          new p (
            if_both (In p) (i == id) _ _ (λ e. In-append_right p (first_of i ch.held) _ k) (λ e. k))

      taken :
          (events : List Event)
          → Within (first_of i events) more
          → In event events
          → In event (drop 1 events) ⊎ (In (i, event) more ⊎ In i missed)
      taken [] w k = absurd k
      taken (x ∷ events) w (inl same) = inr (inl (w (i, event) (inl cc)))
      taken (x ∷ events) w (inr k) = inl k

      first_read : (i == id) ≡ true → Within (first_of i ch.held) more
      first_read e p k = new p (rw e (In-append_left p (first_of i ch.held) _ k))

      one :
          ((i == id) ≡ true) ⊎ ((i == id) ≡ false)
          → Served event due more missed
              (i, if i == id then record ch { held = drop 1 ch.held } else ch)
      one (inl e) = rw e (read_it served)
        where
          read_it :
              Served event due received missed (i, ch)
              → Served event due more missed (i, record ch { held = drop 1 ch.held })
          read_it (inl d) = inl d
          read_it (inr (inl k)) = inr (taken ch.held (first_read e) k)
          read_it (inr (inr (inl k))) = inr (inr (inl (old (i, event) k)))
          read_it (inr (inr (inr k))) = inr (inr (inr k))
      one (inr e) = rw e (wider due received more missed missed old (λ p q. q) i ch served)

  without-All :
      (P : ℕ × Channel → Type 0) (id : ℕ) (subscribers : List (ℕ × Channel))
      → All P subscribers
      → All P (without id subscribers)
  unfolding without
  without-All P id [] h = tt
  without-All P id ((i, ch) ∷ subscribers) (k, h) =
      let rest = without-All P id subscribers h in
      if_both (All P) (i == id) _ _ (λ e. rest) (λ e. (k, rest))

  Served-noted :
      (new : ℕ) (due : List ℕ) (received : List (ℕ × Event)) (missed : List ℕ)
      (subscribers : List (ℕ × Channel))
      → All (Served event due received missed) subscribers
      → All (Served event (new ∷ due) received missed) subscribers
  Served-noted new due received missed [] h = tt
  Served-noted new due received missed ((i, ch) ∷ subscribers) (inl d, h) =
      (inl (inr d), Served-noted new due received missed subscribers h)
  Served-noted new due received missed ((i, ch) ∷ subscribers) (inr g, h) =
      (inr g, Served-noted new due received missed subscribers h)

joined :
    {event : Event} (o : Option Event)
    → o ≡ some event
    → (new : ℕ) (due : List ℕ) (received : List (ℕ × Event)) (missed : List ℕ) (ch : Channel)
      (subscribers : List (ℕ × Channel))
    → All (Served event due received missed) subscribers
    → All (Served event (noted o new due) received missed) ((new, ch) ∷ subscribers)
joined none e new due received missed ch subscribers h = cc
joined {event} (some seen) e new due received missed ch subscribers h =
    (inl (inl refl), Served-noted event new due received missed subscribers h)

abbrev pub AllServed : Event → Shared → Type 0
AllServed event r = All (Served event r.due r.received r.missed) r.hub.subscribers

-- Once the session is marked new subscriptions see the event, and once it is sent everyone is served.
abbrev pub Heard : Event → Phase → Shared → Type 0
Heard event before r = Unit
Heard event marked r = r.hub.started_event ≡ some event
Heard event sent r = (r.hub.started_event ≡ some event) × AllServed event r

module _ (event : Event) where
  onward :
      (phase : Phase) (r s : Shared)
      → s.hub.started_event ≡ r.hub.started_event
      → (r.hub.started_event ≡ some event → AllServed event r → AllServed event s)
      → Heard event phase r
      → Heard event phase s
  onward before r s same all h = tt
  onward marked r s same all h = same ∙ h
  onward sent r s same all (h, served) = (same ∙ h, all h served)

  Step-Heard : {r s : Shared} → Step event r s → Heard event r.phase r → Heard event s.phase s
  unfolding emit unsubscribe
  Step-Heard (mark r p) h = refl
  Step-Heard (send r p) h = (
    subst (λ k. Heard event k r) p h,
    Served-offer_all event r.due r.received _ r.hub.subscribers
        (λ i. In-append_left i (full_of r.hub.subscribers) r.missed),
  )
  Step-Heard (register r buffer) h =
      onward r.phase r (registered buffer r) refl
        (λ e.
          joined r.hub.started_event e r.hub.next r.due r.received r.missed
            (record { capacity = buffer; held = [] }) r.hub.subscribers)
        h
  Step-Heard (greet r id d) h =
      onward r.phase r _ refl
        (λ e.
          Served-forget event id r.due r.received r.missed _ r.hub.subscribers
            (λ i. In-append_right i (full_at id r.hub.subscribers) r.missed)
            (λ i. In-append_left i (full_at id r.hub.subscribers) r.missed))
        h
  Step-Heard (greet_error r id other) h =
      onward r.phase r _ refl
        (λ e. offer_to-Served event id other r.due r.received r.missed r.hub.subscribers) h
  Step-Heard (read r id) h =
      onward r.phase r _ refl
        (λ e.
          Served-take_from event id r.due r.received _ r.missed r.hub.subscribers
            (λ p. In-append_right p (read_of id r.hub.subscribers) r.received)
            (λ p. In-append_left p (read_of id r.hub.subscribers) r.received))
        h
  Step-Heard (leave r id) h =
      onward r.phase r _ refl
        (λ e. without-All event (Served event r.due r.received r.missed) id r.hub.subscribers) h
  Step-Heard (emit_other r other) h =
      onward r.phase r _ refl
        (λ e. offer_all-Served event other r.due r.received r.missed r.hub.subscribers) h

  follow : {r s : Shared} → Steps event r s → Heard event r.phase r → Heard event s.phase s
  follow here h = h
  follow (next steps step) h = Step-Heard step (follow steps h)

  -- From a session that has not started on, in every order of the steps of `Start`, of subscriptions, of readers, of
  -- subscribers that leave and of other events: once `Start` has sent its event, every subscriber holds it in its
  -- channel, or has read it, or is about to be sent it by its own subscription, or had a full channel when the event
  -- was sent to it.
  pub Steps-Heard :
      {r s : Shared} → Steps event r s → r.phase ≡ before → s.phase ≡ sent → AllServed event s
  Steps-Heard {r} {s} steps first last =
      (subst (λ k. Heard event k s) last
        (follow steps (subst (λ k. Heard event k r) (sym first) tt))).1
