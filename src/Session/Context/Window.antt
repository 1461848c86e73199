-- ===== src/Session/Context/Window.antt =====
-- `AddChatTurn` of internal/session/context.go: the window on the conversation.
use krellin.Prelude.{
  ℕ, zero, suc, ◌+◌, ◌-◌, ◌≤◌, ◌≡◌, refl, sym, ap, ◌∙◌, inl, inr, List, [], ◌∷◌, ◌++◌, append-nil,
  append_assoc, arith, if◌then◌else◌, length, length-append, length-drop, drop, Bool-cases,
}
use krellin.Session.Context.{ChatTurn, Context, keep_last, is_blank, add_chat_turn, max_chat_turns}

drop-append {ℓ} :
    {A : Type ℓ} (n : ℕ) (xs ys : List A) → n ≤ length xs → drop n (xs ++ ys) ≡ drop n xs ++ ys
drop-append zero xs ys h = refl
drop-append (suc n) [] ys h = absurd (omega arith)
drop-append (suc n) (x ∷ xs) ys h = drop-append n xs ys (omega arith)

drop-drop {ℓ} : {A : Type ℓ} (m n : ℕ) (xs : List A) → drop m (drop n xs) ≡ drop (m + n) xs
drop-drop m zero xs = let e : m ≡ m + zero = omega arith in ap (λ k. drop k xs) e
drop-drop zero (suc n) [] = let e : suc n ≡ zero + suc n = omega arith in ap (λ k. drop k []) e
drop-drop (suc m) (suc n) [] =
    let e : suc (m + suc n) ≡ suc m + suc n = omega arith in ap (λ k. drop k []) e
drop-drop m (suc n) (x ∷ xs) =
    let e : suc (m + n) ≡ m + suc n = omega arith in drop-drop m n xs ∙ ap (λ k. drop k (x ∷ xs)) e

keep_last-append {ℓ} :
    {A : Type ℓ} (n : ℕ) (xs ys : List A)
    → keep_last n (keep_last n xs ++ ys) ≡ keep_last n (xs ++ ys)
unfolding keep_last
keep_last-append n xs ys =
    let kept = drop (length xs - n) xs in
    let cut = length (kept ++ ys) - n in
    ap (drop cut) (sym (drop-append (length xs - n) xs ys (omega arith)))
    ∙ drop-drop cut (length xs - n) (xs ++ ys)
    ∙ ap (λ k. drop k (xs ++ ys))
        (omega (arith, length-append kept ys, length-append xs ys, length-drop (length xs - n) xs))

-- The turns that `AddChatTurn` does not drop.
unfoldable pub spoken : List ChatTurn → List ChatTurn
spoken [] = []
spoken (turn ∷ turns) =
    let rest = spoken turns in if is_blank turn.content then rest else turn ∷ rest

unfoldable talk : List ChatTurn → Context → Context
talk [] c = c
talk (turn ∷ turns) c = talk turns (add_chat_turn turn c)

-- After any turns, a session that began with the last twelve turns of `before` holds the last twelve of
-- those and the new ones that are not blank, in their order.
talk-keep_last :
    (before turns : List ChatTurn) (c : Context)
    → c.chat_history ≡ keep_last max_chat_turns before
    → ((talk turns c).chat_history ≡ keep_last max_chat_turns (before ++ spoken turns))
      × ((talk turns c).tool_summaries ≡ c.tool_summaries)
unfolding talk spoken add_chat_turn
talk-keep_last before [] c h = (rw (append-nil before) h, refl)
talk-keep_last before (turn ∷ turns) c h = elim (Bool-cases (is_blank turn.content)) [
  | inl e ↦ simp (e, talk, add_chat_turn) (talk-keep_last before turns c h)
  | inr e ↦
      simp (e, talk, add_chat_turn, sym (append_assoc before (turn ∷ []) (spoken turns)))
        (talk-keep_last (before ++ turn ∷ []) turns
          (record c { chat_history = keep_last max_chat_turns (c.chat_history ++ turn ∷ []) })
          (rw h (keep_last-append max_chat_turns before (turn ∷ []))))
]
