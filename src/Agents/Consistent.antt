-- ===== src/Agents/Consistent.antt =====
-- The selection and the list of providers: the handlers of internal/session/handler.go, and
-- `resolveActiveProvider`.
use krellin.Prelude.{◌≡◌, refl, ◌⊎◌, inl, inr, true, false, some, arith, Bool-cases, Option-cases}
use krellin.Prelude.Text.{Text, text_eq, text_eq_iff, is_empty}
use krellin.Prelude.Result.{ok}
use krellin.Agents.{
  Provider, Stores, World, Listing, find_name, find_enabled, remove_name, load_agents,
}
use krellin.Agents.Handlers.{
  set_active_agent, delete_agent, resolve_active_provider, Request, set_active, toggle, add, delete,
  serve,
}
use krellin.Agents.Store.{find-enable_first, find-remove_name, find-name, find_enabled-remove_name}
use krellin.Agents.Sound.{
  consistent, Steady, disables, Sound, set_active-Sound, toggle-Sound, delete-Sound, add-Sound,
}

-- After a successful selection an agent's prompts go to the stored provider of that name, enabled.
set_active-resolve :
    (w : World) (name : Text) (s : Stores) (listing : Listing)
    → (set_active_agent w name s).0 ≡ ok listing
    → (p : Provider) × (resolve_active_provider w (set_active_agent w name s).1 ≡ ok p)
      × (p.name ≡ name)
      × (p.enabled ≡ true)
unfolding set_active_agent load_agents resolve_active_provider
set_active-resolve w name s listing h = elim (Option-cases (find_name name s.providers)) [
  | inl e ↦ absurd (ground arith)
  | inr (p, e) ↦ (
    record p { enabled = true },
    ground (arith, find-enable_first name name true s.providers, text_eq_iff name name),
    find-name name p s.providers e,
    refl,
  )
]

-- Every request, on success and on every error, keeps the selected provider stored and enabled, where the
-- selection can be read and written and the list can be read, unless an `add` replaces
-- the selected provider by a disabled one.
pub serve-consistent :
    (w : World) (r : Request) (s : Stores)
    → Steady w
    → disables r s ≡ false
    → consistent s.providers s.active ≡ true
    → Sound (serve w r s)
unfolding serve
serve-consistent w (set_active name) s ok_w d h = set_active-Sound w name s ok_w.selection_saves h
serve-consistent w (toggle name on) s ok_w d h =
    toggle-Sound w name on s ok_w.selection_loads ok_w.selection_saves h
serve-consistent w (add p) s ok_w d h = add-Sound w p s ok_w.loads d h
serve-consistent w (delete name) s ok_w d h =
    delete-Sound w name s ok_w.selection_loads ok_w.selection_saves h

-- Where the selected provider is stored and enabled and the stores can be read, a prompt goes to it.
resolve-consistent :
    (w : World) (s : Stores)
    → w.configured ≡ true
    → Steady w
    → consistent s.providers s.active ≡ true
    → is_empty s.active ≡ false
    → (p : Provider) × (resolve_active_provider w s ≡ ok p)
      × (p.name ≡ s.active)
      × (p.enabled ≡ true)
unfolding resolve_active_provider
resolve-consistent w s c ok_w h a = elim (Option-cases (find_name s.active s.providers)) [
  | inl e ↦ absurd (ground arith)
  | inr (p, e) ↦ (
    p,
    ground (arith, ok_w.loads, ok_w.selection_loads),
    find-name s.active p s.providers e,
    ground arith,
  )
]

delete-providers :
    (w : World) (name : Text) (s : Stores) (listing : Listing)
    → (delete_agent w name s).0 ≡ ok listing
    → (delete_agent w name s).1.providers ≡ remove_name name s.providers
unfolding delete_agent
delete-providers w name s listing h = ground arith

resolve-found :
    (w : World) (s : Stores) (p : Provider)
    → resolve_active_provider w s ≡ ok p
    → (find_enabled s.providers ≡ some p) ⊎ (find_name p.name s.providers ≡ some p)
unfolding resolve_active_provider
resolve-found w s p h = elim (Bool-cases (is_empty s.active)) [
  | inl e ↦ inl (ground arith)
  | inr e ↦ elim (Option-cases (find_name s.active s.providers)) [
    | inl f ↦ absurd (ground arith)
    | inr (q, f) ↦ inr (ground (arith, find-name s.active q s.providers f))
  ]
]

-- After a successful deletion no prompt goes to a provider of that name.
delete-resolve :
    (w : World) (name : Text) (s : Stores) (listing : Listing) (p : Provider)
    → (delete_agent w name s).0 ≡ ok listing
    → resolve_active_provider w (delete_agent w name s).1 ≡ ok p
    → text_eq p.name name ≡ false
delete-resolve w name s listing p h r = elim (resolve-found w (delete_agent w name s).1 p r) [
  | inl e ↦
      find_enabled-remove_name name p s.providers (rw⁻¹ (delete-providers w name s listing h) e)
  | inr e ↦
      ground (arith, delete-providers w name s listing h, find-remove_name p.name name s.providers)
]
