-- ===== src/Events/Retained.antt =====
-- How long the listener keeps an event that it received.
use pytest_salt_factories.Base.{
  ℕ, suc, ap, subst, ◌≤◌, ◌<◌, ◌≡◌, refl, sym, ◌∙◌, Bool, true, not, Option, none, some, List, [],
  ◌∷◌, ◌++◌, append_assoc, Eq, arith, length, length-append, keep_if, ltb, Bool-cases, inl, inr,
}
use pytest_salt_factories.Base.Text.{Text}
use pytest_salt_factories.Events.{
  Event, expire_at, expired, EventListener, Payload, push, max_events, make_event, store_event,
  process_event_payload, cleanup, register_auth_event_handler, unregister_auth_event_handler,
}
use pytest_salt_factories.Events.Store.{cleanup-eq-keep_if, length-keep_if-le, call_handler-store}

module _ {A : Type 0} where
  -- An item of a list, with at most `k` items after it.
  abbrev pub Follows : ℕ → A → List A → Type 0
  Follows k a xs = (before after : List A) × (xs ≡ before ++ (a ∷ after)) × (length after ≤ k)

  keep_if-append :
      (p : A → Bool) (xs ys : List A) → keep_if p (xs ++ ys) ≡ keep_if p xs ++ keep_if p ys
  unfolding keep_if
  keep_if-append p [] ys = refl
  keep_if-append p (x ∷ xs) ys = ground (arith, keep_if-append p xs ys)

  keep_if-head :
      (p : A → Bool) (a : A) (xs : List A) → p a ≡ true → keep_if p (a ∷ xs) ≡ a ∷ keep_if p xs
  unfolding keep_if
  keep_if-head p a xs kept = ground (arith, kept)

  Follows-keep_if :
      (p : A → Bool) (k : ℕ) (a : A) (xs : List A)
      → p a ≡ true
      → Follows k a xs
      → Follows k a (keep_if p xs)
  Follows-keep_if p k a xs kept (before, after, same, few) = (
    keep_if p before,
    keep_if p after,
    ap (keep_if p) same
        ∙ keep_if-append p before (a ∷ after)
        ∙ ap (λ ys. keep_if p before ++ ys) (keep_if-head p a after kept),
    omega (arith, few, length-keep_if-le p after),
  )

  -- The new item of a full deque takes the place of the first.
  push-last : (n : ℕ) (a : A) (xs : List A) → 0 < n → Follows 0 a (push n xs a)
  unfolding push
  push-last n a [] some_room = ([], [], ground (arith, some_room), omega arith)
  push-last n a (x ∷ xs) some_room = elim (Bool-cases (ltb n (length ((x ∷ xs) ++ (a ∷ []))))) [
    | inl full ↦ (xs, [], ground (arith, full), omega arith)
    | inr room ↦ (x ∷ xs, [], ground (arith, room), omega arith)
  ]

  push-Follows :
      (n k : ℕ) (a b : A) (before after : List A)
      → length after ≤ k
      → suc k < n
      → Follows (suc k) a (push n (before ++ (a ∷ after)) b)
  unfolding push
  push-Follows n k a b [] after few room = (
    [],
    after ++ (b ∷ []),
    ground (arith, few, room, length-append after (b ∷ [])),
    omega (arith, few, length-append after (b ∷ [])),
  )
  push-Follows n k a b (x ∷ before) after few room =
      let same = append_assoc before (a ∷ after) (b ∷ []) in
      let short : length (after ++ (b ∷ [])) ≤ suc k =
        omega (arith, few, length-append after (b ∷ [])) in
      elim (Bool-cases (ltb n (length (((x ∷ before) ++ (a ∷ after)) ++ (b ∷ []))))) [
        | inl full ↦ (before, after ++ (b ∷ []), ground (arith, full, same), short)
        | inr free ↦ (x ∷ before, after ++ (b ∷ []), ground (arith, free, same), short)
      ]

  push-kept :
      (n k : ℕ) (a b : A) (xs : List A)
      → Follows k a xs
      → suc k < n
      → Follows (suc k) a (push n xs b)
  push-kept n k a b xs (before, after, same, few) room =
      subst (λ ys. Follows (suc k) a (push n ys b)) (sym same)
        (push-Follows n k a b before after few room)

not-expired : {V : Type 0} (now : ℕ) (e : Event V) → now < expire_at e → not (expired now e) ≡ true
unfolding expired
not-expired now e before = ground (arith, before)

module _ {V H : Type 0} ⦃v : Eq V⦄ (convert_stamp : V → Option ℕ) where
  -- What happens to a listener that is not stopped, where `e` has not expired at any pass of the
  -- cleanup; `k` payloads come in.
  pub data Run (e : Event V) (l : EventListener V H) : ℕ → EventListener V H → Type 0 where
    here : Run e l 0 l
    receive :
        {k : ℕ} {m : EventListener V H} (p : Payload V)
        → Run e l k m
        → Run e l (suc k) (process_event_payload convert_stamp m p)
    clean :
        {k : ℕ} {m : EventListener V H} (now : ℕ)
        → now < expire_at e
        → Run e l k m
        → Run e l k (record m { store = cleanup now m.store })
    register :
        {k : ℕ} {m : EventListener V H} (master : Text) (h : H)
        → Run e l k m
        → Run e l k (register_auth_event_handler master h m)
    unregister :
        {k : ℕ} {m : EventListener V H} (master : Text)
        → Run e l k m
        → Run e l k (unregister_auth_event_handler master m)

  store_event-kept :
      (k : ℕ) (e : Event V) (l : EventListener V H) (o : Option (Event V))
      → Follows k e l.store
      → suc k < 10000
      → Follows (suc k) e (store_event l o).store
  unfolding store_event
  store_event-kept k e l none (before, after, same, few) room =
      (before, after, same, omega (arith, few))
  store_event-kept k e l (some x) kept room =
      rw (call_handler-store (record l { store = push max_events l.store x }) x)
        (push-kept max_events k e x l.store kept room)

  Run-Follows :
      (e : Event V) (l : EventListener V H) {k : ℕ} {m : EventListener V H}
      → Run e l k m
      → Follows 0 e l.store
      → k < 10000
      → Follows k e m.store
  unfolding process_event_payload register_auth_event_handler unregister_auth_event_handler
  Run-Follows e l here kept room = kept
  Run-Follows e l (receive {k} {m} p r) kept room =
      store_event-kept k e m (make_event convert_stamp m.timeout p)
        (Run-Follows e l r kept (omega (arith, room))) room
  Run-Follows e l (clean {k} {m} now before r) kept room =
      subst (Follows k e) (sym (cleanup-eq-keep_if now m.store)) (
        Follows-keep_if (λ x. not (expired now x)) k e m.store (not-expired now e before)
          (Run-Follows e l r kept room))
  Run-Follows e l (register master h r) kept room = Run-Follows e l r kept room
  Run-Follows e l (unregister master r) kept room = Run-Follows e l r kept room

  -- A payload that makes an event: as long as the listener is not stopped, no pass of the cleanup comes after the
  -- event has expired, and fewer than 10000 payloads came in since, the event is still in the store, with at
  -- most as many events after it as payloads came in since; whatever else happens.
  pub Run-process_event_payload :
      (l : EventListener V H) (p : Payload V) (e : Event V) {k : ℕ} {m : EventListener V H}
      → make_event convert_stamp l.timeout p ≡ some e
      → Run e (process_event_payload convert_stamp l p) k m
      → k < 10000
      → Follows k e m.store
  unfolding process_event_payload store_event
  Run-process_event_payload l p e made r room =
      Run-Follows e (process_event_payload convert_stamp l p) r
        (subst (λ o. Follows 0 e (store_event l o).store) (sym made)
          (rw (call_handler-store (record l { store = push max_events l.store e }) e)
            (push-last max_events e l.store (omega arith))))
        room
