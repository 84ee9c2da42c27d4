-- ===== src/Events/Store.antt =====
-- The store under its operations.
use native.Mathlib.Nat.{le_trans}
use pytest_salt_factories.Base.{
  ℕ, ap, ◌≤◌, ◌≡◌, refl, ◌∙◌, Bool, true, false, not, Option, none, some, List, [], ◌∷◌, Eq, arith,
  length, length-append, keep_if, remove_first, Bool-cases, inl, inr,
}
use pytest_salt_factories.Base.Text.{Text}
use pytest_salt_factories.Events.{
  Event, event_eq, expired, EventListener, Payload, push, max_events, make_event, call_handler,
  store_event, process_event_payload, remove_all, cleanup, register_auth_event_handler,
  unregister_auth_event_handler, clear,
}

module _ {V : Type 0} ⦃v : Eq V⦄ where
  remove_first-keeps_live :
      (now : ℕ) (e x : Event V) (xs : List (Event V))
      → expired now e ≡ true
      → expired now x ≡ false
      → remove_first e (x ∷ xs) ≡ x ∷ remove_first e xs
  unfolding remove_first
  remove_first-keeps_live now e x xs he hx = ground arith

  remove_all-live :
      (now : ℕ) (gone : List (Event V)) (x : Event V) (xs : List (Event V))
      → expired now x ≡ false
      → remove_all (keep_if (expired now) gone) (x ∷ xs)
        ≡ x ∷ remove_all (keep_if (expired now) gone) xs
  unfolding remove_all keep_if
  remove_all-live now [] x xs hx = refl
  remove_all-live now (e ∷ gone) x xs hx = elim (Bool-cases (expired now e)) [
    | inl old ↦ rw old (
        ap (λ l. remove_all (keep_if (expired now) gone) l)
          (remove_first-keeps_live now e x xs old hx)
        ∙ remove_all-live now gone x (remove_first e xs) hx)
    | inr live ↦ rw live (remove_all-live now gone x xs hx)
  ]

  remove_first_self : (x : Event V) (xs : List (Event V)) → remove_first x (x ∷ xs) ≡ xs
  unfolding remove_first
  remove_first_self x xs = ground arith

  -- The removal loop leaves exactly the events that have not expired, in their order.
  pub cleanup-eq-keep_if :
      (now : ℕ) (store : List (Event V))
      → cleanup now store ≡ keep_if (λ e. not (expired now e)) store
  unfolding cleanup keep_if remove_all
  cleanup-eq-keep_if now [] = refl
  cleanup-eq-keep_if now (x ∷ xs) = elim (Bool-cases (expired now x)) [
    | inl old ↦ rw old (
        ap (λ l. remove_all (keep_if (expired now) xs) l) (remove_first_self x xs)
        ∙ cleanup-eq-keep_if now xs)
    | inr live ↦
        rw live (remove_all-live now xs x xs live ∙ ap (λ l. x ∷ l) (cleanup-eq-keep_if now xs))
  ]

pub length-keep_if-le {ℓ} :
    {A : Type ℓ} (p : A → Bool) (xs : List A) → length (keep_if p xs) ≤ length xs
unfolding keep_if
length-keep_if-le p [] = omega arith
length-keep_if-le p (x ∷ xs) = ground (arith, length-keep_if-le p xs)

length-push-le {ℓ} :
    {A : Type ℓ} (n : ℕ) (xs : List A) (x : A) → length xs ≤ n → length (push n xs x) ≤ n
unfolding push
length-push-le n [] x h = ground arith
length-push-le n (y ∷ xs) x h = ground (arith, length-append xs (x ∷ []))

module _ {V H : Type 0} where
  pub call_handler-store :
      (l : EventListener V H) (e : Event V) → (call_handler l e).store ≡ l.store
  unfolding call_handler
  call_handler-store l e = ground arith

  store_event-le :
      (l : EventListener V H) (o : Option (Event V))
      → length l.store ≤ max_events
      → length (store_event l o).store ≤ max_events
  unfolding store_event
  store_event-le l none h = h
  store_event-le l (some e) h =
      rw (call_handler-store (record l { store = push max_events l.store e }) e)
        (length-push-le max_events l.store e h)

-- Everything that happens to a listener while it runs, at times that the environment chooses.
module _ {V H : Type 0} ⦃v : Eq V⦄ (convert_stamp : V → Option ℕ) where
  pub data Step (l : EventListener V H) : EventListener V H → Type 0 where
    receive : (p : Payload V) → Step l (process_event_payload convert_stamp l p)
    clean : (now : ℕ) → Step l (record l { store = cleanup now l.store })
    register : (m : Text) (h : H) → Step l (register_auth_event_handler m h l)
    unregister : (m : Text) → Step l (unregister_auth_event_handler m l)
    stop : Step l (clear l)

  pub data Reach (l : EventListener V H) : EventListener V H → Type 0 where
    here : Reach l l
    next : {m n : EventListener V H} → Reach l m → Step m n → Reach l n

  abbrev pub IsBounded : EventListener V H → Type 0
  IsBounded l = length l.store ≤ max_events

  Step-IsBounded : {l m : EventListener V H} → Step l m → IsBounded l → IsBounded m
  unfolding process_event_payload register_auth_event_handler unregister_auth_event_handler clear
  Step-IsBounded {l} (receive p) h = store_event-le l (make_event convert_stamp l.timeout p) h
  Step-IsBounded {l} (clean now) h =
      rw cleanup-eq-keep_if (le_trans (length-keep_if-le (λ e. not (expired now e)) l.store) h)
  Step-IsBounded (register m handler) h = h
  Step-IsBounded (unregister m) h = h
  Step-IsBounded stop h = omega arith

  -- From a listener that holds no more, whatever happens, the store never holds more than 10000 events.
  pub Reach-IsBounded : {l m : EventListener V H} → Reach l m → IsBounded l → IsBounded m
  Reach-IsBounded here h = h
  Reach-IsBounded (next r s) h = Step-IsBounded s (Reach-IsBounded r h)
