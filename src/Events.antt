-- ===== src/Events.antt =====
-- The event listener of src/saltfactories/plugins/event_listener.py: its store of events, the
-- handling of one payload, the cleanup, and the queries. Times are microseconds since the epoch.
pub mod Fnmatch
pub mod Query
pub mod Wait
pub mod Store
pub mod Retained
mod Tests
use Prim.Native.Nat.{ℕ, ◌+◌, ◌*◌}
use mathlib.Core.Option
use native.Mathlib.Decide.{ℕ_discrete}
use pytest_salt_factories.Base.{
  Bool, true, false, not, ◌&&◌, Option, none, some, List, [], ◌∷◌, ◌++◌, Eq, ◌==◌, contains, length,
  leb, ltb, drop, if◌then◌else◌, keep_if, remove_first,
}
use pytest_salt_factories.Base.Text.{Text, codes, text_eq, starts_with}
use pytest_salt_factories.Base.Dict.{Dict, lookup, insert, erase}

abbrev pub second : ℕ
second = 1000000

-- `Event`, over the values `V` of a payload.
pub record Event (V : Type 0) : Type 0 where
  pub daemon_id : Text
  pub tag : Text
  pub stamp : ℕ
  pub data_ : Dict Text V
  pub full_data : Dict Text V
  pub expire_seconds : ℕ

-- `_expire_at`
abbrev pub expire_at : {V : Type 0} → Event V → ℕ
expire_at e = e.stamp + e.expire_seconds * second

-- `expired`, where `now` is what the clock shows.
unfoldable pub expired : {V : Type 0} → ℕ → Event V → Bool
expired now e = not (ltb now (expire_at e))

unfoldable pub event_discrete : {V : Type 0} → Discrete V → Discrete (Event V)
event_discrete d = hlevel (ℕ_discrete, d)

instance unfoldable pub event_eq : {V : Type 0} ⦃v : Eq V⦄ → Eq (Event V)
event_eq ⦃v⦄ = record { dec = event_discrete v.dec }

-- `deque(maxlen=…).append`: the oldest item goes when the deque is full.
unfoldable pub push {ℓ} : {A : Type ℓ} → ℕ → List A → A → List A
push maxlen xs x =
    if ltb maxlen (length (xs ++ (x ∷ []))) then drop 1 (xs ++ (x ∷ [])) else xs ++ (x ∷ [])

abbrev pub max_events : ℕ
max_events = 10000

-- `EventListener`. A handler is a name `H`; `calls` logs the calls that were made of handlers.
pub record EventListener (V H : Type 0) : Type 0 where
  pub timeout : ℕ
  pub store : List (Event V)
  pub auth_event_handlers : Dict Text H
  pub calls : List (H × Dict Text V)

-- What was decoded from the wire. A key that it lacks, or that has another type, is `none`.
pub record Payload (V : Type 0) : Type 0 where
  pub id : Option Text
  pub tag : Option Text
  pub data_ : Option (Dict Text V)

abbrev pub is_private : Text → Bool
is_private key = starts_with key (codes "_")

-- The loop that pops the private keys.
unfoldable pub pop_private {ℓ} : {V : Type ℓ} → Dict Text V → Dict Text V
pop_private [] = []
pop_private ((k, v) ∷ d) = let rest = pop_private d in if is_private k then rest else (k, v) ∷ rest

module _ {V : Type 0} (convert_stamp : V → Option ℕ) where
  -- The event of a payload. `none`: an exception, which the handler logs and drops.
  unfoldable pub make_event : ℕ → Payload V → Option (Event V)
  make_event timeout p = Option.bind p.id λ daemon_id. Option.bind p.tag λ tag.
      Option.bind p.data_ λ full_data. Option.bind (lookup (codes "_stamp") full_data) λ raw.
        Option.map
          (λ stamp. record {
            daemon_id = daemon_id;
            tag = tag;
            stamp = stamp;
            data_ = pop_private full_data;
            full_data = full_data;
            expire_seconds = timeout;
          })
          (convert_stamp raw)

module _ {V H : Type 0} where
  -- The call of the handler of an authentication event, whatever the handler raises.
  unfoldable pub call_handler : EventListener V H → Event V → EventListener V H
  call_handler l e =
      if e.tag == codes "salt/auth"
      then elim (lookup e.daemon_id l.auth_event_handlers) [
        | none ↦ l
        | some handler ↦ record l { calls = l.calls ++ ((handler, e.data_) ∷ []) }
      ]
      else l

  unfoldable pub store_event : EventListener V H → Option (Event V) → EventListener V H
  store_event l none = l
  store_event l (some e) = call_handler (record l { store = push max_events l.store e }) e

  -- `_process_event_payload`
  unfoldable pub process_event_payload :
      (V → Option ℕ) → EventListener V H → Payload V → EventListener V H
  process_event_payload convert_stamp l p = store_event l (make_event convert_stamp l.timeout p)

module _ {V : Type 0} ⦃v : Eq V⦄ where
  -- `for event in to_remove: self.store.remove(event)`
  unfoldable pub remove_all : List (Event V) → List (Event V) → List (Event V)
  remove_all [] store = store
  remove_all (e ∷ to_remove) store = remove_all to_remove (remove_first e store)

  -- One pass of `_cleanup` over the store, at one reading of the clock.
  unfoldable pub cleanup : ℕ → List (Event V) → List (Event V)
  cleanup now store = remove_all (keep_if (expired now) store) store

module _ {V H : Type 0} where
  unfoldable pub register_auth_event_handler : Text → H → EventListener V H → EventListener V H
  register_auth_event_handler master_id handler l = record l {
    auth_event_handlers = insert master_id handler l.auth_event_handlers;
  }

  unfoldable pub unregister_auth_event_handler : Text → EventListener V H → EventListener V H
  unregister_auth_event_handler master_id l = record l {
    auth_event_handlers = erase master_id l.auth_event_handlers;
  }

  -- What `stop` does to the state.
  unfoldable pub clear : EventListener V H → EventListener V H
  clear l = record l { store = []; auth_event_handlers = [] }
