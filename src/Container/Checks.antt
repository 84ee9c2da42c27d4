-- ===== src/Container/Checks.antt =====
-- `run_container_start_checks` and `_check_listening_ports` of `Container`.
use pytest_salt_factories.Base.{
  ◌≡◌, ◌⊎◌, inl, inr, Bool, true, false, not, ◌&&◌, List, [], ◌∷◌, Eq, arith, any, contains,
  contains-remove, remove, if◌then◌else◌, Bool-cases,
}
use pytest_salt_factories.Container.{StartChecks, passed, failed, factory_not_started}

-- What a loop does: it ends, or it still goes on.
pub data Checking : Type 0 where
  ended : StartChecks → Checking
  checking : Checking

-- A round of the loop over the callbacks: whether the time is over, whether the container runs, and
-- which callbacks return `True` then; one that raises an exception does not.
pub record CheckRound (C : Type 0) : Type 0 where
  pub late : Bool
  pub is_running : Bool
  pub confirms : C → Bool

-- The first callback runs, and is dropped if it returns `True`.
unfoldable pub pop_confirmed : {C : Type 0} → (C → Bool) → List C → List C
pop_confirmed confirms [] = []
pop_confirmed confirms (c ∷ cs) = if confirms c then cs else c ∷ cs

-- The tests of a round over what is still to check, and what follows a break.
unfoldable pub check_step : {C : Type 0} → Bool → Bool → List C → Checking → Checking
check_step true is_running [] rest = ended passed
check_step true is_running (c ∷ cs) rest = ended failed
check_step false false cs rest = ended factory_not_started
check_step false true [] rest = ended passed
check_step false true (c ∷ cs) rest = rest

unfoldable pub check_callbacks : {C : Type 0} → List (CheckRound C) → List C → Checking
check_callbacks [] cs = checking
check_callbacks (r ∷ rs) cs =
    check_step r.late r.is_running cs (check_callbacks rs (pop_confirmed r.confirms cs))

unfoldable pub run_container_start_checks : {C : Type 0} → List (CheckRound C) → List C → Checking
run_container_start_checks rs [] = ended passed
run_container_start_checks rs (c ∷ cs) = check_callbacks rs (c ∷ cs)

-- A round of the loop over the ports, with the ports that can be connected to.
pub record PortRound (P : Type 0) : Type 0 where
  pub late : Bool
  pub is_running : Bool
  pub connectable : List P

-- The tests of a round over the ports: here the `else` of the loop fails even with no port left.
unfoldable pub port_step : {P : Type 0} → Bool → Bool → List P → Checking → Checking
port_step true is_running ports rest = ended failed
port_step false false ports rest = ended factory_not_started
port_step false true [] rest = ended passed
port_step false true (p ∷ ports) rest = rest

module _ {P : Type 0} ⦃e : Eq P⦄ where
  -- `check_ports -= …`
  unfoldable pub remove_ports : List P → List P → List P
  remove_ports [] ports = ports
  remove_ports (p ∷ connectable) ports = remove_ports connectable (remove p ports)

  unfoldable pub check_ports_loop : List (PortRound P) → List P → Checking
  check_ports_loop [] ports = checking
  check_ports_loop (r ∷ rs) ports =
      port_step r.late r.is_running ports (check_ports_loop rs (remove_ports r.connectable ports))

  -- `_check_listening_ports`, over the host ports of `get_check_ports`
  unfoldable pub check_listening_ports : List (PortRound P) → List P → Checking
  check_listening_ports rs [] = ended passed
  check_listening_ports rs (p ∷ ports) = check_ports_loop rs (p ∷ ports)

  contains-remove_ports :
      (connectable ports : List P) (p : P)
      → contains (remove_ports connectable ports) p
        ≡ (contains ports p && not (contains connectable p))
  unfolding remove_ports contains
  contains-remove_ports [] ports p = ground arith
  contains-remove_ports (q ∷ connectable) ports p =
      ground
        (arith, contains-remove_ports connectable (remove q ports) p, contains-remove q p ports)

  port_step-passed :
      (late is_running : Bool) (ports : List P) (p : P) (rest : Checking)
      → port_step late is_running ports rest ≡ ended passed
      → contains ports p ≡ true
      → rest ≡ ended passed
  unfolding port_step contains
  port_step-passed true is_running ports p rest h k = cc
  port_step-passed false false ports p rest h k = cc
  port_step-passed false true [] p rest h k = cc
  port_step-passed false true (q ∷ ports) p rest h k = h

  check_ports_loop-passed :
      (rs : List (PortRound P)) (ports : List P) (p : P)
      → check_ports_loop rs ports ≡ ended passed
      → contains ports p ≡ true
      → any (λ r. contains r.connectable p) rs ≡ true
  unfolding check_ports_loop any
  check_ports_loop-passed [] ports p h k = cc
  check_ports_loop-passed (r ∷ rs) ports p h k =
      let left = remove_ports r.connectable ports in
      let next = port_step-passed r.late r.is_running ports p (check_ports_loop rs left) h k in
      elim (Bool-cases (contains r.connectable p)) [
        | inl here ↦ ground (arith, here)
        | inr away ↦ ground (
          arith,
          check_ports_loop-passed rs left p next
              (ground (arith, contains-remove_ports r.connectable ports p, k, away)),
        )
      ]

  -- The check of the ports passes only if each of them could be connected to at some round.
  pub check_listening_ports-passed :
      (rs : List (PortRound P)) (ports : List P) (p : P)
      → check_listening_ports rs ports ≡ ended passed
      → contains ports p ≡ true
      → any (λ r. contains r.connectable p) rs ≡ true
  unfolding check_listening_ports contains
  check_listening_ports-passed rs [] p h k = cc
  check_listening_ports-passed rs (q ∷ ports) p h k = check_ports_loop-passed rs (q ∷ ports) p h k

module _ {C : Type 0} where
  -- There are rounds, one after the other, at which the callbacks return `True` in their order.
  abbrev pub Confirmed : List (CheckRound C) → List C → Type 0
  Confirmed rs [] = Unit {0}
  Confirmed [] (c ∷ cs) = ⊥
  Confirmed (r ∷ rs) (c ∷ cs) = ((r.confirms c ≡ true) × Confirmed rs cs) ⊎ Confirmed rs (c ∷ cs)

  Confirmed-none : (rs : List (CheckRound C)) → Confirmed rs []
  Confirmed-none [] = tt
  Confirmed-none (r ∷ rs) = tt

  check_step-passed :
      (late is_running : Bool) (c : C) (cs : List C) (rest : Checking)
      → check_step late is_running (c ∷ cs) rest ≡ ended passed
      → rest ≡ ended passed
  unfolding check_step
  check_step-passed true is_running c cs rest h = cc
  check_step-passed false false c cs rest h = cc
  check_step-passed false true c cs rest h = h

  check_callbacks-Confirmed :
      (rs : List (CheckRound C)) (cs : List C)
      → check_callbacks rs cs ≡ ended passed
      → Confirmed rs cs
  unfolding check_callbacks pop_confirmed
  check_callbacks-Confirmed [] [] h = tt
  check_callbacks-Confirmed [] (c ∷ cs) h = cc
  check_callbacks-Confirmed (r ∷ rs) [] h = tt
  check_callbacks-Confirmed (r ∷ rs) (c ∷ cs) h =
      let next =
        check_step-passed r.late r.is_running c cs
          (check_callbacks rs (pop_confirmed r.confirms (c ∷ cs))) h in
      elim (Bool-cases (r.confirms c)) [
        | inl here ↦ inl (here, check_callbacks-Confirmed rs cs (rw here at next))
        | inr away ↦ inr (check_callbacks-Confirmed rs (c ∷ cs) (rw away at next))
      ]

  -- The start checks pass only if every callback returned `True`, one after the other, in the order
  -- in which they were registered.
  pub run_container_start_checks-Confirmed :
      (rs : List (CheckRound C)) (cs : List C)
      → run_container_start_checks rs cs ≡ ended passed
      → Confirmed rs cs
  unfolding run_container_start_checks
  run_container_start_checks-Confirmed rs [] h = Confirmed-none rs
  run_container_start_checks-Confirmed rs (c ∷ cs) h = check_callbacks-Confirmed rs (c ∷ cs) h
