-- ===== src/Container/Salt.antt =====
-- `SaltDaemon` of src/saltfactories/daemons/container.py, a daemon of salt in a container: what it does
-- to its two parts. The daemon's part, of pytest-shell-utilities, is a parameter: a state, how a callback is
-- registered with it, whether it runs, and its `terminate`. Docker has the container that is asked for.
use pytest_salt_factories.Base.{
  ◌≡◌, refl, sym, ◌∙◌, ap, Bool, true, false, ◌&&◌, ◌||◌, some, List, [], ◌∷◌, ◌++◌, append_assoc,
  append-nil, arith, if◌then◌else◌,
}
use pytest_salt_factories.Base.Text.{Text, codes, text_eq}
use pytest_salt_factories.Base.Dict.{insert, update}
use pytest_salt_factories.Base.Int.{ℤ, int_eq}
use pytest_salt_factories.Cli.{Value, Result, ok, err}
use pytest_salt_factories.Daemon.{as_values}
use pytest_salt_factories.Container.{
  Container, terminate, end_container, remove_found, run_callbacks, record_call,
}
use pytest_salt_factories.Container.Ports.{PortMap}

pub data Hook : Type 0 where
  before_start after_start before_terminate after_terminate : Hook

pub record SaltContainer (C D : Type 0) : Type 0 where
  pub container : Container C
  pub daemon : D
  pub daemon_started : Bool
  pub daemon_starting : Bool
  pub in_container_post_init : Bool

-- `Container.before_start`, and the three others.
unfoldable pub register_callback : {C : Type 0} → Hook → C → Container C → Container C
register_callback before_start c s = record s {
  before_start_callbacks = s.before_start_callbacks ++ (c ∷ []);
}
register_callback after_start c s = record s {
  after_start_callbacks = s.after_start_callbacks ++ (c ∷ []);
}
register_callback before_terminate c s = record s {
  before_terminate_callbacks = s.before_terminate_callbacks ++ (c ∷ []);
}
register_callback after_terminate c s = record s {
  after_terminate_callbacks = s.after_terminate_callbacks ++ (c ∷ []);
}

-- `Container.is_running`; `is_up` tells if the status is `running`.
unfoldable pub is_container_running : {C : Type 0} → Bool → Container C → Bool
is_container_running is_up s = s.container && is_up

-- `{port: port for port in …}`
unfoldable pub same_ports : List ℤ → PortMap → PortMap
same_ports [] ports = ports
same_ports (p ∷ ps) ports = same_ports ps (insert p (some p) ports)

-- `get_check_ports`, of the ports of the daemon and of those of the container.
unfoldable pub salt_check_ports : List ℤ → PortMap → PortMap
salt_check_ports daemon_ports container_ports = update (same_ports daemon_ports []) container_ports

-- `cmdline`, around that of the daemon.
unfoldable pub exec_cmdline :
    {V : Type 0} → Text → Result (List (Value V)) → Result (List (Value V))
exec_cmdline name (ok line) =
    ok (as_values (codes "docker" ∷ codes "exec" ∷ codes "-i" ∷ name ∷ []) ++ line)
exec_cmdline name (err e) = err e

module _ {C D : Type 0} (daemon_register : Hook → C → D → D) (is_daemon_running : D → Bool)
    (daemon_terminate : D → D) where
  -- `before_start`, and the three others.
  unfoldable pub register : Hook → C → Bool → SaltContainer C D → SaltContainer C D
  register hook c on_container s =
      if s.in_container_post_init || on_container
      then record s { container = register_callback hook c s.container }
      else record s { daemon = daemon_register hook c s.daemon }

  -- `terminate`; `found` tells if docker has a container of the name.
  unfoldable pub terminate_both : Bool → SaltContainer C D → SaltContainer C D
  terminate_both found s = record s {
    daemon_started = false;
    daemon_starting = false;
    daemon = daemon_terminate s.daemon;
    container = terminate found s.container;
  }

  unfoldable pub is_running : Bool → SaltContainer C D → Bool
  is_running is_up s =
      let running = is_container_running is_up s.container in
      if running
      then (if s.daemon_starting || s.daemon_started then is_daemon_running s.daemon else running)
      else false

abbrev pub callbacks_of : {C : Type 0} → Hook → Container C → List C
callbacks_of before_start s = s.before_start_callbacks
callbacks_of after_start s = s.after_start_callbacks
callbacks_of before_terminate s = s.before_terminate_callbacks
callbacks_of after_terminate s = s.after_terminate_callbacks

abbrev pub one_of : {C : Type 0} → Hook → Hook → C → List C
one_of before_start before_start c = c ∷ []
one_of after_start after_start c = c ∷ []
one_of before_terminate before_terminate c = c ∷ []
one_of after_terminate after_terminate c = c ∷ []
one_of _ _ c = []

callbacks_of-register_callback :
    {C : Type 0} (h k : Hook) (c : C) (s : Container C)
    → callbacks_of h (register_callback k c s) ≡ callbacks_of h s ++ one_of h k c
unfolding register_callback
callbacks_of-register_callback before_start before_start c s = refl
callbacks_of-register_callback before_start after_start c s =
    sym (append-nil s.before_start_callbacks)
callbacks_of-register_callback before_start before_terminate c s =
    sym (append-nil s.before_start_callbacks)
callbacks_of-register_callback before_start after_terminate c s =
    sym (append-nil s.before_start_callbacks)
callbacks_of-register_callback after_start before_start c s =
    sym (append-nil s.after_start_callbacks)
callbacks_of-register_callback after_start after_start c s = refl
callbacks_of-register_callback after_start before_terminate c s =
    sym (append-nil s.after_start_callbacks)
callbacks_of-register_callback after_start after_terminate c s =
    sym (append-nil s.after_start_callbacks)
callbacks_of-register_callback before_terminate before_start c s =
    sym (append-nil s.before_terminate_callbacks)
callbacks_of-register_callback before_terminate after_start c s =
    sym (append-nil s.before_terminate_callbacks)
callbacks_of-register_callback before_terminate before_terminate c s = refl
callbacks_of-register_callback before_terminate after_terminate c s =
    sym (append-nil s.before_terminate_callbacks)
callbacks_of-register_callback after_terminate before_start c s =
    sym (append-nil s.after_terminate_callbacks)
callbacks_of-register_callback after_terminate after_start c s =
    sym (append-nil s.after_terminate_callbacks)
callbacks_of-register_callback after_terminate before_terminate c s =
    sym (append-nil s.after_terminate_callbacks)
callbacks_of-register_callback after_terminate after_terminate c s = refl

module _ {C D : Type 0} (daemon_register : Hook → C → D → D) (is_daemon_running : D → Bool)
    (daemon_terminate : D → D) where
  -- The registrations of a test, with their `on_container`.
  abbrev pub register_all : List (Hook × C × Bool) → SaltContainer C D → SaltContainer C D
  register_all [] s = s
  register_all ((hook, c, on_container) ∷ rs) s =
      register_all rs
        (register daemon_register is_daemon_running daemon_terminate hook c on_container s)

  abbrev pub for_container : Hook → List (Hook × C × Bool) → List C
  for_container h [] = []
  for_container h ((hook, c, true) ∷ rs) = one_of h hook c ++ for_container h rs
  for_container h ((hook, c, false) ∷ rs) = for_container h rs

  abbrev pub for_daemon : List (Hook × C × Bool) → D → D
  for_daemon [] d = d
  for_daemon ((hook, c, true) ∷ rs) d = for_daemon rs d
  for_daemon ((hook, c, false) ∷ rs) d = for_daemon rs (daemon_register hook c d)

  -- Outside the initialisation, a callback is registered with exactly one of the two, with the container if
  -- that is asked for and else with the daemon, and each of them gets its callbacks in their order.
  pub callbacks_of-register_all :
      (h : Hook) (rs : List (Hook × C × Bool)) (s : SaltContainer C D)
      → s.in_container_post_init ≡ false
      → (callbacks_of h (register_all rs s).container
          ≡ callbacks_of h s.container ++ for_container h rs)
        × ((register_all rs s).daemon ≡ for_daemon rs s.daemon)
  unfolding register
  callbacks_of-register_all h [] s outside = (sym (append-nil (callbacks_of h s.container)), refl)
  callbacks_of-register_all h ((hook, c, true) ∷ rs) s outside =
      let contained : SaltContainer C D = record s {
        container = register_callback hook c s.container;
      } in
      let served : SaltContainer C D = record s { daemon = daemon_register hook c s.daemon } in
      let step = ap (λ b. if b || true then contained else served) outside in
      let rest = callbacks_of-register_all h rs contained outside in
      (
        ap (λ t. callbacks_of h (register_all rs t).container) step
            ∙ rest.0
            ∙ ap (λ l. l ++ for_container h rs)
                (callbacks_of-register_callback h hook c s.container)
            ∙ append_assoc (callbacks_of h s.container) (one_of h hook c) (for_container h rs),
        ap (λ t. (register_all rs t).daemon) step ∙ rest.1,
      )
  callbacks_of-register_all h ((hook, c, false) ∷ rs) s outside =
      let contained : SaltContainer C D = record s {
        container = register_callback hook c s.container;
      } in
      let served : SaltContainer C D = record s { daemon = daemon_register hook c s.daemon } in
      let step = ap (λ b. if b || false then contained else served) outside in
      let rest = callbacks_of-register_all h rs served outside in
      (
        ap (λ t. callbacks_of h (register_all rs t).container) step ∙ rest.0,
        ap (λ t. (register_all rs t).daemon) step ∙ rest.1,
      )

  -- After `terminate` the daemon does not run, whatever docker says, unless an earlier `terminate` has left its
  -- result behind.
  pub is_running-terminate_both :
      (is_up found : Bool) (s : SaltContainer C D)
      → s.container.terminate_result ≡ false
      → is_running daemon_register is_daemon_running daemon_terminate is_up
          (terminate_both daemon_register is_daemon_running daemon_terminate found s)
        ≡ false
  unfolding is_running terminate_both is_container_running terminate end_container remove_found
      run_callbacks record_call
  is_running-terminate_both is_up found s fresh = ground (arith, fresh)
