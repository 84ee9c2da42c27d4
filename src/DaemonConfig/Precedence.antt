-- ===== src/DaemonConfig/Precedence.antt =====
-- That a minion fits its master.
use pytest_salt_factories.Base.{
  ℕ, suc, ◌≡◌, refl, sym, ◌∙◌, ap, subst, inl, inr, Option-cases, Bool, true, false, Option, none,
  some, [], ◌∷◌, ◌++◌, ◌==◌, ==_refl, nat_eq, arith,
}
use pytest_salt_factories.Base.Text.{Text, codes, text_eq, text_methods}
use pytest_salt_factories.DaemonConfig.{
  Setting, str, num, Settings, empty, entry, settings, get, set_default, is_plain, UpdateLaws,
  override, merge_config, or_empty, MasterOf, id_of, match_transport, pytest_table,
}
use pytest_salt_factories.DaemonConfig.Minion.{
  MinionPorts, port_or, master_port_or, minion_ports, event_of, table_events, events_of,
  minion_check_events,
}

get-set_default :
    (k : Text) (v : Setting) (s : Settings) → get k s ≡ none → get k (set_default k v s) ≡ some v
unfolding get set_default
get-set_default k v s lacks = ground (arith, lacks, ==_refl k)

get-match_transport :
    (k : Text) (m : Option MasterOf) (s : Settings)
    → (k == codes "transport") ≡ false
    → get k (match_transport m s) ≡ get k s
unfolding get set_default match_transport
get-match_transport k none s other = refl
get-match_transport k (some m) s other = elim (Option-cases (get (codes "transport") s)) [
  | inl lacks ↦ ground (arith, lacks, other)
  | inr (v, has) ↦ ground (arith, has)
]

event_of-named :
    (role id x : Text) (c : ℕ) (t : Text)
    → x ≡ c ∷ t
    → event_of role id (some (str x))
      ≡ (x, codes "salt/" ++ (role ++ (codes "/" ++ (id ++ codes "/start")))) ∷ []
unfolding event_of
event_of-named role id x c t named =
    subst
      (λ y.
        event_of role id (some (str y))
        ≡ (y, codes "salt/" ++ (role ++ (codes "/" ++ (id ++ codes "/start")))) ∷ [])
      (sym named) refl

master_port-minion_ports :
    (service : Bool) (default_opts : MinionPorts) (unused : ℕ → ℕ) (m : MasterOf) (n : ℕ)
    → m.ret_port ≡ suc n
    → (minion_ports service default_opts unused (some m)).master_port ≡ m.ret_port
unfolding minion_ports master_port_or port_or
master_port-minion_ports true default_opts unused m n port =
    subst (λ p. port_or p default_opts.master_port ≡ p) (sym port) refl
master_port-minion_ports false default_opts unused m n port =
    subst (λ p. port_or p (unused 0) ≡ p) (sym port) refl

-- What salt loads of a minion's configuration: the role `minion`, and the same id and table
-- `pytest-minion`.
abbrev pub IsLoaded : Settings → Settings → Type 0
IsLoaded config loaded =
    (get (codes "__role") loaded ≡ some (str (codes "minion")))
    × (get (codes "id") loaded ≡ get (codes "id") config)
    × (get (codes "pytest-minion") loaded ≡ get (codes "pytest-minion") config)

check_events-loaded :
    (config loaded : Settings) (id : Text)
    → IsLoaded config loaded
    → get (codes "id") config ≡ some (str id)
    → minion_check_events loaded
      ≡ table_events (codes "minion") id (get (codes "pytest-minion") config)
unfolding minion_check_events events_of text_methods
check_events-loaded config loaded id (role, same_id, same_table) named =
    ap (λ r. events_of r (get (codes "id") loaded) loaded) role
    ∙ ap (λ i. events_of (some (str (codes "minion"))) i loaded) (same_id ∙ named)
    ∙ ap (table_events (codes "minion") id) same_table

module _ (update : Settings → Settings → Settings) (laws : UpdateLaws update) where
  pub get-override :
      (k : Text) (o : Option Settings) (s : Settings)
      → get k (or_empty o) ≡ none
      → get k (override update o s) ≡ get k s
  unfolding override or_empty
  get-override k none s lacks = refl
  get-override k (some empty) s lacks = refl
  get-override k (some (entry j v overrides)) s lacks = laws.kept k s (entry j v overrides) lacks

  check_events-pytest_table :
      (role id prefix : Text) (m : MasterOf) (c : ℕ) (t : Text)
      → m.id ≡ c ∷ t
      → table_events role id (some (pytest_table (some m) prefix))
        ≡ some ((m.id, codes "salt/" ++ (role ++ (codes "/" ++ (id ++ codes "/start")))) ∷ [])
  unfolding table_events pytest_table settings get id_of text_methods
  check_events-pytest_table role id prefix m c t named =
      ap (λ es. some es) (event_of-named role id m.id c t named)

  -- What a configuration has of its master, where the caller leaves that to the internal defaults.
  pub config-master :
      (id prefix : Text) (defaults overrides : Option Settings) (m : MasterOf) (service : Bool)
      (default_opts : MinionPorts) (unused : ℕ → ℕ) (internal loaded : Settings) (n c : ℕ)
      (t : Text)
      → m.ret_port ≡ suc n
      → m.id ≡ c ∷ t
      → get (codes "transport") (or_empty defaults) ≡ none
      → get (codes "pytest-minion") (or_empty defaults) ≡ none
      → get (codes "id") (or_empty overrides) ≡ none
      → get (codes "transport") (or_empty overrides) ≡ none
      → get (codes "master_port") (or_empty overrides) ≡ none
      → get (codes "pytest-minion") (or_empty overrides) ≡ none
      → get (codes "id") internal ≡ some (str id)
      → get (codes "master_port") internal
        ≡ some (num (minion_ports service default_opts unused (some m)).master_port)
      → get (codes "transport") internal ≡ none
      → get (codes "pytest-minion") internal ≡ some (pytest_table (some m) prefix)
      → IsLoaded
          (merge_config update (match_transport (some m) (or_empty defaults)) internal overrides)
          loaded
      → (get
            (codes "master_port")
            (merge_config update (match_transport (some m) (or_empty defaults)) internal overrides)
          ≡ some (num m.ret_port))
        × (get (codes "transport") (
              merge_config update (match_transport (some m) (or_empty defaults)) internal overrides)
            ≡ some m.transport)
        × (minion_check_events loaded
            ≡ some ((m.id, codes "salt/minion/" ++ (id ++ codes "/start")) ∷ []))
  unfolding merge_config is_plain match_transport text_methods
  config-master id prefix defaults overrides m service default_opts unused internal loaded n c t
        port named no_transport no_table o_id o_transport o_port o_table i_id i_port i_transport
        i_table is_loaded =
      let given = match_transport (some m) (or_empty defaults) in
      let config = merge_config update given internal overrides in
      (
        get-override (codes "master_port") overrides (update given internal) o_port
            ∙ laws.replaced (codes "master_port") given internal
                (num (minion_ports service default_opts unused (some m)).master_port) i_port refl
            ∙ ap (λ p. some (num p))
                (master_port-minion_ports service default_opts unused m n port),
        get-override (codes "transport") overrides (update given internal) o_transport
            ∙ laws.kept (codes "transport") given internal i_transport
            ∙ get-set_default (codes "transport") m.transport (or_empty defaults) no_transport,
        check_events-loaded config loaded id is_loaded (
              get-override (codes "id") overrides (update given internal) o_id
              ∙ laws.replaced (codes "id") given internal (str id) i_id refl)
            ∙ ap (table_events (codes "minion") id) (
                get-override (codes "pytest-minion") overrides (update given internal) o_table
                ∙ laws.added (codes "pytest-minion") given internal (pytest_table (some m) prefix)
                    (get-match_transport (codes "pytest-minion") (some m) (or_empty defaults) refl
                      ∙ no_table)
                    i_table)
            ∙ check_events-pytest_table (codes "minion") id prefix m c t named,
      )
