-- ===== src/Claimtxman/Manager/Updates.antt =====
-- How often the loop of `Start` of claimtxman/claimtxman.go updates deposits.
use xlayer_bridge_service.Base.{
  ℕ, zero, suc, ◌+◌, ◌≤◌, true, false, not, ◌&&◌, Option, none, some, List, [], ◌∷◌, if◌then◌else◌,
  ◌≡◌, refl, arith, if_cases, if_both,
}
use xlayer_bridge_service.Etherman.{GlobalExitRoot, bytes_eq, bytes_eq_refl}
use xlayer_bridge_service.Claimtxman.Manager.{ManagerConfig}
use xlayer_bridge_service.Claimtxman.Manager.Start.{
  Event, synced, exit_root, compressor_tick, tick, done, goroutine_runs, Action, update_deposits,
  monitor_claims, Manager, both_synced, on_exit_root, is_due, on_compressor_tick, run_goroutine,
  on_event, step, actions, at_start,
}

abbrev is_update : Action → ℕ
is_update (update_deposits ger) = 1
is_update monitor_claims = 0

-- How many of these actions are updates.
unfoldable pub updates : List Action → ℕ
updates [] = 0
updates (a ∷ as') = is_update a + updates as'

abbrev is_arrival : Event → ℕ
is_arrival (exit_root ger) = 1
is_arrival (synced n) = 0
is_arrival compressor_tick = 0
is_arrival tick = 0
is_arrival done = 0
is_arrival goroutine_runs = 0

-- How many of these events are arrivals of an exit root.
unfoldable pub arrivals : List Event → ℕ
arrivals [] = 0
arrivals (e ∷ es) = is_arrival e + arrivals es

-- The updates that may follow without another arrival: those started, and one for the groups.
unfoldable for_groups : ManagerConfig → Manager → ℕ
for_groups cfg s =
    if cfg.grouping_enabled && not (bytes_eq s.ger.global_exit_root s.latest_processed_ger)
    then 1
    else 0

abbrev acted : Option Action → ℕ
acted none = 0
acted (some a) = is_update a

-- An update that is done was open before, or an exit root arrived.
abbrev Pays : ManagerConfig → Manager → Event → Manager × Option Action → Type 0
Pays cfg s e (s', act) =
    s'.started + for_groups cfg s' + acted act ≤ s.started + for_groups cfg s + is_arrival e

for_groups_le : (cfg : ManagerConfig) (s : Manager) → for_groups cfg s ≤ 1
unfolding for_groups
for_groups_le cfg s =
    if_both (λ (n : ℕ). n ≤ 1)
      (cfg.grouping_enabled && not (bytes_eq s.ger.global_exit_root s.latest_processed_ger))
      (omega arith) (omega arith)

no_groups :
    (cfg : ManagerConfig) (s : Manager) → cfg.grouping_enabled ≡ false → for_groups cfg s ≡ 0
unfolding for_groups
no_groups cfg s off = rw off refl

is_due-for_groups : (cfg : ManagerConfig) (s : Manager) → is_due cfg s ≡ true → for_groups cfg s ≡ 1
unfolding is_due for_groups
is_due-for_groups cfg s due =
    let new : (cfg.grouping_enabled && not (bytes_eq s.ger.global_exit_root s.latest_processed_ger))
        ≡ true =
      grind (arith, due) in
    rw new refl

processed :
    (cfg : ManagerConfig) (s : Manager)
    → for_groups cfg
        (record s { started = suc s.started; latest_processed_ger = s.ger.global_exit_root })
      ≡ 0
unfolding for_groups
processed cfg s =
    let old : (cfg.grouping_enabled && not (bytes_eq s.ger.global_exit_root s.ger.global_exit_root))
        ≡ false =
      grind (arith, bytes_eq_refl s.ger.global_exit_root) in
    rw old refl

off_of :
    (cfg : ManagerConfig) (s : Manager)
    → (both_synced s && not cfg.grouping_enabled) ≡ true
    → cfg.grouping_enabled ≡ false
off_of cfg s e = grind (arith, e)

on_exit_root-Pays :
    (cfg : ManagerConfig) (s : Manager) (ger : GlobalExitRoot)
    → Pays cfg s (exit_root ger) (on_exit_root cfg s ger, none)
unfolding on_exit_root
on_exit_root-Pays cfg s ger =
    let received : Manager = record s { ger = ger } in
    if_cases (λ (s' : Manager). Pays cfg s (exit_root ger) (s', none))
      (both_synced s && not cfg.grouping_enabled)
      (λ at_once.
        omega (
          arith,
          no_groups cfg (record received { started = suc s.started }) (off_of cfg s at_once),
        ))
      (λ later. omega (arith, for_groups_le cfg received))

on_compressor_tick-Pays :
    (cfg : ManagerConfig) (s : Manager)
    → Pays cfg s compressor_tick (on_compressor_tick cfg s, none)
unfolding on_compressor_tick
on_compressor_tick-Pays cfg s =
    if_cases (λ (s' : Manager). Pays cfg s compressor_tick (s', none)) (is_due cfg s)
      (λ due. omega (arith, is_due-for_groups cfg s due, processed cfg s)) (λ idle. omega arith)

same_groups :
    (cfg : ManagerConfig) (s : Manager) (n : ℕ)
    → for_groups cfg (record s { started = n }) ≡ for_groups cfg s
unfolding for_groups
same_groups cfg s n = refl

goroutine_at :
    (cfg : ManagerConfig) (s : Manager) (n : ℕ)
    → s.started ≡ n
    → Pays cfg s goroutine_runs (run_goroutine s)
goroutine_at cfg s zero e = simp (e, run_goroutine) (omega arith)
goroutine_at cfg s (suc n) e = simp (e, run_goroutine) (omega (arith, same_groups cfg s n))

on_event-Pays : (cfg : ManagerConfig) (s : Manager) (e : Event) → Pays cfg s e (on_event cfg s e)
unfolding on_event for_groups
on_event-Pays cfg s (synced n) = omega arith
on_event-Pays cfg s (exit_root ger) = on_exit_root-Pays cfg s ger
on_event-Pays cfg s compressor_tick = on_compressor_tick-Pays cfg s
on_event-Pays cfg s tick = omega arith
on_event-Pays cfg s done = omega arith
on_event-Pays cfg s goroutine_runs = goroutine_at cfg s s.started refl

stopped-Pays :
    (cfg : ManagerConfig) (s : Manager) (e : Event)
    → Pays cfg s e (elim e as (λ x. Manager × Option Action) [
      | goroutine_runs ↦ run_goroutine s
      | _ ↦ (s, none)
    ])
stopped-Pays cfg s (synced n) = omega arith
stopped-Pays cfg s (exit_root ger) = omega arith
stopped-Pays cfg s compressor_tick = omega arith
stopped-Pays cfg s tick = omega arith
stopped-Pays cfg s done = omega arith
stopped-Pays cfg s goroutine_runs = goroutine_at cfg s s.started refl

step-Pays : (cfg : ManagerConfig) (s : Manager) (e : Event) → Pays cfg s e (step cfg s e)
unfolding step
step-Pays cfg s e =
    if_both (λ (r : Manager × Option Action). Pays cfg s e r) s.stopped (stopped-Pays cfg s e)
      (on_event-Pays cfg s e)

updates-with :
    (act : Option Action) (rest : List Action)
    → updates (elim act as (λ x. List Action) [ none ↦ rest | some a ↦ a ∷ rest ])
      ≡ acted act + updates rest
unfolding updates
updates-with none rest = omega arith
updates-with (some a) rest = refl

updates_open :
    (cfg : ManagerConfig) (s : Manager) (es : List Event)
    → updates (actions cfg s es) ≤ s.started + for_groups cfg s + arrivals es
unfolding actions updates arrivals
updates_open cfg s [] = omega arith
updates_open cfg s (e ∷ es) =
    let r = step cfg s e in
    omega (arith, updates-with r.1 (actions cfg r.0 es), updates_open cfg r.0 es, step-Pays cfg s e)

none_open : (cfg : ManagerConfig) → for_groups cfg at_start ≡ 0
unfolding for_groups bytes_eq
none_open cfg = let old : (cfg.grouping_enabled && false) ≡ false = grind arith in rw old refl

-- Start updates deposits at most once for each exit root that arrives, with claims grouped or not, and
-- whenever the goroutines of the updates run.
pub updates-actions :
    (cfg : ManagerConfig) (es : List Event) → updates (actions cfg at_start es) ≤ arrivals es
updates-actions cfg es = omega (arith, updates_open cfg at_start es, none_open cfg)
