-- ===== src/Claimtxman/Manager/Start.antt =====
-- The loop of `Start` of claimtxman/claimtxman.go: what it does at each event that `select` takes. A
-- goroutine of updateDepositsStatus reads the variable `ger` of the loop when it runs, not when it is
-- started: that it runs is an event too.
use xlayer_bridge_service.Base.{
  ℕ, zero, suc, Bool, true, false, not, ◌&&◌, ◌||◌, Option, none, some, List, [], ◌∷◌,
  if◌then◌else◌, ◌==◌, ◌≡◌, refl, ◌⊎◌, inl, inr, arith, All, if_both,
}
use xlayer_bridge_service.Etherman.{Bytes, GlobalExitRoot, bytes_eq, zero_digest}
use xlayer_bridge_service.Claimtxman.Manager.{ManagerConfig}

pub data Event : Type 0 where
  synced : ℕ → Event
  exit_root : GlobalExitRoot → Event
  compressor_tick tick done goroutine_runs : Event

pub data Action : Type 0 where
  update_deposits : GlobalExitRoot → Action
  monitor_claims : Action

-- `started` goroutines have not read the exit root yet; a loop that has stopped takes no events.
pub record Manager : Type 0 where
  pub l2_synced : Bool
  pub l1_synced : Bool
  pub ger : GlobalExitRoot
  pub latest_processed_ger : Bytes
  pub started : ℕ
  pub stopped : Bool

abbrev pub no_ger : GlobalExitRoot
no_ger = record {
  block_id = 0;
  block_number = 0;
  exit_roots = [];
  global_exit_root = zero_digest;
  network_id = 0;
  id = 0;
  time = 0;
}

abbrev pub at_start : Manager
at_start = record {
  l2_synced = false;
  l1_synced = false;
  ger = no_ger;
  latest_processed_ger = zero_digest;
  started = 0;
  stopped = false;
}

abbrev pub both_synced : Manager → Bool
both_synced s = s.l2_synced && s.l1_synced

-- An exit root is processed at once unless claims are grouped.
unfoldable pub on_exit_root : ManagerConfig → Manager → GlobalExitRoot → Manager
on_exit_root cfg s ger =
    let received : Manager = record s { ger = ger } in
    if both_synced s && not cfg.grouping_enabled
    then record received { started = suc s.started }
    else received

-- The exit root that arrived last is new for the groups.
unfoldable pub is_due : ManagerConfig → Manager → Bool
is_due cfg s =
    both_synced s
    && cfg.grouping_enabled
    && not (bytes_eq s.ger.global_exit_root s.latest_processed_ger)

unfoldable pub on_compressor_tick : ManagerConfig → Manager → Manager
unfolding is_due
on_compressor_tick cfg s =
    if is_due cfg s
    then record s { started = suc s.started; latest_processed_ger = s.ger.global_exit_root }
    else s

-- A goroutine that was started takes the exit root that is there now.
abbrev pub run_goroutine : Manager → Manager × Option Action
run_goroutine s = elim s.started [
  | zero ↦ (s, none)
  | suc n ↦ (record s { started = n }, some (update_deposits s.ger))
]

-- The state after an event, and what is done.
unfoldable pub on_event : ManagerConfig → Manager → Event → Manager × Option Action
unfolding on_exit_root on_compressor_tick
on_event cfg s (synced net_id) = (
  record s {
    l2_synced = s.l2_synced || net_id == cfg.l2_network_id;
    l1_synced = s.l1_synced || net_id == 0;
  },
  none,
)
on_event cfg s (exit_root ger) = (on_exit_root cfg s ger, none)
on_event cfg s compressor_tick = (on_compressor_tick cfg s, none)
on_event cfg s tick = (s, some monitor_claims)
on_event cfg s done = (record s { stopped = true }, none)
on_event cfg s goroutine_runs = run_goroutine s

-- A goroutine runs also when the loop has stopped.
unfoldable pub step : ManagerConfig → Manager → Event → Manager × Option Action
unfolding on_event
step cfg s e =
    if s.stopped
    then elim e [ goroutine_runs ↦ run_goroutine s | _ ↦ (s, none) ]
    else on_event cfg s e

-- What is done at these events.
unfoldable pub actions : ManagerConfig → Manager → List Event → List Action
unfolding step
actions cfg s [] = []
actions cfg s (e ∷ es) =
    let (s', act) = step cfg s e in
    let rest = actions cfg s' es in elim act [ none ↦ rest | some a ↦ a ∷ rest ]

abbrev pub reports : ℕ → Event → Bool
reports network (synced n) = n == network
reports network (exit_root ger) = false
reports network compressor_tick = false
reports network tick = false
reports network done = false
reports network goroutine_runs = false

-- The network is reported as synced.
unfoldable pub was_synced : ℕ → List Event → Bool
was_synced network [] = false
was_synced network (e ∷ es) = reports network e || was_synced network es

pub data IsMonitoring : Action → Type 0 where
  monitors : IsMonitoring monitor_claims

-- A network, which is not synced yet, is not reported as synced either, and no goroutine is started.
record Misses (cfg : ManagerConfig) (s : Manager) (es : List Event) : Type 0 where
  no_report :
      (s.l2_synced ≡ false) × (was_synced cfg.l2_network_id es ≡ false)
      ⊎ (s.l1_synced ≡ false) × (was_synced 0 es ≡ false)
  none_started : s.started ≡ 0

waiting :
    (cfg : ManagerConfig) (s : Manager) (es : List Event) → Misses cfg s es → both_synced s ≡ false
waiting cfg s es misses = grind (arith, misses.no_report)

no_start :
    (cfg : ManagerConfig) (s : Manager) (ger : GlobalExitRoot)
    → both_synced s ≡ false
    → on_exit_root cfg s ger ≡ record s { ger = ger }
unfolding on_exit_root
no_start cfg s ger waits = rw waits refl

not_due : (cfg : ManagerConfig) (s : Manager) → both_synced s ≡ false → on_compressor_tick cfg s ≡ s
unfolding on_compressor_tick is_due
not_due cfg s waits = rw waits refl

idle : (s : Manager) → s.started ≡ 0 → run_goroutine s ≡ (s, none)
idle s e = simp (e, run_goroutine)

-- Nothing but a look at the claims is done, and the network is still missed.
unfoldable Quiet : ManagerConfig → List Event → Manager × Option Action → Type 0
Quiet cfg es (s, act) = Misses cfg s es × ((act ≡ none) ⊎ (act ≡ some monitor_claims))

on_event-Quiet :
    (cfg : ManagerConfig) (s : Manager) (e : Event) (es : List Event)
    → Misses cfg s (e ∷ es)
    → Quiet cfg es (on_event cfg s e)
unfolding on_event was_synced Quiet
on_event-Quiet cfg s (synced n) es misses = (
  record { no_report = grind (arith, misses.no_report); none_started = misses.none_started },
  inl refl,
)
on_event-Quiet cfg s (exit_root ger) es misses =
    rw (no_start cfg s ger (waiting cfg s (exit_root ger ∷ es) misses))
      (record { no_report = misses.no_report; none_started = misses.none_started }, inl refl)
on_event-Quiet cfg s compressor_tick es misses =
    rw (not_due cfg s (waiting cfg s (compressor_tick ∷ es) misses))
      (record { no_report = misses.no_report; none_started = misses.none_started }, inl refl)
on_event-Quiet cfg s tick es misses =
    (record { no_report = misses.no_report; none_started = misses.none_started }, inr refl)
on_event-Quiet cfg s done es misses =
    (record { no_report = misses.no_report; none_started = misses.none_started }, inl refl)
on_event-Quiet cfg s goroutine_runs es misses =
    rw (idle s misses.none_started)
      (record { no_report = misses.no_report; none_started = misses.none_started }, inl refl)

stopped-Quiet :
    (cfg : ManagerConfig) (s : Manager) (e : Event) (es : List Event)
    → Misses cfg s (e ∷ es)
    → Quiet cfg es (elim e as (λ x. Manager × Option Action) [
      | goroutine_runs ↦ run_goroutine s
      | _ ↦ (s, none)
    ])
unfolding was_synced Quiet
stopped-Quiet cfg s (synced n) es misses = (
  record { no_report = grind (arith, misses.no_report); none_started = misses.none_started },
  inl refl,
)
stopped-Quiet cfg s goroutine_runs es misses =
    rw (idle s misses.none_started)
      (record { no_report = misses.no_report; none_started = misses.none_started }, inl refl)
stopped-Quiet cfg s (exit_root ger) es misses =
    (record { no_report = misses.no_report; none_started = misses.none_started }, inl refl)
stopped-Quiet cfg s compressor_tick es misses =
    (record { no_report = misses.no_report; none_started = misses.none_started }, inl refl)
stopped-Quiet cfg s tick es misses =
    (record { no_report = misses.no_report; none_started = misses.none_started }, inl refl)
stopped-Quiet cfg s done es misses =
    (record { no_report = misses.no_report; none_started = misses.none_started }, inl refl)

step-Quiet :
    (cfg : ManagerConfig) (s : Manager) (e : Event) (es : List Event)
    → Misses cfg s (e ∷ es)
    → Quiet cfg es (step cfg s e)
unfolding step
step-Quiet cfg s e es misses =
    if_both (Quiet cfg es) s.stopped (stopped-Quiet cfg s e es misses)
      (on_event-Quiet cfg s e es misses)

quiet_act :
    (act : Option Action) (rest : List Action)
    → (act ≡ none) ⊎ (act ≡ some monitor_claims)
    → All IsMonitoring rest
    → All IsMonitoring (elim act as (λ x. List Action) [ none ↦ rest | some a ↦ a ∷ rest ])
quiet_act act rest (inl e) all = rw e all
quiet_act act rest (inr e) all = rw e (monitors, all)

Misses-actions :
    (cfg : ManagerConfig) (s : Manager) (es : List Event)
    → Misses cfg s es
    → All IsMonitoring (actions cfg s es)
unfolding actions Quiet
Misses-actions cfg s [] misses = tt
Misses-actions cfg s (e ∷ es) misses =
    let (still, quiet) = step-Quiet cfg s e es misses in
    quiet_act (step cfg s e).1 (actions cfg (step cfg s e).0 es) quiet
      (Misses-actions cfg (step cfg s e).0 es still)

-- As long as the L2 or the L1 is not reported as synced, Start updates no deposits, whatever exit
-- roots arrive: it only monitors the claims that are there.
pub actions-IsMonitoring :
    (cfg : ManagerConfig) (es : List Event)
    → (was_synced cfg.l2_network_id es ≡ false) ⊎ (was_synced 0 es ≡ false)
    → All IsMonitoring (actions cfg at_start es)
actions-IsMonitoring cfg es (inl no_l2) =
    Misses-actions cfg at_start es (record { no_report = inl (refl, no_l2); none_started = refl })
actions-IsMonitoring cfg es (inr no_l1) =
    Misses-actions cfg at_start es (record { no_report = inr (refl, no_l1); none_started = refl })
