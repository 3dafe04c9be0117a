-- ===== src/Groups.antt =====
-- native/forcola_shim/src/groups.rs on Linux: groups that were recorded earlier are checked or stopped.
pub mod Seen
pub mod Safety
pub mod Observing
pub mod Backing
pub mod Signalling
pub mod Stopping
pub mod Sticky
mod Tests
use forcola.Prelude.{
  ℕ, zero, suc, ◌+◌, ◌-◌, ◌*◌, List, [], ◌∷◌, ◌++◌, map, Bool, true, false, not, ◌&&◌, ◌||◌, Option,
  none, some, min, leb, ltb, ◌==◌, if◌then◌else◌, i32_max, length,
}
use forcola.Errors.{IoError, os, simple, Kind, invalid_data, Result, ok, err}
use forcola.Identity.{ProcessIdentity, ProcessRecord, same_text, same_identity, same_process}
use forcola.Os.{
  Signal, int, term, kill, Action, clock, sleep, signal_group, read_boot, read_process,
  list_processes, signal_process, History, Env, M, ◌>>=◌, ◌>>◌, ret, act, when, ms,
}

abbrev pub max_processes : ℕ
max_processes = 65_536

abbrev poll : ℕ
poll = ms 20

abbrev confirm_window : ℕ
confirm_window = ms 500

-- The reasons of an unknown state; `failed` has the stable name of the error.
pub data Reason : Type 0 where
  invalid_identity not_a_group_leader foreign_identity : Reason
  failed : IoError → Reason

pub data Recorded : Type 0 where
  group : ProcessIdentity → Recorded
  invalid : Reason → Recorded

pub data State : Type 0 where
  gone : State
  led : State
  leaderless : List ProcessIdentity → State
  unknown : Reason → State

abbrev pub present : State → Bool
present led = true
present (leaderless live) = true
present _ = false

abbrev pub is_gone : State → Bool
is_gone gone = true
is_gone _ = false

abbrev pub any_present : List State → Bool
any_present [] = false
any_present (s ∷ ss) = present s || any_present ss

-- `libc::ESRCH` and `libc::ENOENT`
abbrev pub disappeared : IoError → Bool
disappeared (os errno) = (errno == 3) || (errno == 2)
disappeared (simple k) = false

abbrev pub found : Result ProcessRecord → Result (Option ProcessRecord)
found (ok r) = ok (some r)
found (err e) = if disappeared e then ok none else err e

abbrev pub in_group : ℕ → ProcessRecord → Bool
in_group pgid r = (r.identity.pgid == pgid) && not r.exited

-- A pid in front of the pids of the later entries.
abbrev pub keep : ℕ → Result (List ℕ) → Result (List ℕ)
keep pid (ok pids) = ok (pid ∷ pids)
keep pid (err e) = err e

-- A member in front of the later ones.
abbrev pub keep_live :
    ProcessIdentity → Result (List ProcessIdentity) → Result (List ProcessIdentity)
keep_live id (ok ids) = ok (id ∷ ids)
keep_live id (err e) = err e

abbrev pub from_members : Result (List ProcessIdentity) → State
from_members (ok []) = gone
from_members (ok (id ∷ ids)) = leaderless (id ∷ ids)
from_members (err e) = unknown (failed e)

module _ (env : Env) where
  is_invalid_data : IoError → Bool
  is_invalid_data (simple invalid_data) = true
  is_invalid_data (simple _) = false
  is_invalid_data (os errno) = elim (env.kind_of errno) [ invalid_data ↦ true | _ ↦ false ]

  pub read : ℕ → M (Result (Option ProcessRecord))
  read pid h = (some (found (env.process h pid)), read_process pid ∷ h)

  gather_found : ℕ → ℕ → M (Result (List ℕ)) → Result (Option ProcessRecord) → M (Result (List ℕ))
  unfolding is_invalid_data
  gather_found pgid pid rest (ok (some r)) =
      if r.identity.pgid == pgid then (do pids ← rest; ret (keep pid pids)) else rest
  gather_found pgid pid rest (ok none) = rest
  gather_found pgid pid rest (err e) = if is_invalid_data e then rest else ret (err e)

  gather_entry : ℕ → M (Result (List ℕ)) → Result (Option ℕ) → M (Result (List ℕ))
  unfolding read gather_found
  gather_entry pgid rest (err e) = ret (err e)
  gather_entry pgid rest (ok none) = rest
  gather_entry pgid rest (ok (some pid)) = read pid >>= gather_found pgid pid rest

  -- The entries of `platform::group_members` from one with its index on.
  gather : ℕ → ℕ → List (Result (Option ℕ)) → M (Result (List ℕ))
  unfolding gather_entry
  gather pgid index [] = ret (ok [])
  gather pgid index (entry ∷ rest) =
      if ltb (max_processes * 2) index
      then ret (err (simple invalid_data))
      else gather_entry pgid (gather pgid (suc index) rest) entry

  gather_all : ℕ → Result (List (Result (Option ℕ))) → M (Result (List ℕ))
  unfolding gather
  gather_all pgid (ok entries) = gather pgid 0 entries
  gather_all pgid (err e) = ret (err e)

  pub group_members : ℕ → M (Result (List ℕ))
  unfolding gather_all
  group_members pgid h = gather_all pgid (env.processes h) (list_processes ∷ h)

  -- The reads of `members`: the live processes of the group among the pids.
  live_found :
      ℕ
      → M (Result (List ProcessIdentity))
      → Result (Option ProcessRecord)
      → M (Result (List ProcessIdentity))
  live_found pgid rest (ok (some r)) =
      if in_group pgid r then (do ids ← rest; ret (keep_live r.identity ids)) else rest
  live_found pgid rest (ok none) = rest
  live_found pgid rest (err e) = ret (err e)

  live_members : ℕ → List ℕ → M (Result (List ProcessIdentity))
  unfolding read live_found
  live_members pgid [] = ret (ok [])
  live_members pgid (pid ∷ pids) = read pid >>= live_found pgid (live_members pgid pids)

  members_of : ℕ → Result (List ℕ) → M State
  unfolding live_members
  members_of pgid (ok pids) = do ids ← live_members pgid pids; ret (from_members ids)
  members_of pgid (err e) = ret (unknown (failed e))

  pub members : ℕ → M State
  unfolding group_members members_of
  members pgid = group_members pgid >>= members_of pgid

  -- `observe` from its read of the recorded leader on.
  observe_leader : ProcessIdentity → Result (Option ProcessRecord) → M State
  unfolding members
  observe_leader expected (ok (some leader)) =
      if same_process leader.identity expected
      then (if in_group expected.pgid leader then ret led else members expected.pgid)
      else ret gone
  observe_leader expected (ok none) = members expected.pgid
  observe_leader expected (err e) = ret (unknown (failed e))

  observe_boot : ProcessIdentity → Result (List ℕ) → M State
  unfolding read observe_leader
  observe_boot expected (ok current) =
      if same_text current expected.start_time.boot_id
      then read expected.pid >>= observe_leader expected
      else ret gone
  observe_boot expected (err e) = ret (unknown (failed e))

  pub observe : Recorded → M State
  unfolding observe_boot
  observe (invalid reason) = ret (unknown reason)
  observe (group expected) = λ h. observe_boot expected (env.boot h) (read_boot ∷ h)

  pub observe_all : List Recorded → M (List State)
  unfolding observe
  observe_all [] = ret []
  observe_all (r ∷ rs) = do s ← observe r; ss ← observe_all rs; ret (s ∷ ss)

  -- Whether a read of a member still shows it.
  abbrev verified_member : ℕ → ProcessIdentity → Result (Option ProcessRecord) → Bool
  verified_member pgid member (ok (some r)) = same_process r.identity member && in_group pgid r
  verified_member pgid member _ = false

  abbrev verified_leader : ProcessIdentity → Result (Option ProcessRecord) → Bool
  verified_leader expected (ok (some r)) = same_identity r.identity expected && not r.exited
  verified_leader expected _ = false

  signal_members : ℕ → Signal → List ProcessIdentity → M (Unit {0})
  unfolding read
  signal_members pgid s [] = ret tt
  signal_members pgid s (member ∷ live) = do
    r ← read member.pid
    when (verified_member pgid member r && leb member.pid i32_max) (signal_process member.pid s)
    signal_members pgid s live

  signal_leaderless : ℕ → Signal → State → M (Unit {0})
  unfolding signal_members
  signal_leaderless pgid s (leaderless live) = signal_members pgid s live
  signal_leaderless pgid s _ = ret tt

  signal_fallback : ProcessIdentity → Signal → M (Unit {0})
  unfolding members signal_leaderless
  signal_fallback expected s = members expected.pgid >>= signal_leaderless expected.pgid s

  -- Behind the signal to the whole group, which `kill` may have refused.
  group_answer : ProcessIdentity → Signal → Bool → M (Unit {0})
  unfolding signal_fallback
  group_answer expected s true = ret tt
  group_answer expected s false = signal_fallback expected s

  signal_group_or : ProcessIdentity → Signal → Bool → M (Unit {0})
  unfolding signal_fallback group_answer
  signal_group_or expected s true h =
      group_answer expected s (env.killed h) (signal_group expected.pgid s ∷ h)
  signal_group_or expected s false h = signal_fallback expected s h

  pub signal : ProcessIdentity → State → Signal → M (Unit {0})
  unfolding read signal_group_or signal_leaderless
  signal expected led s = do
    r ← read expected.pid
    signal_group_or expected s (verified_leader expected r)
  signal expected (leaderless live) s = signal_leaderless expected.pgid s (leaderless live)
  signal expected _ s = ret tt

  signal_one : Recorded → State → Signal → M (Unit {0})
  unfolding signal
  signal_one (group expected) state s = if present state then signal expected state s else ret tt
  signal_one (invalid reason) state s = ret tt

  pub signal_all : List Recorded → List State → Signal → M (Unit {0})
  unfolding signal_one
  signal_all (r ∷ rs) (state ∷ states) s = signal_one r state s >> signal_all rs states s
  signal_all _ _ s = ret tt

  refresh_one : Recorded → State → M State
  unfolding observe
  refresh_one r state = if is_gone state then ret state else observe r

  unfoldable pub refresh : List Recorded → List State → M (List State)
  unfolding refresh_one
  refresh (r ∷ rs) (state ∷ states) = do
    s ← refresh_one r state
    ss ← refresh rs states
    ret (s ∷ ss)
  refresh _ states = ret states

  -- A round of a stage's loop behind its `refresh`, and the rounds behind it.
  settled : (List State → M (List State)) → ℕ → List State → M (List State)
  settled again deadline states h = elim (any_present states) [
    | false ↦ (some states, h)
    | true ↦ elim (leb deadline (env.now h)) [
      | true ↦ (some states, clock ∷ h)
      | false ↦ again states (sleep (min poll (deadline - env.now (clock ∷ h))) ∷ clock ∷ clock ∷ h)
    ]
  ]

  -- The loop of a stage of `stop`, on fuel.
  settle : List Recorded → ℕ → ℕ → List State → M (List State)
  unfolding refresh settled
  settle rs zero deadline states = λ h. (none, h)
  settle rs (suc fuel) deadline states =
      refresh rs states >>= settled (settle rs fuel deadline) deadline

  -- Its deadline is the grace from now; each round takes a nanosecond at least.
  settle_for : List Recorded → ℕ → List State → M (List State)
  unfolding settle
  settle_for rs grace states h = settle rs (suc grace) (env.now h + grace) states (clock ∷ h)

  run_stages : List Recorded → List (Signal × ℕ) → List State → M (List State)
  unfolding signal_all settle_for
  run_stages rs [] states = ret states
  run_stages rs (stage ∷ stages) states =
      if any_present states
      then (do
        signal_all rs states stage.0
        states' ← settle_for rs stage.1 states
        run_stages rs stages states')
      else ret states

  abbrev pub stages : Option ℕ → ℕ → List (Signal × ℕ)
  stages (some grace) term_grace = (int, grace) ∷ (term, term_grace) ∷ (kill, confirm_window) ∷ []
  stages none term_grace = (term, term_grace) ∷ (kill, confirm_window) ∷ []

  unfoldable pub stop : List Recorded → Option ℕ → ℕ → M (List State)
  unfolding observe_all run_stages
  stop rs interrupt term_grace = do
    states ← observe_all rs
    run_stages rs (stages interrupt term_grace) states

pub data Op : Type 0 where
  check_op stop_op : Op

-- `Interrupt::Int`
pub data Interrupt : Type 0 where
  interrupt_int : Interrupt

-- A request whose entries went through `parse_identity`.
pub record Request : Type 0 where
  pub op : Op
  pub groups : List Recorded
  pub interrupt_signal : Option Interrupt
  pub interrupt_grace_ms : Option ℕ
  pub kill_grace_ms : ℕ

pub data Rejection : Type 0 where
  too_many_groups invalid_interrupt invalid_kill_grace : Rejection

abbrev pub max_groups : ℕ
max_groups = 4_096

abbrev pub max_grace_ms : ℕ
max_grace_ms = 4_294_967_295

-- The grace of the INT stage, if the two fields of a request fit together.
unfoldable pub interrupt_grace : Option Interrupt → Option ℕ → Option (Option ℕ)
interrupt_grace none none = some none
interrupt_grace (some interrupt_int) (some grace) =
    if ltb 0 grace && leb grace max_grace_ms then some (some (ms grace)) else none
interrupt_grace _ _ = none

-- `StateReport`, with the state's name as a constructor.
pub data StateName : Type 0 where
  gone_name present_name unknown_name : StateName

abbrev pub report_state : State → StateName × Option Reason
report_state gone = (gone_name, none)
report_state led = (present_name, none)
report_state (leaderless live) = (present_name, none)
report_state (unknown reason) = (unknown_name, some reason)

pub record Report : Type 0 where
  pub groups : List (StateName × Option Reason)
  pub confirmed : Bool

abbrev pub all_gone : List State → Bool
all_gone [] = true
all_gone (s ∷ ss) = is_gone s && all_gone ss

unfoldable pub make_report : List State → Report
make_report states = record { groups = map report_state states; confirmed = all_gone states }

pub data Answer : Type 0 where
  reject : Rejection → Answer
  report : Report → Answer

module _ (env : Env) where
  states_of : Request → Option ℕ → M (List State)
  unfolding observe_all stop
  states_of request grace = elim request.op [
    | check_op ↦ observe_all env request.groups
    | stop_op ↦ stop env request.groups grace (ms request.kill_grace_ms)
  ]

  with_grace : Request → Option (Option ℕ) → M Answer
  unfolding states_of make_report
  with_grace request none = ret (reject invalid_interrupt)
  with_grace request (some grace) =
      if ltb max_grace_ms request.kill_grace_ms
      then ret (reject invalid_kill_grace)
      else (do states ← states_of request grace; ret (report (make_report states)))

  -- `run` behind the decoding of its line.
  unfoldable pub run : Request → M Answer
  unfolding with_grace interrupt_grace
  run request =
      if ltb max_groups (length request.groups)
      then ret (reject too_many_groups)
      else with_grace request (interrupt_grace request.interrupt_signal request.interrupt_grace_ms)
