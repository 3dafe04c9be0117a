-- ===== src/Supervisor/Loop.antt =====
-- `supervise` of supervisor.rs, without tracking: the loop over events until the child has exited.
pub mod Events
pub mod Exits
pub mod Report
use forcola.Prelude.{
  ℕ, List, [], ◌∷◌, Bool, true, false, ◌&&◌, ◌||◌, not, Option, none, some, ◌==◌, if◌then◌else◌,
}
use forcola.Frame.{Frame, tag_credit, tag_stderr_credit, tag_kill, tag_exit}
use forcola.Protocol.{ExitReport}
use forcola.Os.{
  Pipe, stdout, stderr, Action, uncork, close_input, send_frame, History, Env, M, ◌>>=◌, ◌>>◌, ret,
  act, when,
}
use forcola.Supervisor.Kill.{kill_group}
use forcola.Supervisor.Drain.{
  Outcome, Event, stdin, stdin_closed, stdin_error, child_exited, child_wait_failed, timed_out,
  tracking_write_failed, Config, grant_credit, cancel_all, finish_cgroup, drain_pumps, Strict,
  drain_pumps_strict,
}

-- The mutable locals of `supervise`.
pub record Loop : Type 0 where
  pub was_timed_out : Bool
  pub beam_gone : Bool
  pub group_confirmed : Bool
  pub group_cleanup_started : Bool
  pub discard_output : Bool

abbrev pub fresh : Loop
fresh = record {
  was_timed_out = false;
  beam_gone = false;
  group_confirmed = true;
  group_cleanup_started = false;
  discard_output = false;
}

-- Where the loop leaves off: the exit that it broke with, if the channel did not close before, its
-- locals, and the events behind.
pub record Left : Type 0 where
  pub exit : Option Outcome
  pub locals : Loop
  pub events : List Event

module _ (env : Env) (cfg : Config) where
  kill_now : M Bool
  kill_now = kill_group env cfg.pgid cfg.kill_grace cfg.cgroup cfg.interrupt_grace

  -- `if !group_cleanup_started { … }` of the terminal events
  stop_unless : Bool → Loop → M Loop
  unfolding kill_now
  stop_unless true l = ret l
  stop_unless false l = do
    confirmed ← kill_now
    ret (record l { group_cleanup_started = true; group_confirmed = confirmed })

  stop_group : Loop → M Loop
  unfolding stop_unless
  stop_group l = stop_unless l.group_cleanup_started l

  on_stdin : Frame → Loop → M Loop
  unfolding stop_group
  on_stdin f l = elim (f.tag == tag_kill) [
    | true ↦ do act close_input; stop_group (record l { discard_output = true })
    | false ↦ elim (f.tag == tag_credit) [
      | true ↦ do grant_credit cfg.credit stdout f.payload; ret l
      | false ↦ elim (f.tag == tag_stderr_credit) [
        | true ↦ do grant_credit cfg.stderr_credit stderr f.payload; ret l
        | false ↦ ret l
      ]
    ]
  ]

  -- The arms that do not break; `child_exited` is `on_exit`.
  on_event : Event → Loop → M Loop
  unfolding on_stdin stop_group
  on_event (stdin f) l = on_stdin f l
  on_event tracking_write_failed l = ret l
  on_event child_wait_failed l = ret l
  on_event stdin_closed l = do
    act close_input
    stop_group (record l { discard_output = true; beam_gone = true })
  on_event stdin_error l = do
    act close_input
    stop_group (record l { discard_output = true; beam_gone = true })
  on_event timed_out l = do
    act close_input
    stop_group (record l { discard_output = true; was_timed_out = true })
  on_event (child_exited o) l = ret l

  last_stop : Bool → Loop → M Loop
  unfolding kill_now
  last_stop true l = ret l
  last_stop false l = do confirmed ← kill_now; ret (record l { group_confirmed = confirmed })

  on_exit : Loop → M Loop
  unfolding last_stop
  on_exit l = do act close_input; last_stop l.group_cleanup_started l

  unfoldable pub run_loop : List Event → Loop → M Left
  unfolding on_event on_exit
  run_loop [] l = ret (record { exit = none; locals = l; events = [] })
  run_loop (child_exited o ∷ es) l = do
    l' ← on_exit l
    ret (record { exit = some o; locals = l'; events = es })
  run_loop (e ∷ es) l = do l' ← on_event e l; run_loop es l'

  pub uncork_all : M (Unit {0})
  uncork_all = elim cfg.strict_output [
    | true ↦ ret tt
    | false ↦ when cfg.credit (uncork stdout) >> when cfg.stderr_credit (uncork stderr)
  ]

  -- `cgroup.is_none_or(|cg| finish_cgroup(cg, kill_grace))`
  pub close_cgroup : M Bool
  close_cgroup = elim cfg.cgroup [ true ↦ finish_cgroup env cfg.kill_grace | false ↦ ret true ]

  -- Whether output was lost, and whether the BEAM vanished meanwhile.
  pub drain_output : ℕ → Left → M (Bool × Bool)
  drain_output rounds left = elim cfg.strict_output [
    | true ↦ elim left.locals.discard_output [
      | true ↦ do cancel_all cfg; _ ← drain_pumps env cfg.pumps; ret (true, false)
      | false ↦
          drain_pumps_strict env cfg rounds 0 left.events >>= λ (drained, cancelled, vanished).
          ret (not drained || cancelled, vanished)
    ]
    | false ↦ do drained ← drain_pumps env cfg.pumps; ret (not drained, false)
  ]

  pub exit_status : Option Outcome → Outcome
  exit_status (some o) = o
  exit_status none = record { status = none; signal = none }

  report : Left → Bool → Bool → ExitReport
  unfolding exit_status
  report left cgroup_confirmed output_truncated =
      let o = exit_status left.exit in
      record {
        status = o.status;
        signal = o.signal;
        timed_out = left.locals.was_timed_out;
        confirmed = left.locals.group_confirmed && cgroup_confirmed;
        contained = cfg.cgroup;
        output_truncated = output_truncated;
        scope = none;
        tracked_groups_truncated = none;
      }

  -- `encode` is `serde_json::to_vec`.
  module _ (encode : ExitReport → Option (List ℕ)) where
    send_report : ExitReport → M (Unit {0})
    send_report r = elim (encode r) [
      | some payload ↦ act (send_frame tag_exit payload)
      | none ↦ ret tt
    ]

    -- The drain and the report, unless the BEAM is gone.
    finish : ℕ → Left → Bool → Bool → M Bool
    unfolding drain_output report send_report
    finish rounds left true cgroup_confirmed = do cancel_all cfg; ret true
    finish rounds left false cgroup_confirmed =
        drain_output rounds left >>= λ (output_truncated, vanished). elim vanished [
          | true ↦ ret true
          | false ↦ do send_report (report left cgroup_confirmed output_truncated); ret false
        ]

    -- From the end of the loop on. The result says whether the BEAM is gone.
    conclude : ℕ → Left → M Bool
    unfolding uncork_all close_cgroup finish
    conclude rounds left = do
      uncork_all
      cgroup_confirmed ← close_cgroup
      finish rounds left left.locals.beam_gone cgroup_confirmed

    unfoldable pub supervise : ℕ → List Event → M Bool
    unfolding run_loop conclude
    supervise rounds es = do left ← run_loop es fresh; conclude rounds left
