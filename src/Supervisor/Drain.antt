-- ===== src/Supervisor/Drain.antt =====
-- The waits of supervisor.rs behind the child's exit: for its cgroup to drain (`finish_cgroup`) and
-- for the output pumps to reach the end of their pipes (`drain_pumps`, `drain_pumps_strict`).
pub mod Quiet
pub mod Ends
use forcola.Prelude.{
  ℕ, zero, suc, ◌+◌, ◌-◌, ◌*◌, List, [], ◌∷◌, Bool, true, false, ◌&&◌, Option, none, some, leb, ltb,
  ◌==◌, if◌then◌else◌,
}
use forcola.Frame.{Frame, tag_credit, tag_stderr_credit, tag_kill}
use forcola.Credit.{parse_grant}
use forcola.Os.{
  Pipe, stdout, stderr, Action, clock, cgroup_kill, cgroup_probe, cgroup_remove, grant, cancel,
  pump_wait, peer_probe, poll_event, History, Done, finished, elapsed, disconnected, Env, M, ◌>>=◌,
  ◌>>◌, ret, act, when, ms,
}
use forcola.Supervisor.Wait.{wait_until}

-- How the child ended.
pub record Outcome : Type 0 where
  pub status : Option ℕ
  pub signal : Option ℕ

pub data Event : Type 0 where
  stdin : Frame → Event
  stdin_closed : Event
  stdin_error : Event
  child_exited : Outcome → Event
  child_wait_failed : Event
  timed_out : Event
  tracking_write_failed : Event

-- The arguments of `supervise` that stay the same; the credits and the peer are there or not.
pub record Config : Type 0 where
  pub pgid : ℕ
  pub kill_grace : ℕ  -- ns
  pub interrupt_grace : Option ℕ  -- ns
  pub cgroup : Bool
  pub credit : Bool
  pub stderr_credit : Bool
  pub strict_output : Bool
  pub peer : Bool
  pub pumps : ℕ

-- `OUTPUT_DRAIN_GRACE`
abbrev pub output_drain_grace : ℕ
output_drain_grace = ms 1000

-- A CREDIT frame for a pipe, which has a budget or has none; an unreadable payload is ignored.
unfoldable pub grant_credit : Bool → Pipe → List ℕ → M (Unit {0})
unfolding parse_grant
grant_credit true p payload = elim (parse_grant payload) [
  | none ↦ ret tt
  | some n ↦ act (grant p n)
]
grant_credit false p payload = ret tt

unfoldable pub cancel_all : Config → M (Unit {0})
cancel_all cfg = when cfg.credit (cancel stdout) >> when cfg.stderr_credit (cancel stderr)

-- The result of `drain_pumps_strict`: (drained, cancelled, disappeared).
abbrev pub Strict : Type 0
Strict = Bool × Bool × Bool

-- What the loop over `rx.try_recv` comes to: a result, or the events that are still to come.
pub data Polled : Type 0 where
  over : Strict → Polled
  more : List Event → Polled

-- A result ends that loop, and the rest of it is left out.
resume : M Polled → Option Strict → M Polled
resume rest (some s) = ret (over s)
resume rest none = rest

module _ (env : Env) where
  cgroup_drained : M Bool
  cgroup_drained h = (some (env.drained h), cgroup_probe ∷ h)

  unfoldable pub finish_cgroup : ℕ → M Bool
  unfolding cgroup_drained
  finish_cgroup grace = do
    act cgroup_kill
    drained ← wait_until env (grace + ms 500) (ms 20) cgroup_drained
    when drained cgroup_remove
    ret drained

  -- `pump_done.recv_timeout`
  recv_done : ℕ → M Done
  recv_done d h = (some (env.pump_done h d), pump_wait d ∷ h)

  -- The rounds of `drain_pumps` up to its deadline.
  drain_rounds : ℕ → ℕ → M Bool
  drain_rounds zero deadline h = (some true, h)
  drain_rounds (suc pumps) deadline h =
      let now = env.now h in
      let rest = drain_rounds pumps deadline (pump_wait (deadline - now) ∷ clock ∷ h) in
      elim (leb deadline now) [
        | true ↦ (some false, clock ∷ h)
        | false ↦ elim (env.pump_done (clock ∷ h) (deadline - now)) [
          | finished ↦ rest
          | elapsed ↦ (some false, pump_wait (deadline - now) ∷ clock ∷ h)
          | disconnected ↦ (some false, pump_wait (deadline - now) ∷ clock ∷ h)
        ]
      ]

  unfoldable pub drain_pumps : ℕ → M Bool
  unfolding drain_rounds
  drain_pumps pumps h = drain_rounds pumps (env.now h + output_drain_grace) (clock ∷ h)

  module _ (cfg : Config) where
    -- An event of the inner loop; `none` goes on with the next.
    on_drain_event : ℕ → Event → M (Option Strict)
    on_drain_event left (stdin f) =
        if f.tag == tag_credit
        then (do grant_credit cfg.credit stdout f.payload; ret none)
        else if f.tag == tag_stderr_credit
        then (do grant_credit cfg.stderr_credit stderr f.payload; ret none)
        else if f.tag == tag_kill
        then (do cancel_all cfg; drained ← drain_pumps left; ret (some (drained, true, false)))
        else ret none
    on_drain_event left stdin_closed = do cancel_all cfg; ret (some (false, true, true))
    on_drain_event left stdin_error = do cancel_all cfg; ret (some (false, true, true))
    on_drain_event left tracking_write_failed = do cancel_all cfg; ret (some (false, true, true))
    on_drain_event left _ = ret none

    peer_disconnected : M Bool
    peer_disconnected h =
        if cfg.peer then (some (env.peer_gone h), peer_probe ∷ h) else (some false, h)

    -- `while let Ok(event) = rx.try_recv()`, with `left` pumps not yet finished.
    poll : ℕ → List Event → M Polled
    unfolding on_drain_event resume
    poll left [] h = (some (more []), poll_event ∷ h)
    poll left (e ∷ es) h = elim (env.ready h) [
      | false ↦ (some (more (e ∷ es)), poll_event ∷ h)
      | true ↦ (on_drain_event left e >>= resume (poll left es)) (poll_event ∷ h)
    ]

    -- One round of `drain_pumps_strict` and the rest of it: with `completed` pumps, or one more.
    on_answer : M Strict → M Strict → Done → M Strict
    on_answer again next finished = next
    on_answer again next elapsed = again
    on_answer again next disconnected = ret (false, true, false)

    on_polled : (List Event → M Strict) → (List Event → M Strict) → Polled → M Strict
    unfolding on_answer recv_done
    on_polled again next (over s) = ret s
    on_polled again next (more es) = do
      answer ← recv_done (ms 10)
      on_answer (again es) (next es) answer

    on_peer : M Strict → Bool → M Strict
    on_peer rest true = do cancel_all cfg; ret (false, true, true)
    on_peer rest false = rest

    -- The rounds of `drain_pumps_strict`. It may wait for a slow consumer without end, so that the
    -- fuel can run out.
    unfoldable pub drain_pumps_strict : ℕ → ℕ → List Event → M Strict
    unfolding peer_disconnected poll on_polled on_peer
    drain_pumps_strict zero completed es = λ h. (none, h)
    drain_pumps_strict (suc rounds) completed es = elim (leb cfg.pumps completed) [
      | true ↦ ret (true, false, false)
      | false ↦ do
        gone ← peer_disconnected
        on_peer
            (do
              polled ← poll (cfg.pumps - completed) es
              on_polled (drain_pumps_strict rounds completed)
                  (drain_pumps_strict rounds (suc completed)) polled)
            gone
    ]
