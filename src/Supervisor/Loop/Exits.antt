-- ===== src/Supervisor/Loop/Exits.antt =====
-- `supervise` of supervisor.rs: the EXIT frame.
use forcola.Prelude.{
  ℕ, refl, ◌∙◌, List, [], ◌∷◌, Bool, true, false, ◌||◌, not, some, ◌==◌, Bool-cases, inl, inr,
}
use forcola.Frame.{tag_kill, tag_credit, tag_stderr_credit}
use forcola.Os.{
  History, Env, ◌>>=◌, ◌>>◌, ret, act, when, Pipe, stdout, stderr, uncork, close_input,
}
use forcola.Os.Laws.{Keeps, Keeps->>=, Keeps-when, ReadsSends}
use forcola.Supervisor.Kill.Quiet.{kill_group-Keeps}
use forcola.Supervisor.Drain.{
  Event, stdin, stdin_closed, stdin_error, child_exited, child_wait_failed, timed_out,
  tracking_write_failed, Config, grant_credit, cancel_all, drain_pumps, drain_pumps_strict,
}
use forcola.Supervisor.Drain.Quiet.{
  finish_cgroup-Keeps, drain_pumps-Keeps, cancel_all-Keeps, grant_credit-Keeps,
  drain_pumps_strict-Keeps,
}
use forcola.Supervisor.Loop.{
  Loop, Left, kill_now, stop_unless, stop_group, on_stdin, on_event, last_stop, on_exit, run_loop,
  uncork_all, close_cgroup, drain_output,
}

module _ {ℓ} {X : Type ℓ} (env : Env) (cfg : Config) (f : History → X) (q : ReadsSends f) where
  kill_now-Keeps : Keeps f (kill_now env cfg)
  unfolding kill_now
  kill_now-Keeps = kill_group-Keeps env f q cfg.pgid cfg.kill_grace cfg.cgroup cfg.interrupt_grace

  stop_unless-Keeps : (b : Bool) (l : Loop) → Keeps f (stop_unless env cfg b l)
  unfolding stop_unless
  stop_unless-Keeps true l h = refl
  stop_unless-Keeps false l h =
      Keeps->>= f (kill_now env cfg)
        (λ confirmed. ret (record l { group_cleanup_started = true; group_confirmed = confirmed }))
        kill_now-Keeps (λ _ k. refl) h

  last_stop-Keeps : (b : Bool) (l : Loop) → Keeps f (last_stop env cfg b l)
  unfolding last_stop
  last_stop-Keeps true l h = refl
  last_stop-Keeps false l h =
      Keeps->>= f (kill_now env cfg) (λ confirmed. ret (record l { group_confirmed = confirmed }))
        kill_now-Keeps (λ _ k. refl) h

  -- A terminal arm: the input is closed, then the group is stopped.
  closes : (l : Loop) → Keeps f (act close_input >> stop_group env cfg l)
  unfolding stop_group
  closes l h = stop_unless-Keeps l.group_cleanup_started l (close_input ∷ h) ∙ q close_input h refl

  grants_then :
      (b : Bool) (p : Pipe) (payload : List ℕ) (l : Loop)
      → Keeps f (grant_credit b p payload >> ret l)
  grants_then b p payload l =
      Keeps->>= f (grant_credit b p payload) (λ _. ret l) (grant_credit-Keeps env f q b p payload)
        (λ _ h. refl)

  on_event-Keeps : (e : Event) (l : Loop) → Keeps f (on_event env cfg e l)
  unfolding on_event on_stdin
  on_event-Keeps (stdin g) l h = elim (Bool-cases (g.tag == tag_kill)) [
    | inl k ↦ rw (k, on_stdin) (closes (record l { discard_output = true }) h)
    | inr k ↦ elim (Bool-cases (g.tag == tag_credit)) [
      | inl t ↦ rw (k, t, on_stdin) (grants_then cfg.credit stdout g.payload l h)
      | inr t ↦ elim (Bool-cases (g.tag == tag_stderr_credit)) [
        | inl u ↦ rw (k, t, u, on_stdin) (grants_then cfg.stderr_credit stderr g.payload l h)
        | inr u ↦ rw (k, t, u, on_stdin)
      ]
    ]
  ]
  on_event-Keeps stdin_closed l h = closes (record l { discard_output = true; beam_gone = true }) h
  on_event-Keeps stdin_error l h = closes (record l { discard_output = true; beam_gone = true }) h
  on_event-Keeps timed_out l h = closes (record l { discard_output = true; was_timed_out = true }) h
  on_event-Keeps child_wait_failed l h = refl
  on_event-Keeps tracking_write_failed l h = refl
  on_event-Keeps (child_exited o) l h = refl

  pub run_loop-Keeps : (es : List Event) (l : Loop) → Keeps f (run_loop env cfg es l)
  unfolding run_loop on_exit
  run_loop-Keeps [] l h = refl
  run_loop-Keeps (child_exited o ∷ es) l h =
      Keeps->>= f (on_exit env cfg l)
        (λ l'. ret (record { exit = some o; locals = l'; events = es }))
        (λ k. last_stop-Keeps l.group_cleanup_started l (close_input ∷ k) ∙ q close_input k refl)
        (λ _ k. refl) h
  run_loop-Keeps (e ∷ es) l h =
      Keeps->>= f (on_event env cfg e l) (run_loop env cfg es) (on_event-Keeps e l)
        (run_loop-Keeps es) h

  pub uncork_all-Keeps : Keeps f (uncork_all env cfg)
  unfolding uncork_all
  uncork_all-Keeps h = elim (Bool-cases cfg.strict_output) [
    | inl s ↦ rw (s, uncork_all)
    | inr s ↦
        rw (s, uncork_all)
          (Keeps->>= f (when cfg.credit (uncork stdout))
            (λ _. when cfg.stderr_credit (uncork stderr))
            (Keeps-when f cfg.credit (uncork stdout) (λ k. q (uncork stdout) k refl))
            (λ _. Keeps-when f cfg.stderr_credit (uncork stderr) (λ k. q (uncork stderr) k refl)) h)
  ]

  pub close_cgroup-Keeps : Keeps f (close_cgroup env cfg)
  unfolding close_cgroup
  close_cgroup-Keeps h = elim (Bool-cases cfg.cgroup) [
    | inl s ↦ rw (s, close_cgroup) (finish_cgroup-Keeps env f q cfg.kill_grace h)
    | inr s ↦ rw (s, close_cgroup)
  ]

  pub drain_output-Keeps : (rounds : ℕ) (left : Left) → Keeps f (drain_output env cfg rounds left)
  unfolding drain_output
  drain_output-Keeps rounds left h = elim (Bool-cases cfg.strict_output) [
    | inl s ↦ elim (Bool-cases left.locals.discard_output) [
      | inl d ↦
          rw (s, d, drain_output)
            (Keeps->>= {B = Bool × Bool} f (cancel_all cfg)
              (λ _. drain_pumps env cfg.pumps >>= λ _. ret {A = Bool × Bool} (true, false))
              (cancel_all-Keeps env f q cfg)
              (λ _.
                Keeps->>= {B = Bool × Bool} f (drain_pumps env cfg.pumps) (λ _. ret (true, false))
                  (drain_pumps-Keeps env f q cfg.pumps) (λ _ k. refl))
              h)
      | inr d ↦
          rw (s, d, drain_output)
            (Keeps->>= {B = Bool × Bool} f (drain_pumps_strict env cfg rounds 0 left.events)
              (λ (drained, cancelled, vanished). ret (not drained || cancelled, vanished))
              (drain_pumps_strict-Keeps env f q cfg rounds 0 left.events) (λ _ k. refl) h)
    ]
    | inr s ↦
        rw (s, drain_output)
          (Keeps->>= {B = Bool × Bool} f (drain_pumps env cfg.pumps)
            (λ drained. ret (not drained, false)) (drain_pumps-Keeps env f q cfg.pumps)
            (λ _ k. refl) h)
  ]
