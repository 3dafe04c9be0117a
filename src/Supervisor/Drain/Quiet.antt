-- ===== src/Supervisor/Drain/Quiet.antt =====
-- The waits behind the child's exit send no frame.
use forcola.Prelude.{
  ℕ, zero, suc, ◌+◌, ◌-◌, refl, ◌∙◌, List, [], ◌∷◌, Bool, true, false, Option, none, some, ◌==◌,
  leb, arith, Option-cases, Bool-cases, inl, inr,
}
use forcola.Frame.{tag_kill, tag_credit, tag_stderr_credit}
use forcola.Credit.{parse_grant}
use forcola.Os.{
  History, Env, M, ◌>>=◌, ◌>>◌, ret, when, ms, clock, sleep, cgroup_kill, Pipe, grant, pump_wait,
  cgroup_probe, cgroup_remove, cancel, stdout, stderr, Done, finished, elapsed, disconnected,
  peer_probe, poll_event,
}
use forcola.Os.Laws.{Keeps, Keeps->>=, Keeps-when, ReadsSends}
use forcola.Supervisor.Wait.{wait_until, wait_until-Keeps}
use forcola.Supervisor.Drain.{
  Event, stdin, stdin_closed, stdin_error, child_exited, child_wait_failed, timed_out,
  tracking_write_failed, Config, grant_credit, cancel_all, cgroup_drained, finish_cgroup,
  drain_rounds, drain_pumps, on_drain_event, resume, on_answer, on_polled, on_peer,
  peer_disconnected, poll, recv_done, drain_pumps_strict, Polled, over, more, Strict,
}

module _ {ℓ} {X : Type ℓ} (env : Env) (f : History → X) (q : ReadsSends f) where
  pub finish_cgroup-Keeps : (grace : ℕ) → Keeps f (finish_cgroup env grace)
  unfolding finish_cgroup cgroup_drained
  finish_cgroup-Keeps grace h =
      Keeps->>= f (wait_until env (grace + ms 500) (ms 20) (cgroup_drained env))
        (λ b. when b cgroup_remove >> ret b)
        (λ k.
          wait_until-Keeps env f (cgroup_drained env) (grace + ms 500) (ms 20) k
            (λ k. q clock k refl, λ d k. q (sleep d) k refl, λ k. q cgroup_probe k refl))
        (λ b.
          Keeps->>= f (when b cgroup_remove) (λ _. ret b)
            (Keeps-when f b cgroup_remove (λ k. q cgroup_remove k refl)) (λ _ k. refl))
        (cgroup_kill ∷ h)
      ∙ q cgroup_kill h refl

  drain_rounds-Keeps : (pumps deadline : ℕ) → Keeps f (drain_rounds env pumps deadline)
  unfolding drain_rounds
  drain_rounds-Keeps zero deadline h = refl
  drain_rounds-Keeps (suc pumps) deadline h =
      let now = env.now h in
      let waited = q (pump_wait (deadline - now)) (clock ∷ h) refl ∙ q clock h refl in
      ground (
        arith,
        drain_rounds-Keeps pumps deadline (pump_wait (deadline - now) ∷ clock ∷ h) ∙ waited,
        waited,
        q clock h refl,
      )

  pub drain_pumps-Keeps : (pumps : ℕ) → Keeps f (drain_pumps env pumps)
  unfolding drain_pumps
  drain_pumps-Keeps pumps h = drain_rounds-Keeps pumps _ (clock ∷ h) ∙ q clock h refl

  pub cancel_all-Keeps : (cfg : Config) → Keeps f (cancel_all cfg)
  unfolding cancel_all
  cancel_all-Keeps cfg =
      Keeps->>= f (when cfg.credit (cancel stdout)) (λ _. when cfg.stderr_credit (cancel stderr))
        (Keeps-when f cfg.credit (cancel stdout) (λ h. q (cancel stdout) h refl))
        (λ _. Keeps-when f cfg.stderr_credit (cancel stderr) (λ h. q (cancel stderr) h refl))

  pub grant_credit-Keeps :
      (b : Bool) (p : Pipe) (payload : List ℕ) → Keeps f (grant_credit b p payload)
  unfolding grant_credit
  grant_credit-Keeps true p payload h = elim (Option-cases (parse_grant payload)) [
    | inl e ↦ rw (e, grant_credit)
    | inr (n, e) ↦ rw (e, grant_credit) (q (grant p n) h refl)
  ]
  grant_credit-Keeps false p payload h = refl

  resume-Keeps : (rest : M Polled) → Keeps f rest → (r : Option Strict) → Keeps f (resume rest r)
  unfolding resume
  resume-Keeps rest k (some s) h = refl
  resume-Keeps rest k none h = k h

  module _ (cfg : Config) where
    gives_up : (s : Strict) → Keeps f (cancel_all cfg >> ret s)
    gives_up s = Keeps->>= f (cancel_all cfg) (λ _. ret s) (cancel_all-Keeps cfg) (λ _ h. refl)

    stops : (s : Strict) → Keeps f (cancel_all cfg >> ret (some s))
    stops s = Keeps->>= f (cancel_all cfg) (λ _. ret (some s)) (cancel_all-Keeps cfg) (λ _ h. refl)

    grants_on :
        (b : Bool) (p : Pipe) (payload : List ℕ)
        → Keeps f (grant_credit b p payload >> ret {A = Option Strict} none)
    grants_on b p payload =
        Keeps->>= f (grant_credit b p payload) (λ _. ret none) (grant_credit-Keeps b p payload)
          (λ _ h. refl)

    on_kill :
        (left : ℕ)
        → Keeps f (do
          cancel_all cfg
          drained ← drain_pumps env left
          ret {A = Option Strict} (some (drained, true, false)))
    on_kill left =
        Keeps->>= f (cancel_all cfg)
          (λ _. drain_pumps env left >>= λ d. ret {A = Option Strict} (some (d, true, false)))
          (cancel_all-Keeps cfg)
          (λ _.
            Keeps->>= {B = Option Strict} f (drain_pumps env left)
              (λ d. ret (some (d, true, false))) (drain_pumps-Keeps left) (λ _ h. refl))

    on_drain_event-Keeps : (left : ℕ) (e : Event) → Keeps f (on_drain_event env cfg left e)
    unfolding on_drain_event
    on_drain_event-Keeps left (stdin g) h = elim (Bool-cases (g.tag == tag_credit)) [
      | inl a ↦ rw (a, on_drain_event) (grants_on cfg.credit stdout g.payload h)
      | inr a ↦ elim (Bool-cases (g.tag == tag_stderr_credit)) [
        | inl b ↦ rw (a, b, on_drain_event) (grants_on cfg.stderr_credit stderr g.payload h)
        | inr b ↦ elim (Bool-cases (g.tag == tag_kill)) [
          | inl k ↦ rw (a, b, k, on_drain_event) (on_kill left h)
          | inr k ↦ rw (a, b, k, on_drain_event)
        ]
      ]
    ]
    on_drain_event-Keeps left stdin_closed h = stops (false, true, true) h
    on_drain_event-Keeps left stdin_error h = stops (false, true, true) h
    on_drain_event-Keeps left tracking_write_failed h = stops (false, true, true) h
    on_drain_event-Keeps left timed_out h = refl
    on_drain_event-Keeps left child_wait_failed h = refl
    on_drain_event-Keeps left (child_exited o) h = refl

    poll-Keeps : (left : ℕ) (es : List Event) → Keeps f (poll env cfg left es)
    unfolding poll
    poll-Keeps left [] h = q poll_event h refl
    poll-Keeps left (e ∷ es) h = elim (Bool-cases (env.ready h)) [
      | inl r ↦
          rw (r, poll)
            (Keeps->>= f (on_drain_event env cfg left e) (resume (poll env cfg left es))
                (on_drain_event-Keeps left e)
                (resume-Keeps (poll env cfg left es) (poll-Keeps left es)) (poll_event ∷ h)
              ∙ q poll_event h refl)
      | inr r ↦ rw (r, poll) (q poll_event h refl)
    ]

    peer_disconnected-Keeps : Keeps f (peer_disconnected env cfg)
    unfolding peer_disconnected
    peer_disconnected-Keeps h = ground (arith, q peer_probe h refl)

    on_polled-Keeps :
        (again next : List Event → M Strict)
        → ((es : List Event) → Keeps f (again es))
        → ((es : List Event) → Keeps f (next es))
        → (p : Polled) → Keeps f (on_polled env cfg again next p)
    unfolding on_polled on_answer recv_done
    on_polled-Keeps again next a n (over s) h = refl
    on_polled-Keeps again next a n (more es) h =
        Keeps->>= f (recv_done env (ms 10)) (on_answer env cfg (again es) (next es))
          (λ k. q (pump_wait (ms 10)) k refl) answers h
      where
        answers : (d : Done) → Keeps f (on_answer env cfg (again es) (next es) d)
        answers finished = n es
        answers elapsed = a es
        answers disconnected = λ k. refl

    on_peer-Keeps : (rest : M Strict) → Keeps f rest → (b : Bool) → Keeps f (on_peer env cfg rest b)
    unfolding on_peer
    on_peer-Keeps rest r true = gives_up (false, true, true)
    on_peer-Keeps rest r false = r

    pub drain_pumps_strict-Keeps :
        (rounds completed : ℕ) (es : List Event)
        → Keeps f (drain_pumps_strict env cfg rounds completed es)
    unfolding drain_pumps_strict
    drain_pumps_strict-Keeps zero completed es h = refl
    drain_pumps_strict-Keeps (suc rounds) completed es h =
        elim (Bool-cases (leb cfg.pumps completed)) [
          | inl all ↦ rw (all, drain_pumps_strict)
          | inr some_left ↦
              rw (some_left, drain_pumps_strict)
                (Keeps->>= f (peer_disconnected env cfg)
                  (on_peer env cfg (
                    poll env cfg (cfg.pumps - completed) es
                    >>= on_polled env cfg (drain_pumps_strict env cfg rounds completed)
                        (drain_pumps_strict env cfg rounds (suc completed))))
                  peer_disconnected-Keeps
                  (on_peer-Keeps _ (
                    Keeps->>= f (poll env cfg (cfg.pumps - completed) es)
                      (on_polled env cfg (drain_pumps_strict env cfg rounds completed)
                        (drain_pumps_strict env cfg rounds (suc completed)))
                      (poll-Keeps (cfg.pumps - completed) es)
                      (on_polled-Keeps (drain_pumps_strict env cfg rounds completed)
                        (drain_pumps_strict env cfg rounds (suc completed))
                        (drain_pumps_strict-Keeps rounds completed)
                        (drain_pumps_strict-Keeps rounds (suc completed)))))
                  h)
        ]
