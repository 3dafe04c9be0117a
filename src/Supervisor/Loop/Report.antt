-- ===== src/Supervisor/Loop/Report.antt =====
-- `supervise` of supervisor.rs as a whole, with eager output: that it ends, and which EXIT frame it
-- sends.
use forcola.Prelude.{
  ℕ, ◌≡◌, refl, ap, sym, ◌∙◌, List, [], ◌∷◌, ◌++◌, Bool, true, false, ◌||◌, not, Option, none, some,
  ◌==◌, if◌then◌else◌, Option-cases, Bool-cases, inl, inr,
}
use forcola.Frame.{tag_exit}
use forcola.Protocol.{ExitReport}
use forcola.Os.{
  send_frame, History, Env, IsClock, M, ◌>>=◌, ◌>>◌, ret, when, stdout, stderr, uncork,
}
use forcola.Os.Laws.{ReadsSends, Returns, Returns->>=, when-Returns, >>=-returned, Keeps-returned}
use forcola.Supervisor.Drain.{Event, Config, cancel_all, drain_pumps}
use forcola.Supervisor.Drain.Quiet.{cancel_all-Keeps}
use forcola.Supervisor.Drain.Ends.{drain_pumps-Returns, finish_cgroup-Returns, cancel_all-Returns}
use forcola.Supervisor.Loop.{
  Left, run_loop, uncork_all, close_cgroup, drain_output, report, send_report, finish, conclude,
  supervise, fresh, exit_status,
}
use forcola.Supervisor.Loop.Events.{
  is_timeout, is_goodbye, before_exit, first_exit, Looped, run_loop-Looped,
}
use forcola.Supervisor.Loop.Exits.{
  run_loop-Keeps, uncork_all-Keeps, close_cgroup-Keeps, drain_output-Keeps,
}

-- The payloads of the EXIT frames, the newest first.
abbrev pub exits : History → List (List ℕ)
exits [] = []
exits (send_frame tag payload ∷ h) = if tag == tag_exit then payload ∷ exits h else exits h
exits (_ ∷ h) = exits h

exits-ReadsSends : ReadsSends exits
exits-ReadsSends (send_frame tag payload) h e = cc
exits-ReadsSends _ h e = refl

module _ (env : Env) (cfg : Config) where
  uncork_all-Returns : Returns (uncork_all env cfg)
  unfolding uncork_all
  uncork_all-Returns h = elim (Bool-cases cfg.strict_output) [
    | inl s ↦ (tt, h, rw (s, uncork_all))
    | inr s ↦
        rw (s, uncork_all)
          (Returns->>= (when cfg.credit (uncork stdout))
            (λ _. when cfg.stderr_credit (uncork stderr)) (when-Returns cfg.credit (uncork stdout))
            (λ _. when-Returns cfg.stderr_credit (uncork stderr)) h)
  ]

  close_cgroup-Returns : IsClock env → Returns (close_cgroup env cfg)
  unfolding close_cgroup
  close_cgroup-Returns c h = elim (Bool-cases cfg.cgroup) [
    | inl s ↦ rw (s, close_cgroup) (finish_cgroup-Returns env cfg.kill_grace c h)
    | inr s ↦ (true, h, rw (s, close_cgroup))
  ]

  -- Eager output: the BEAM is never found to have vanished here.
  record Drained (rounds : ℕ) (left : Left) (h : History) : Type 0 where
    lost : Bool
    after : History
    returns : drain_output env cfg rounds left h ≡ (some (lost, false), after)

  drain_output-Drained :
      (rounds : ℕ) (left : Left) (h : History) → cfg.strict_output ≡ false → Drained rounds left h
  unfolding drain_output
  drain_output-Drained rounds left h eager =
      let (b, k, e) = drain_pumps-Returns env cfg.pumps h in
      record {
        lost = not b;
        after = k;
        returns =
            rw (eager, drain_output)
              (>>=-returned {B = Bool × Bool} (drain_pumps env cfg.pumps)
                (λ drained. ret (not drained, false)) b h k e);
      }

  module _ (encode : ExitReport → Option (List ℕ)) where
    -- What is sent of a report.
    abbrev pub sent : ExitReport → List (List ℕ)
    sent r = elim (encode r) [ some payload ↦ payload ∷ [] | none ↦ [] ]

    send_report-sent :
        (r : ExitReport) (h : History)
        → (k : History) × (send_report env cfg encode r h ≡ (some tt, k))
          × (exits k ≡ sent r ++ exits h)
    unfolding send_report
    send_report-sent r h = elim (Option-cases (encode r)) [
      | inl e ↦ (h, rw (e, send_report), rw (e, ◌++◌))
      | inr (p, e) ↦ (send_frame tag_exit p ∷ h, rw (e, send_report), rw (e, ◌++◌))
    ]

    -- The report that belongs to a list of events.
    pub record Reports (es : List Event) (r : ExitReport) : Type 0 where
      pub status : r.status ≡ (exit_status env cfg (first_exit es)).status
      pub signal : r.signal ≡ (exit_status env cfg (first_exit es)).signal
      pub timed_out : r.timed_out ≡ before_exit is_timeout es
      pub contained : r.contained ≡ cfg.cgroup

    -- The end of a run behind `h`.
    pub data Concluded (es : List Event) (h : History) : Bool → History → Type 0 where
      silent : {after : History} → exits after ≡ exits h → Concluded es h true after
      reported :
          {after : History} (r : ExitReport)
          → Reports es r
          → exits after ≡ sent r ++ exits h
          → Concluded es h false after

    -- The steps up to `finish` return and send no EXIT frame.
    record Torn (rounds : ℕ) (left : Left) (h : History) : Type 0 where
      b : Bool
      after : History
      goes :
          conclude env cfg encode rounds left h
          ≡ finish env cfg encode rounds left left.locals.beam_gone b after
      kept : exits after ≡ exits h

    conclude-Torn : (rounds : ℕ) (left : Left) (h : History) → IsClock env → Torn rounds left h
    unfolding conclude
    conclude-Torn rounds left h c =
        let (u, k, e) = uncork_all-Returns h in
        let (b, l, d) = close_cgroup-Returns c k in
        let end : Bool → M Bool = finish env cfg encode rounds left left.locals.beam_gone in
        record {
          b = b;
          after = l;
          goes =
              >>=-returned (uncork_all env cfg) (λ _. close_cgroup env cfg >>= end) u h k e
              ∙ >>=-returned (close_cgroup env cfg) end b k l d;
          kept =
              Keeps-returned exits (close_cgroup env cfg) b k l
                (close_cgroup-Keeps env cfg exits exits-ReadsSends) d
              ∙ Keeps-returned exits (uncork_all env cfg) u h k
                  (uncork_all-Keeps env cfg exits exits-ReadsSends) e;
        }

    silent_end :
        (rounds : ℕ) (left : Left) (b : Bool) (h : History)
        → (after : History) × (finish env cfg encode rounds left true b h ≡ (some true, after))
          × (exits after ≡ exits h)
    unfolding finish
    silent_end rounds left b h =
        let (v, m, x) = cancel_all-Returns cfg h in
        (
          m,
          >>=-returned (cancel_all cfg) (λ _. ret true) v h m x,
          Keeps-returned exits (cancel_all cfg) v h m
              (cancel_all-Keeps env exits exits-ReadsSends cfg) x,
        )

    reported_end :
        (rounds : ℕ) (left : Left) (b : Bool) (h : History)
        → cfg.strict_output ≡ false
        → (after : History) × (lost : Bool) × (finish env cfg encode rounds left false b h
            ≡ (some false, after))
          × (exits after ≡ sent (report env cfg left b lost) ++ exits h)
    unfolding finish
    reported_end rounds left b h eager =
        let out = drain_output-Drained rounds left h eager in
        let (m, x, y) = send_report-sent (report env cfg left b out.lost) out.after in
        (
          m,
          out.lost,
          >>=-returned {A = Bool × Bool} (drain_output env cfg rounds left)
                (λ (output_truncated, vanished). elim vanished [
                  | true ↦ ret true
                  | false ↦ do
                    send_report env cfg encode (report env cfg left b output_truncated)
                    ret false
                ])
                (out.lost, false) h out.after out.returns
              ∙ >>=-returned (send_report env cfg encode (report env cfg left b out.lost))
                  (λ _. ret false) tt out.after m x,
          y
              ∙ ap (λ t. sent (report env cfg left b out.lost) ++ t)
                  (Keeps-returned {A = Bool × Bool} exits (drain_output env cfg rounds left)
                    (out.lost, false) h out.after
                    (drain_output-Keeps env cfg exits exits-ReadsSends rounds left) out.returns),
        )

    or_false : (b : Bool) → (b || false) ≡ b
    or_false true = refl
    or_false false = refl

    report-Reports :
        (es : List Event) (h : History) (c : IsClock env) (r : Looped env cfg c es fresh h)
        (b lost : Bool)
        → Reports es (report env cfg r.left b lost)
    unfolding report
    report-Reports es h c r b lost = record {
      status = ap (λ x. (exit_status env cfg x).status) r.exit;
      signal = ap (λ x. (exit_status env cfg x).signal) r.exit;
      timed_out = r.timeout_mark ∙ or_false (before_exit is_timeout es);
      contained = refl;
    }

    -- With eager output and a clock that does not go back `supervise` ends on every list of events. It says that the
    -- BEAM is gone if stdin closed or broke before the child's exit, and then sends no EXIT frame;
    -- otherwise it sends one, when the encoder gives its payload, whose report has the status of the
    -- first exit (neither code nor signal when the channel closed before), the timeout's mark just
    -- when the timeout came before the exit, and `contained` just with a cgroup.
    pub supervise-Concluded :
        (rounds : ℕ) (es : List Event) (h : History)
        → IsClock env
        → cfg.strict_output ≡ false
        → (after : History) × (supervise env cfg encode rounds es h
            ≡ (some (before_exit is_goodbye es), after))
          × Concluded es h (before_exit is_goodbye es) after
    unfolding supervise
    supervise-Concluded rounds es h c eager =
        let r = run_loop-Looped env cfg c es fresh h in
        let torn = conclude-Torn rounds r.left r.after c in
        let gone = r.gone_mark ∙ or_false (before_exit is_goodbye es) in
        let goes =
          >>=-returned (run_loop env cfg es fresh) (conclude env cfg encode rounds) r.left h r.after
            r.returns
          ∙ torn.goes in
        let kept =
          torn.kept
          ∙ Keeps-returned exits (run_loop env cfg es fresh) r.left h r.after
              (run_loop-Keeps env cfg exits exits-ReadsSends es fresh) r.returns in
        elim (Bool-cases (before_exit is_goodbye es)) [
          | inl g ↦
              let (k, e, s) = silent_end rounds r.left torn.b torn.after in
              (
                k,
                goes
                    ∙ ap (λ x. finish env cfg encode rounds r.left x torn.b torn.after) (gone ∙ g)
                    ∙ e
                    ∙ ap (λ x. (some x, k)) (sym g),
                rw g (silent (s ∙ kept)),
              )
          | inr g ↦
              let (k, lost, e, s) = reported_end rounds r.left torn.b torn.after eager in
              (
                k,
                goes
                    ∙ ap (λ x. finish env cfg encode rounds r.left x torn.b torn.after) (gone ∙ g)
                    ∙ e
                    ∙ ap (λ x. (some x, k)) (sym g),
                rw g (
                    reported (report env cfg r.left torn.b lost)
                      (report-Reports es h c r torn.b lost)
                      (s ∙ ap (λ t. sent (report env cfg r.left torn.b lost) ++ t) kept)),
              )
        ]
