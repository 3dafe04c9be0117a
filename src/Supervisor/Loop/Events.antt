-- ===== src/Supervisor/Loop/Events.antt =====
-- The event loop of `supervise`: what it makes of the events up to the child's exit, and that it
-- runs the group kill once at most.
use forcola.Prelude.{
  ℕ, ◌≡◌, refl, ap, sym, ◌∙◌, List, [], ◌∷◌, ◌++◌, map, Bool, true, false, ◌||◌, Option, none, some,
  ◌==◌, arith, Bool-cases, inl, inr, ◌⊎◌, Option-cases,
}
use forcola.Frame.{Frame, tag_credit, tag_stderr_credit, tag_kill}
use forcola.Credit.{parse_grant}
use forcola.Os.{
  Signal, Pipe, stdout, stderr, grant, close_input, History, Env, IsClock, M, ◌>>=◌, ◌>>◌, ret, act,
}
use forcola.Os.Laws.{>>=-returned}
use forcola.Supervisor.Kill.{kill_group}
use forcola.Supervisor.Kill.Escalation.{signals, IsEscalation, backstop, kill_group-Killed}
use forcola.Supervisor.Drain.{
  Outcome, Event, stdin, stdin_closed, stdin_error, child_exited, child_wait_failed, timed_out,
  tracking_write_failed, Config, grant_credit,
}
use forcola.Supervisor.Loop.{
  Loop, Left, kill_now, stop_unless, stop_group, last_stop, on_stdin, on_event, on_exit, run_loop,
}

-- What an event says, on its own.
abbrev pub is_timeout : Event → Bool
is_timeout timed_out = true
is_timeout _ = false

abbrev pub is_goodbye : Event → Bool
is_goodbye stdin_closed = true
is_goodbye stdin_error = true
is_goodbye _ = false

abbrev pub is_kill : Event → Bool
is_kill (stdin f) = f.tag == tag_kill
is_kill _ = false

-- Whether one of the events before the child's first exit is such an event.
abbrev pub before_exit : (Event → Bool) → List Event → Bool
before_exit p [] = false
before_exit p (child_exited o ∷ es) = false
before_exit p (e ∷ es) = p e || before_exit p es

abbrev pub first_exit : List Event → Option Outcome
first_exit [] = none
first_exit (child_exited o ∷ es) = some o
first_exit (e ∷ es) = first_exit es

module _ (env : Env) (cfg : Config) where
  -- The group kills between two histories: none, or the only one of the run; `s` and `s'` say
  -- whether it has been run, `c` and `c'` what it answered.
  pub data Stopped (h k : History) (s c s' c' : Bool) : Type 0 where
    quiet : signals k ≡ signals h → s' ≡ s → c' ≡ c → Stopped h k s c s' c'
    once :
        (steps : List Signal)
        → s ≡ false
        → s' ≡ true
        → IsEscalation cfg.interrupt_grace c' steps
        → signals k ≡ map (λ x. (cfg.pgid, x)) steps ++ signals h
        → Stopped h k s c s' c'

  Stopped-trans :
      {h k l : History} (s c s' c' s'' c'' : Bool)
      → Stopped h k s c s' c'
      → Stopped k l s' c' s'' c''
      → Stopped h l s c s'' c''
  Stopped-trans s c s' c' s'' c'' (quiet a p q) (quiet b p' q') = quiet (b ∙ a) (p' ∙ p) (q' ∙ q)
  Stopped-trans s c s' c' s'' c'' (quiet a p q) (once steps n y x b) =
      once steps (sym p ∙ n) y x (b ∙ ap (λ t. map (λ z. (cfg.pgid, z)) steps ++ t) a)
  Stopped-trans s c s' c' s'' c'' (once steps n y x a) (quiet b p q) =
      once steps n (p ∙ y) (rw q x) (b ∙ a)
  Stopped-trans s c s' c' s'' c'' (once steps n y x a) (once steps' n' y' x' b) = cc

  signals-backstop :
      (cgroup : Bool) (h : History) → signals (backstop env cfg.pgid cgroup h) ≡ signals h
  signals-backstop true h = refl
  signals-backstop false h = refl

  -- One run of the group kill.
  record Ran (h : History) : Type 0 where
    b : Bool
    after : History
    returns : kill_now env cfg h ≡ (some b, after)
    steps : List Signal
    escalation : IsEscalation cfg.interrupt_grace b steps
    sent : signals after ≡ map (λ x. (cfg.pgid, x)) steps ++ signals h

  kill_now-Ran : (h : History) → IsClock env → Ran h
  unfolding kill_now
  kill_now-Ran h c =
      let (b, e, k) =
        kill_group-Killed env cfg.pgid cfg.kill_grace cfg.cgroup cfg.interrupt_grace h c in
      record {
        b = b;
        after = (kill_group env cfg.pgid cfg.kill_grace cfg.cgroup cfg.interrupt_grace h).1;
        returns =
            ap
              (λ r.
                (r, (kill_group env cfg.pgid cfg.kill_grace cfg.cgroup cfg.interrupt_grace h).1))
              e;
        steps = k.steps;
        escalation = k.escalation;
        sent = ap signals k.at_end ∙ signals-backstop cfg.cgroup k.mid ∙ k.sent;
      }

  -- One arm of the loop that does not break: its locals follow the event, and at most the one group
  -- kill is run.
  record Handled (m : M Loop) (e : Event) (l : Loop) (h : History) : Type 0 where
    l' : Loop
    after : History
    returns : m h ≡ (some l', after)
    timeout_mark : l'.was_timed_out ≡ (is_timeout e || l.was_timed_out)
    gone_mark : l'.beam_gone ≡ (is_goodbye e || l.beam_gone)
    discard_mark :
        l'.discard_output ≡ (is_kill e || is_goodbye e || is_timeout e || l.discard_output)
    stopped :
        Stopped h after l.group_cleanup_started l.group_confirmed l'.group_cleanup_started
          l'.group_confirmed

  module _ (c : IsClock env) where
    -- `stop_group` keeps what it is not about.
    record Stops (l : Loop) (h : History) : Type 0 where
      l' : Loop
      after : History
      returns : stop_group env cfg l h ≡ (some l', after)
      timeout_kept : l'.was_timed_out ≡ l.was_timed_out
      gone_kept : l'.beam_gone ≡ l.beam_gone
      discard_kept : l'.discard_output ≡ l.discard_output
      stopped :
          Stopped h after l.group_cleanup_started l.group_confirmed l'.group_cleanup_started
            l'.group_confirmed

    stop_group-Stops : (l : Loop) (h : History) → Stops l h
    unfolding stop_group stop_unless
    stop_group-Stops l h = elim (Bool-cases l.group_cleanup_started) [
      | inl done ↦ record {
        l' = l;
        after = h;
        returns = ap (λ b. stop_unless env cfg b l h) done;
        timeout_kept = refl;
        gone_kept = refl;
        discard_kept = refl;
        stopped = quiet refl refl refl;
      }
      | inr first ↦
          let r = kill_now-Ran h c in
          record {
            l' = record l { group_cleanup_started = true; group_confirmed = r.b };
            after = r.after;
            returns =
                ap (λ b. stop_unless env cfg b l h) first
                ∙ >>=-returned (kill_now env cfg)
                    (λ confirmed.
                      ret (record l { group_cleanup_started = true; group_confirmed = confirmed }))
                    r.b h r.after r.returns;
            timeout_kept = refl;
            gone_kept = refl;
            discard_kept = refl;
            stopped = once r.steps first refl r.escalation r.sent;
          }
    ]

    -- A terminal event: its marks are set, then the group is stopped.
    terminal :
        (e : Event) (l marked : Loop) (h : History)
        → marked.was_timed_out ≡ (is_timeout e || l.was_timed_out)
        → marked.beam_gone ≡ (is_goodbye e || l.beam_gone)
        → marked.discard_output ≡ (is_kill e || is_goodbye e || is_timeout e || l.discard_output)
        → marked.group_cleanup_started ≡ l.group_cleanup_started
        → marked.group_confirmed ≡ l.group_confirmed
        → Handled (act close_input >> stop_group env cfg marked) e l h
    terminal e l marked h t g d s k =
        let r = stop_group-Stops marked (close_input ∷ h) in
        record {
          l' = r.l';
          after = r.after;
          returns = r.returns;
          timeout_mark = r.timeout_kept ∙ t;
          gone_mark = r.gone_kept ∙ g;
          discard_mark = r.discard_kept ∙ d;
          stopped = Stopped-trans _ _ _ _ _ _ (quiet refl s k) r.stopped;
        }

    grant_credit_quiet :
        (b : Bool) (p : Pipe) (payload : List ℕ) (l : Loop) (h : History)
        → (after : History) × ((do grant_credit b p payload; ret l) h ≡ (some l, after))
          × (signals after ≡ signals h)
    unfolding grant_credit
    grant_credit_quiet true p payload l h = elim (Option-cases (parse_grant payload)) [
      | inl e ↦ (h, rw (e, grant_credit), refl)
      | inr (n, e) ↦ (grant p n ∷ h, rw (e, grant_credit), refl)
    ]
    grant_credit_quiet false p payload l h = (h, refl, refl)

    -- An arm that neither marks nor stops anything.
    harmless :
        (m : M Loop) (e : Event) (l : Loop) (h after : History)
        → m h ≡ (some l, after)
        → signals after ≡ signals h
        → is_timeout e ≡ false
        → is_goodbye e ≡ false
        → is_kill e ≡ false
        → Handled m e l h
    harmless m e l h after r s t g k = record {
      l' = l;
      after = after;
      returns = r;
      timeout_mark = rw t;
      gone_mark = rw g;
      discard_mark = rw (t, g, k);
      stopped = quiet s refl refl;
    }

    on_stdin-Handled :
        (f : Frame) (l : Loop) (h : History) → Handled (on_stdin env cfg f l) (stdin f) l h
    unfolding on_stdin
    on_stdin-Handled f l h = elim (Bool-cases (f.tag == tag_kill)) [
      | inl k ↦
          rw (k, on_stdin)
            (terminal (stdin f) l (record l { discard_output = true }) h refl refl (rw k) refl refl)
      | inr k ↦ elim (Bool-cases (f.tag == tag_credit)) [
        | inl t ↦
            let (after, e, s) = grant_credit_quiet cfg.credit stdout f.payload l h in
            rw (k, t, on_stdin) (harmless _ (stdin f) l h after e s refl refl k)
        | inr t ↦ elim (Bool-cases (f.tag == tag_stderr_credit)) [
          | inl u ↦
              let (after, e, s) = grant_credit_quiet cfg.stderr_credit stderr f.payload l h in
              rw (k, t, u, on_stdin) (harmless _ (stdin f) l h after e s refl refl k)
          | inr u ↦ rw (k, t, u, on_stdin) (harmless _ (stdin f) l h h refl refl refl refl k)
        ]
      ]
    ]

    on_event-Handled :
        (e : Event) (l : Loop) (h : History)
        → first_exit (e ∷ []) ≡ none
        → Handled (on_event env cfg e l) e l h
    unfolding on_event
    on_event-Handled (stdin f) l h x = on_stdin-Handled f l h
    on_event-Handled stdin_closed l h x =
        terminal stdin_closed l (record l { discard_output = true; beam_gone = true }) h refl refl
          refl refl refl
    on_event-Handled stdin_error l h x =
        terminal stdin_error l (record l { discard_output = true; beam_gone = true }) h refl refl
          refl refl refl
    on_event-Handled timed_out l h x =
        terminal timed_out l (record l { discard_output = true; was_timed_out = true }) h refl refl
          refl refl refl
    on_event-Handled child_wait_failed l h x =
        harmless _ child_wait_failed l h h refl refl refl refl refl
    on_event-Handled tracking_write_failed l h x =
        harmless _ tracking_write_failed l h h refl refl refl refl refl
    on_event-Handled (child_exited o) l h x = cc

    -- The whole loop: it ends, with the first exit among the events if there is one; its marks say
    -- which terminal events came before that exit; and the group kill was run at most once in all, and
    -- was run if the child exited.
    pub record Looped (es : List Event) (l : Loop) (h : History) : Type 0 where
      pub left : Left
      pub after : History
      pub returns : run_loop env cfg es l h ≡ (some left, after)
      pub exit : left.exit ≡ first_exit es
      pub timeout_mark : left.locals.was_timed_out ≡ (before_exit is_timeout es || l.was_timed_out)
      pub gone_mark : left.locals.beam_gone ≡ (before_exit is_goodbye es || l.beam_gone)
      pub discard_mark : left.locals.discard_output ≡ (
          before_exit is_kill es
          || before_exit is_goodbye es
          || before_exit is_timeout es
          || l.discard_output)
      pub ran : Bool
      pub stopped :
          Stopped h after l.group_cleanup_started l.group_confirmed ran left.locals.group_confirmed
      pub swept : (first_exit es ≡ none) ⊎ (ran ≡ true)

    exit-Looped :
        (o : Outcome) (es : List Event) (l : Loop) (h : History) → Looped (child_exited o ∷ es) l h
    unfolding run_loop on_exit last_stop
    exit-Looped o es l h = elim (Bool-cases l.group_cleanup_started) [
      | inl done ↦ record {
        left = record { exit = some o; locals = l; events = es };
        after = close_input ∷ h;
        returns =
            >>=-returned (last_stop env cfg l.group_cleanup_started l)
              (λ l'. ret (record { exit = some o; locals = l'; events = es })) l (close_input ∷ h)
              (close_input ∷ h) (ap (λ b. last_stop env cfg b l (close_input ∷ h)) done);
        exit = refl;
        timeout_mark = refl;
        gone_mark = refl;
        discard_mark = refl;
        ran = true;
        stopped = quiet refl (sym done) refl;
        swept = inr refl;
      }
      | inr first ↦
          let r = kill_now-Ran (close_input ∷ h) c in
          let l' : Loop = record l { group_confirmed = r.b } in
          record {
            left = record { exit = some o; locals = l'; events = es };
            after = r.after;
            returns =
                >>=-returned (last_stop env cfg l.group_cleanup_started l)
                  (λ l'. ret (record { exit = some o; locals = l'; events = es })) l'
                  (close_input ∷ h) r.after
                  (ap (λ b. last_stop env cfg b l (close_input ∷ h)) first
                    ∙ >>=-returned (kill_now env cfg)
                        (λ confirmed. ret (record l { group_confirmed = confirmed })) r.b
                        (close_input ∷ h) r.after r.returns);
            exit = refl;
            timeout_mark = refl;
            gone_mark = refl;
            discard_mark = refl;
            ran = true;
            stopped = once r.steps first refl r.escalation r.sent;
            swept = inr refl;
          }
    ]

    or_regroup : (a b d : Bool) → (b || (a || d)) ≡ ((a || b) || d)
    or_regroup true true d = refl
    or_regroup true false d = refl
    or_regroup false b d = refl

    or_regroup_marks :
        (k g t K G T d : Bool)
        → (K || G || T || (k || g || t || d)) ≡ ((k || K) || (g || G) || (t || T) || d)
    or_regroup_marks k g t K G T d = ground arith

    -- One arm, then the rest of the loop.
    join-Looped :
        (e : Event) (es : List Event) (l : Loop) (h : History)
        → run_loop env cfg (e ∷ es) l h ≡ (on_event env cfg e l >>= run_loop env cfg es) h
        → first_exit (e ∷ es) ≡ first_exit es
        → ((p : Event → Bool) → before_exit p (e ∷ es) ≡ (p e || before_exit p es))
        → (hd : Handled (on_event env cfg e l) e l h) → Looped es hd.l' hd.after
        → Looped (e ∷ es) l h
    join-Looped e es l h goes x before hd rest = record {
      left = rest.left;
      after = rest.after;
      returns =
          goes
          ∙ >>=-returned (on_event env cfg e l) (run_loop env cfg es) hd.l' h hd.after hd.returns
          ∙ rest.returns;
      exit = rest.exit ∙ sym x;
      timeout_mark =
          rest.timeout_mark
          ∙ rw (hd.timeout_mark, before) (or_regroup (is_timeout e) (before_exit is_timeout es) _);
      gone_mark =
          rest.gone_mark
          ∙ rw (hd.gone_mark, before) (or_regroup (is_goodbye e) (before_exit is_goodbye es) _);
      discard_mark =
          rest.discard_mark
          ∙ rw (hd.discard_mark, before is_kill, before is_goodbye, before is_timeout)
              (or_regroup_marks (is_kill e) (is_goodbye e) (is_timeout e) (before_exit is_kill es)
                (before_exit is_goodbye es) (before_exit is_timeout es) l.discard_output);
      ran = rest.ran;
      stopped = Stopped-trans _ _ _ _ _ _ hd.stopped rest.stopped;
      swept = rw x rest.swept;
    }

    -- With a clock that does not go back, the event loop ends on every list of events, as `Looped` says:
    -- with the first exit among them, its marks telling which terminal events came before that exit,
    -- and the group kill run once at most in all, and run if the child exited.
    pub run_loop-Looped : (es : List Event) (l : Loop) (h : History) → Looped es l h
    unfolding run_loop
    run_loop-Looped [] l h = record {
      left = record { exit = none; locals = l; events = [] };
      after = h;
      returns = refl;
      exit = refl;
      timeout_mark = refl;
      gone_mark = refl;
      discard_mark = refl;
      ran = l.group_cleanup_started;
      stopped = quiet refl refl refl;
      swept = inl refl;
    }
    run_loop-Looped (child_exited o ∷ es) l h = exit-Looped o es l h
    run_loop-Looped (e ∷ es) l h =
        let hd = on_event-Handled e l h refl in
        join-Looped e es l h refl refl (λ p. refl) hd (run_loop-Looped es hd.l' hd.after)
