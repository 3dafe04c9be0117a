-- ===== src/Supervisor/Kill/Escalation.antt =====
-- What `kill_group` sends, when it stops, and what its answer means.
use forcola.Prelude.{
  ℕ, ◌<◌, ◌≡◌, refl, ap, ◌∙◌, List, [], ◌∷◌, ◌++◌, map, Bool, true, false, not, Option, none, some,
  arith, Bool-cases, inl, inr, ◌⊎◌,
}
use forcola.Os.{
  Signal, int, term, kill, clock, signal_group, probe_group, cgroup_kill, History, Env, IsClock,
  ◌>>◌, ret, when, ms,
}
use forcola.Os.Laws.{here, add, >>=-returned}
use forcola.Supervisor.Wait.{wait_until, Ends, wait_until-Ends, wait_until-Keeps}
use forcola.Supervisor.Kill.{
  probe_says_alive, group_alive, group_gone, after_term, terminate, after_interrupt, kill_group,
}

-- The signals of a history with their groups, the newest first.
abbrev pub signals : History → List (ℕ × Signal)
signals [] = []
signals (signal_group pgid s ∷ h) = (pgid, s) ∷ signals h
signals (_ ∷ h) = signals h

-- The signals of one run, the newest first: SIGINT only with an interrupt grace, SIGTERM unless the
-- group was gone before, SIGKILL only if SIGTERM's grace did not do, and always before a `false`.
pub data IsEscalation : Option ℕ → Bool → List Signal → Type 0 where
  interrupted : {g : ℕ} → IsEscalation (some g) true (int ∷ [])
  terminated : IsEscalation none true (term ∷ [])
  terminated_late : {g : ℕ} → IsEscalation (some g) true (term ∷ int ∷ [])
  killed : {b : Bool} → IsEscalation none b (kill ∷ term ∷ [])
  killed_late : {g : ℕ} {b : Bool} → IsEscalation (some g) b (kill ∷ term ∷ int ∷ [])

module _ (env : Env) (pgid : ℕ) where
  -- The answer is that of the last probe of the group.
  pub record Seen (b : Bool) (after : History) : Type 0 where
    pub last : History
    pub answer : b ≡ not (probe_says_alive (env.probe last pgid))
    pub at_end : (after ≡ probe_group pgid ∷ last) ⊎ (after ≡ clock ∷ probe_group pgid ∷ last)

  -- A wait for the group to go, whose answer is `b`.
  record Waited (timeout poll_interval : ℕ) (h : History) : Type 0 where
    b : Bool
    after : History
    returns : wait_until env timeout poll_interval (group_gone env pgid) h ≡ (some b, after)
    seen : Seen b after
    silent : signals after ≡ signals h

  waits :
      (timeout poll_interval : ℕ) (h : History)
      → IsClock env
      → 0 < poll_interval
      → Waited timeout poll_interval h
  unfolding group_gone group_alive
  waits timeout poll_interval h c pos =
      let (b, e, ends) =
        wait_until-Ends env timeout poll_interval (group_gone env pgid) h c pos
          (λ k. add (probe_group pgid) here)
          (λ k. (not (probe_says_alive (env.probe k pgid)), refl)) in
      record {
        b = b;
        after = (wait_until env timeout poll_interval (group_gone env pgid) h).1;
        returns = ap (λ r. (r, (wait_until env timeout poll_interval (group_gone env pgid) h).1)) e;
        seen = seen_at b ends;
        silent =
            wait_until-Keeps env signals (group_gone env pgid) timeout poll_interval h
              (λ k. refl, λ d k. refl, λ k. refl);
      }
    where
      seen_at :
          {deadline : ℕ} {after : History} (b : Bool)
          → Ends env deadline (group_gone env pgid) b after
          → Seen b after
      seen_at true e = record {
        last = e.last;
        answer = ground (arith, e.answer);
        at_end = inl e.end;
      }
      seen_at false e = record {
        last = e.last;
        answer = ground (arith, e.answer);
        at_end = inr (e.end.0);
      }

  -- The `cgroup.kill` behind the group kill, if there is a cgroup.
  abbrev pub backstop : Bool → History → History
  backstop true h = cgroup_kill ∷ h
  backstop false h = h

  -- One run of `kill_group` from `h`, with the answer `b`.
  pub record Killed (cgroup : Bool) (int_grace : Option ℕ) (b : Bool) (h after : History)
      : Type 0 where
    pub steps : List Signal
    pub escalation : IsEscalation int_grace b steps
    pub mid : History
    pub sent : signals mid ≡ map (λ s. (pgid, s)) steps ++ signals h
    pub seen : Seen b mid
    pub at_end : after ≡ backstop cgroup mid

  module _ (grace : ℕ) (cgroup : Bool) where
    -- The two ways behind a wait that said yes.
    after_term_yes :
        (k : History) → after_term env pgid grace cgroup true k ≡ (some true, backstop cgroup k)
    unfolding after_term
    after_term_yes k = ground arith

    after_interrupt_yes :
        (k : History)
        → after_interrupt env pgid grace cgroup true k ≡ (some true, backstop cgroup k)
    unfolding after_interrupt
    after_interrupt_yes k = ground arith

    after_force :
        (b : Bool) (k : History)
        → (do when cgroup cgroup_kill; ret b) k ≡ (some b, backstop cgroup k)
    after_force b k = ground arith

    module _ (c : IsClock env) where
      -- SIGKILL, and a wait of half a second.
      after_term_no :
          (h : History)
          → (w : Waited (ms 500) (ms 10) (signal_group pgid kill ∷ h)) × (after_term env pgid grace
                cgroup false h
              ≡ (some w.b, backstop cgroup w.after))
      unfolding after_term
      after_term_no h =
          let w = waits (ms 500) (ms 10) (signal_group pgid kill ∷ h) c (omega arith) in
          (
            w,
            >>=-returned (wait_until env (ms 500) (ms 10) (group_gone env pgid))
                  (λ b. when cgroup cgroup_kill >> ret b) w.b (signal_group pgid kill ∷ h) w.after
                  w.returns
                ∙ after_force w.b w.after,
          )

      -- From SIGTERM on, behind what was sent before.
      record Ended (h : History) : Type 0 where
        b : Bool
        mid : History
        steps : List Signal
        returns : terminate env pgid grace cgroup h ≡ (some b, backstop cgroup mid)
        seen : Seen b mid
        sent : signals mid ≡ map (λ s. (pgid, s)) steps ++ signals h
        which : ((b ≡ true) × (steps ≡ term ∷ [])) ⊎ (steps ≡ kill ∷ term ∷ [])

      terminate-Ended : (h : History) → Ended h
      unfolding terminate
      terminate-Ended h =
          let w = waits grace (ms 20) (signal_group pgid term ∷ h) c (omega arith) in
          let goes : terminate env pgid grace cgroup h
              ≡ after_term env pgid grace cgroup w.b w.after =
            >>=-returned (wait_until env grace (ms 20) (group_gone env pgid))
              (after_term env pgid grace cgroup) w.b (signal_group pgid term ∷ h) w.after
              w.returns in
          elim (Bool-cases w.b) [
            | inl t ↦ record {
              b = true;
              mid = w.after;
              steps = term ∷ [];
              returns =
                  goes
                  ∙ ap (λ b. after_term env pgid grace cgroup b w.after) t
                  ∙ after_term_yes w.after;
              seen = rw t at w.seen;
              sent = w.silent;
              which = inl (refl, refl);
            }
            | inr f ↦
                let (v, e) = after_term_no w.after in
                record {
                  b = v.b;
                  mid = v.after;
                  steps = kill ∷ term ∷ [];
                  returns = goes ∙ ap (λ b. after_term env pgid grace cgroup b w.after) f ∙ e;
                  seen = v.seen;
                  sent = v.silent ∙ ap (λ l. (pgid, kill) ∷ l) w.silent;
                  which = inr refl;
                }
          ]

      kill_group_none :
          (h : History) (e : Ended h) → Killed cgroup none e.b h (backstop cgroup e.mid)
      kill_group_none h e = record {
        steps = e.steps;
        escalation = elim e.which [ inl (t, s) ↦ rw (t, s) terminated | inr s ↦ rw s killed ];
        mid = e.mid;
        sent = e.sent;
        seen = e.seen;
        at_end = refl;
      }

      kill_group_late :
          (g : ℕ) (h k : History) (e : Ended k)
          → signals k ≡ (pgid, int) ∷ signals h
          → Killed cgroup (some g) e.b h (backstop cgroup e.mid)
      kill_group_late g h k e silent = record {
        steps = e.steps ++ (int ∷ []);
        escalation = elim e.which [
          | inl (t, s) ↦ rw (t, s) terminated_late
          | inr s ↦ rw s killed_late
        ];
        mid = e.mid;
        sent = elim e.which [
          | inl (t, s) ↦ e.sent ∙ rw (s, silent)
          | inr s ↦ e.sent ∙ rw (s, silent)
        ];
        seen = e.seen;
        at_end = refl;
      }

  -- With a clock that does not go back `kill_group` returns, whatever the group does: it sends the signals of an escalation and no
  -- others, answers what its last probe of the group said, answers `false` only behind a SIGKILL,
  -- and with a cgroup writes `cgroup.kill` last.
  pub kill_group-Killed :
      (grace : ℕ) (cgroup : Bool) (int_grace : Option ℕ) (h : History)
      → IsClock env
      → (b : Bool) × ((kill_group env pgid grace cgroup int_grace h).0 ≡ some b)
        × Killed cgroup int_grace b h (kill_group env pgid grace cgroup int_grace h).1
  unfolding kill_group
  kill_group-Killed grace cgroup none h c =
      let e = terminate-Ended grace cgroup c h in
      (e.b, ap (λ r. r.0) e.returns, rw (e.returns) (kill_group_none grace cgroup c h e))
  kill_group-Killed grace cgroup (some g) h c =
      let w = waits g (ms 10) (signal_group pgid int ∷ h) c (omega arith) in
      let goes : kill_group env pgid grace cgroup (some g) h
          ≡ after_interrupt env pgid grace cgroup w.b w.after =
        >>=-returned (wait_until env g (ms 10) (group_gone env pgid))
          (after_interrupt env pgid grace cgroup) w.b (signal_group pgid int ∷ h) w.after
          w.returns in
      elim (Bool-cases w.b) [
        | inl t ↦
            let done =
              goes
              ∙ ap (λ b. after_interrupt env pgid grace cgroup b w.after) t
              ∙ after_interrupt_yes grace cgroup w.after in
            (
              true,
              ap (λ r. r.0) done,
              rw done (record {
                steps = int ∷ [];
                escalation = interrupted;
                mid = w.after;
                sent = w.silent;
                seen = rw t at w.seen;
                at_end = refl;
              }),
            )
        | inr f ↦
            let e = terminate-Ended grace cgroup c w.after in
            let done =
              goes ∙ ap (λ b. after_interrupt env pgid grace cgroup b w.after) f ∙ e.returns in
            (
              e.b,
              ap (λ r. r.0) done,
              rw done (kill_group_late grace cgroup c g h w.after e w.silent),
            )
      ]
