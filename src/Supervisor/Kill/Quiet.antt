-- ===== src/Supervisor/Kill/Quiet.antt =====
-- `kill_group` of supervisor.rs sends no frame.
use forcola.Prelude.{ℕ, refl, ◌∙◌, ◌∷◌, Bool, true, false, Option, none, some}
use forcola.Os.{
  History, Env, ◌>>◌, ret, when, ms, clock, sleep, cgroup_kill, signal_group, probe_group, int,
  term, kill,
}
use forcola.Os.Laws.{Keeps, Keeps->>=, Keeps-when, ReadsSends}
use forcola.Supervisor.Wait.{wait_until, wait_until-Keeps}
use forcola.Supervisor.Kill.{
  group_gone, group_alive, interrupt, force, after_term, terminate, after_interrupt, kill_group,
}

module _ {ℓ} {X : Type ℓ} (env : Env) (f : History → X) (q : ReadsSends f) where
  wait_gone-Keeps :
      (pgid timeout poll_interval : ℕ)
      → Keeps f (wait_until env timeout poll_interval (group_gone env pgid))
  unfolding group_gone group_alive
  wait_gone-Keeps pgid timeout poll_interval h =
      wait_until-Keeps env f (group_gone env pgid) timeout poll_interval h
        (λ k. q clock k refl, λ d k. q (sleep d) k refl, λ k. q (probe_group pgid) k refl)

  pub kill_group-Keeps :
      (pgid grace : ℕ) (cgroup : Bool) (int_grace : Option ℕ)
      → Keeps f (kill_group env pgid grace cgroup int_grace)
  unfolding kill_group interrupt force after_term terminate after_interrupt
  kill_group-Keeps pgid grace cgroup int_grace =
      Keeps->>= f (interrupt env pgid grace cgroup int_grace)
        (after_interrupt env pgid grace cgroup) (interrupts int_grace) ends
    where
      interrupts : (g : Option ℕ) → Keeps f (interrupt env pgid grace cgroup g)
      interrupts none h = refl
      interrupts (some g) h =
          wait_gone-Keeps pgid g (ms 10) (signal_group pgid int ∷ h) ∙ q _ h refl

      forces : (b : Bool) → Keeps f (force env pgid grace cgroup b)
      forces true h = refl
      forces false h =
          wait_gone-Keeps pgid (ms 500) (ms 10) (signal_group pgid kill ∷ h) ∙ q _ h refl

      back : (b : Bool) → Keeps f (when cgroup cgroup_kill >> ret b)
      back b =
          Keeps->>= f (when cgroup cgroup_kill) (λ _. ret b)
            (Keeps-when f cgroup cgroup_kill (λ h. q cgroup_kill h refl)) (λ _ h. refl)

      after : (b : Bool) → Keeps f (after_term env pgid grace cgroup b)
      after b =
          Keeps->>= f (force env pgid grace cgroup b) (λ b'. when cgroup cgroup_kill >> ret b')
            (forces b) back

      ends : (b : Bool) → Keeps f (after_interrupt env pgid grace cgroup b)
      ends true h = back true h
      ends false h =
          Keeps->>= f (wait_until env grace (ms 20) (group_gone env pgid))
            (after_term env pgid grace cgroup) (wait_gone-Keeps pgid grace (ms 20)) after
            (signal_group pgid term ∷ h)
          ∙ q _ h refl
