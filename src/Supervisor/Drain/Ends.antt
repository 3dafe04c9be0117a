-- ===== src/Supervisor/Drain/Ends.antt =====
-- The bounded waits behind the child's exit come to an end.
use forcola.Prelude.{
  ℕ, zero, suc, ◌+◌, ◌-◌, ◌≡◌, refl, ap, ◌∷◌, true, false, leb, arith, ◌⊎◌, Bool-cases, inl, inr,
}
use forcola.Os.{
  Env, IsClock, ◌>>◌, ret, when, stdout, stderr, ms, cgroup_kill, cgroup_probe, cgroup_remove,
  clock, pump_wait, Done, finished, elapsed, disconnected, cancel,
}
use forcola.Os.Laws.{here, add, Returns, Returns->>=, when-Returns}
use forcola.Supervisor.Wait.{wait_until, wait_until-Ends}
use forcola.Supervisor.Drain.{
  Config, cancel_all, finish_cgroup, cgroup_drained, drain_pumps, drain_rounds,
}

Done-cases : (d : Done) → (d ≡ finished) ⊎ ((d ≡ elapsed) ⊎ (d ≡ disconnected))
Done-cases finished = inl refl
Done-cases elapsed = inr (inl refl)
Done-cases disconnected = inr (inr refl)

module _ (env : Env) where
  drain_rounds-Returns : (pumps deadline : ℕ) → Returns (drain_rounds env pumps deadline)
  unfolding drain_rounds
  drain_rounds-Returns zero deadline h = (true, h, refl)
  drain_rounds-Returns (suc pumps) deadline h =
      let d = deadline - env.now h in
      let (b, k, e) = drain_rounds-Returns pumps deadline (pump_wait d ∷ clock ∷ h) in
      elim (Bool-cases (leb deadline (env.now h))) [
        | inl late ↦ (false, clock ∷ h, rw (late, drain_rounds))
        | inr early ↦ elim (Done-cases (env.pump_done (clock ∷ h) d)) [
          | inl f ↦ (b, k, rw (early, f, drain_rounds) e)
          | inr (inl f) ↦ (false, pump_wait d ∷ clock ∷ h, rw (early, f, drain_rounds))
          | inr (inr f) ↦ (false, pump_wait d ∷ clock ∷ h, rw (early, f, drain_rounds))
        ]
      ]

  pub drain_pumps-Returns : (pumps : ℕ) → Returns (drain_pumps env pumps)
  unfolding drain_pumps
  drain_pumps-Returns pumps h = drain_rounds-Returns pumps _ (clock ∷ h)

  cgroup_drained-Returns :
      (grace : ℕ)
      → IsClock env
      → Returns (wait_until env (grace + ms 500) (ms 20) (cgroup_drained env))
  unfolding cgroup_drained
  cgroup_drained-Returns grace c h =
      let (b, e, _) =
        wait_until-Ends env (grace + ms 500) (ms 20) (cgroup_drained env) h c (omega arith)
          (λ k. add cgroup_probe here) (λ k. (env.drained k, refl)) in
      (
        b,
        (wait_until env (grace + ms 500) (ms 20) (cgroup_drained env) h).1,
        ap (λ r. (r, (wait_until env (grace + ms 500) (ms 20) (cgroup_drained env) h).1)) e,
      )

  pub finish_cgroup-Returns : (grace : ℕ) → IsClock env → Returns (finish_cgroup env grace)
  unfolding finish_cgroup
  finish_cgroup-Returns grace c h =
      Returns->>= (wait_until env (grace + ms 500) (ms 20) (cgroup_drained env))
        (λ b. when b cgroup_remove >> ret b) (cgroup_drained-Returns grace c)
        (λ b.
          Returns->>= (when b cgroup_remove) (λ _. ret b) (when-Returns b cgroup_remove)
            (λ _ k. (b, k, refl)))
        (cgroup_kill ∷ h)

pub cancel_all-Returns : (cfg : Config) → Returns (cancel_all cfg)
unfolding cancel_all
cancel_all-Returns cfg =
    Returns->>= (when cfg.credit (cancel stdout)) (λ _. when cfg.stderr_credit (cancel stderr))
      (when-Returns cfg.credit (cancel stdout))
      (λ _. when-Returns cfg.stderr_credit (cancel stderr))
