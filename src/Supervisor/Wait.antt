-- ===== src/Supervisor/Wait.antt =====
-- `wait_until` of supervisor.rs: a test is polled until it holds or a deadline has passed.
use forcola.Prelude.{
  ℕ, zero, suc, ◌+◌, ◌-◌, ◌≤◌, ◌<◌, ◌≡◌, refl, ap, ◌∙◌, ◌∷◌, Bool, true, false, none, some, leb,
  min, arith, le→leb, lt→leb, Bool-cases, Option-cases, inl, inr,
}
use forcola.Os.{clock, sleep, History, Env, IsClock, M}
use native.Mathlib.Decide.{dec_le}
use forcola.Os.Laws.{Extends, here, add, Grows-trans, now-Grows}

module _ (env : Env) where
  -- The `loop`, with fuel.
  unfoldable pub wait_loop : ℕ → ℕ → ℕ → M Bool → M Bool
  wait_loop zero deadline poll_interval done h = (none, h)
  wait_loop (suc fuel) deadline poll_interval done h =
      let (answer, h₁) = done h in
      elim answer [
        | none ↦ (none, h₁)
        | some true ↦ (some true, h₁)
        | some false ↦
            let now = env.now h₁ in
            elim (leb deadline now) [
              | true ↦ (some false, clock ∷ h₁)
              | false ↦
                  wait_loop fuel deadline poll_interval done
                    (sleep (min poll_interval (deadline - now)) ∷ clock ∷ h₁)
            ]
      ]

  -- Every round that does not end the loop takes a nanosecond at least.
  unfoldable pub wait_until : ℕ → ℕ → M Bool → M Bool
  wait_until timeout poll_interval done h =
      wait_loop (suc timeout) (env.now h + timeout) poll_interval done (clock ∷ h)

  -- After the test's last round nothing is done if it held; if it failed, the clock was read, and
  -- showed the deadline.
  abbrev pub After : ℕ → Bool → History → History → Type 0
  After deadline true tested after = after ≡ tested
  After deadline false tested after = (after ≡ clock ∷ tested) × (deadline ≤ env.now tested)

  pub record Ends (deadline : ℕ) (done : M Bool) (b : Bool) (after : History) : Type 0 where
    pub last : History
    pub answer : (done last).0 ≡ some b
    pub end : After deadline b (done last).1 after

  module _ (deadline poll_interval : ℕ) (done : M Bool) where
    abbrev next : History → History
    next h₁ = sleep (min poll_interval (deadline - env.now h₁)) ∷ clock ∷ h₁

    wait_held :
        (fuel : ℕ) (h : History)
        → (done h).0 ≡ some true
        → wait_loop (suc fuel) deadline poll_interval done h ≡ (some true, (done h).1)
    unfolding wait_loop
    wait_held fuel h e = rw (e, wait_loop)

    wait_late :
        (fuel : ℕ) (h : History)
        → (done h).0 ≡ some false
        → deadline ≤ env.now (done h).1
        → wait_loop (suc fuel) deadline poll_interval done h ≡ (some false, clock ∷ (done h).1)
    unfolding wait_loop
    wait_late fuel h e l = rw (e, wait_loop, le→leb deadline (env.now (done h).1) l)

    wait_more :
        (fuel : ℕ) (h : History)
        → (done h).0 ≡ some false
        → env.now (done h).1 < deadline
        → wait_loop (suc fuel) deadline poll_interval done h
          ≡ wait_loop fuel deadline poll_interval done (next (done h).1)
    unfolding wait_loop
    wait_more fuel h e l = rw (e, wait_loop, lt→leb deadline (env.now (done h).1) l)

    next_later :
        (h₁ : History)
        → IsClock env
        → 0 < poll_interval
        → env.now h₁ < deadline
        → env.now h₁ < env.now (next h₁)
    next_later h₁ c pos l = omega (
      arith,
      c.forward clock h₁,
      c.slept (min poll_interval (deadline - env.now h₁)) (clock ∷ h₁),
    )

    -- The loop ends within its fuel, and says how.
    wait_loop-Ends :
        (fuel : ℕ) (h : History)
        → IsClock env
        → 0 < poll_interval
        → Extends done
        → ((k : History) → (b : Bool) × ((done k).0 ≡ some b))
        → deadline - env.now h < fuel
        → (b : Bool) × ((wait_loop fuel deadline poll_interval done h).0 ≡ some b)
          × Ends deadline done b (wait_loop fuel deadline poll_interval done h).1
    wait_loop-Ends zero h c pos x total enough = absurd (omega arith)
    wait_loop-Ends (suc fuel) h c pos x total enough =
        let (b, e) = total h in
        elim (Bool-cases b) [
          | inl held ↦
              let e' : (done h).0 ≡ some true = e ∙ ap some held in
              rw (wait_held fuel h e') (true, refl, record { last = h; answer = e'; end = refl })
          | inr failed ↦
              let e' : (done h).0 ≡ some false = e ∙ ap some failed in
              elim (dec_le deadline (env.now (done h).1)) [
                | yes l ↦
                    rw (wait_late fuel h e' l)
                      (false, refl, record { last = h; answer = e'; end = (refl, l) })
                | no l ↦ rw (wait_more fuel h e' (omega arith)) (
                    wait_loop-Ends fuel (next (done h).1) c pos x total (
                      omega
                        (arith, now-Grows env c (x h), next_later (done h).1 c pos (omega arith))))
              ]
        ]

    wait_stuck :
        (fuel : ℕ) (h : History)
        → (done h).0 ≡ none
        → wait_loop (suc fuel) deadline poll_interval done h ≡ (none, (done h).1)
    unfolding wait_loop
    wait_stuck fuel h e = rw (e, wait_loop)

    wait_loop-Extends :
        (fuel : ℕ) → Extends done → Extends (wait_loop fuel deadline poll_interval done)
    unfolding wait_loop
    wait_loop-Extends zero x h = here
    wait_loop-Extends (suc fuel) x h = elim (Option-cases (done h).0) [
      | inl e ↦ rw (wait_stuck fuel h e) (x h)
      | inr (true, e) ↦ rw (wait_held fuel h e) (x h)
      | inr (false, e) ↦ elim (dec_le deadline (env.now (done h).1)) [
        | yes l ↦ rw (wait_late fuel h e l) (add clock (x h))
        | no l ↦
            rw (wait_more fuel h e (omega arith))
              (Grows-trans (add _ (add clock (x h))) (wait_loop-Extends fuel x (next (done h).1)))
      ]
    ]

  pub wait_until-Extends :
      (timeout poll_interval : ℕ) (done : M Bool)
      → Extends done
      → Extends (wait_until timeout poll_interval done)
  unfolding wait_until
  wait_until-Extends timeout poll_interval done x h =
      Grows-trans (add clock here)
        (wait_loop-Extends (env.now h + timeout) poll_interval done (suc timeout) x (clock ∷ h))

  -- With a clock that does not go back, a poll with a positive interval and a test that always answers
  -- and only adds to the history ends: with `true` right after a test
  -- that held, or with `false` after a test that failed when the whole timeout had passed.
  pub wait_until-Ends :
      (timeout poll_interval : ℕ) (done : M Bool) (h : History)
      → IsClock env
      → 0 < poll_interval
      → Extends done
      → ((k : History) → (b : Bool) × ((done k).0 ≡ some b))
      → (b : Bool) × ((wait_until timeout poll_interval done h).0 ≡ some b)
        × Ends (env.now h + timeout) done b (wait_until timeout poll_interval done h).1
  unfolding wait_until
  wait_until-Ends timeout poll_interval done h c pos x total =
      wait_loop-Ends (env.now h + timeout) poll_interval done (suc timeout) (clock ∷ h) c pos x
        total (omega (arith, c.forward clock h))

  -- What the test and the waiting leave alone, the poll leaves alone.
  module _ {ℓ} {X : Type ℓ} (f : History → X) (done : M Bool) where
    abbrev pub Quiet : Type ℓ
    Quiet =
        ((h : History) → f (clock ∷ h) ≡ f h)
        × ((d : ℕ) (h : History) → f (sleep d ∷ h) ≡ f h)
        × ((h : History) → f (done h).1 ≡ f h)

    wait_loop-Keeps :
        (deadline poll_interval fuel : ℕ) (h : History)
        → Quiet
        → f (wait_loop fuel deadline poll_interval done h).1 ≡ f h
    unfolding wait_loop
    wait_loop-Keeps deadline poll_interval zero h q = refl
    wait_loop-Keeps deadline poll_interval (suc fuel) h q = elim (Option-cases (done h).0) [
      | inl e ↦ rw (wait_stuck deadline poll_interval done fuel h e) (q.2 h)
      | inr (true, e) ↦ rw (wait_held deadline poll_interval done fuel h e) (q.2 h)
      | inr (false, e) ↦ elim (dec_le deadline (env.now (done h).1)) [
        | yes l ↦ rw (wait_late deadline poll_interval done fuel h e l) (q.0 (done h).1 ∙ q.2 h)
        | no l ↦ rw (wait_more deadline poll_interval done fuel h e (omega arith)) (
            wait_loop-Keeps deadline poll_interval fuel
              (next deadline poll_interval done (done h).1) q
            ∙ q.1 _ (clock ∷ (done h).1)
            ∙ q.0 (done h).1
            ∙ q.2 h)
      ]
    ]

    pub wait_until-Keeps :
        (timeout poll_interval : ℕ) (h : History)
        → Quiet
        → f (wait_until timeout poll_interval done h).1 ≡ f h
    unfolding wait_until
    wait_until-Keeps timeout poll_interval h q =
        wait_loop-Keeps (env.now h + timeout) poll_interval (suc timeout) (clock ∷ h) q ∙ q.0 h
