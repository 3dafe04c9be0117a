-- ===== src/Groups/Stopping.antt =====
-- The stages of `stop` of groups.rs end.
use forcola.Prelude.{
  ℕ, zero, suc, ◌+◌, ◌-◌, ◌<◌, ◌≡◌, refl, List, [], ◌∷◌, Option, some, min, leb, Bool-cases, inl,
  inr, arith, leb→lt,
}
use forcola.Os.{Signal, clock, sleep, History, Env, IsClock, ◌>>=◌}
use forcola.Os.Laws.{Grows, here, add, Grows-trans, now-Grows}
use forcola.Groups.{
  Recorded, State, any_present, poll, observe_all, signal_all, refresh, settled, settle, settle_for,
  run_stages, stages, stop,
}
use forcola.Groups.Seen.{AllBacked, AllBacked-Grows}
use forcola.Groups.Safety.{Justified, start, other}
use forcola.Groups.Observing.{Yields, ret-Yields, bind-Yields}
use forcola.Groups.Backing.{observe_all-Yields, refresh-Yields}
use forcola.Groups.Signalling.{signal_all-FineAt}

module _ (env : Env) (rs : List Recorded) (c : IsClock env) where
  abbrev Backs : List State → History → Type 0
  Backs xs h = AllBacked env rs h xs

  -- Each round that goes on brings the deadline nearer, or is the last but one.
  settled-Yields :
      (fuel deadline : ℕ) (xs : List State) (h : History)
      → ((k : History)
          → deadline - env.now k < fuel
          → Backs xs k
          → Yields env rs Backs (settle env rs fuel deadline xs) k)
      → deadline - env.now h < suc fuel
      → Backs xs h
      → Yields env rs Backs (settled env (settle env rs fuel deadline) deadline xs) h
  unfolding settled
  settled-Yields fuel deadline xs h again enough b = elim (Bool-cases (any_present xs)) [
    | inr none_left ↦ (
      record {
        answer = xs;
        after = h;
        returns = rw (none_left, settled);
        grows = here;
        justified = λ j. j;
      },
      b,
    )
    | inl some_left ↦ elim (Bool-cases (leb deadline (env.now h))) [
      | inl late ↦ (
        record {
          answer = xs;
          after = clock ∷ h;
          returns = rw (some_left, late, settled);
          grows = add clock here;
          justified = other clock refl;
        },
        AllBacked-Grows env rs xs (add clock here) b,
      )
      | inr early ↦
          let k = sleep (min poll (deadline - env.now (clock ∷ h))) ∷ clock ∷ clock ∷ h in
          let g : Grows h k = add _ (add clock (add clock here)) in
          let (x, b') =
            again k
              (omega (
                arith,
                leb→lt deadline (env.now h) early,
                c.forward clock h,
                c.forward clock (clock ∷ h),
                c.slept (min poll (deadline - env.now (clock ∷ h))) (clock ∷ clock ∷ h),
              ))
              (AllBacked-Grows env rs xs g b) in
          (
            record {
              answer = x.answer;
              after = x.after;
              returns = rw (some_left, early, settled) x.returns;
              grows = Grows-trans g x.grows;
              justified = λ j. x.justified (other _ refl (other clock refl (other clock refl j)));
            },
            b',
          )
    ]
  ]

  settle-Yields :
      (fuel deadline : ℕ) (xs : List State) (h : History)
      → deadline - env.now h < fuel
      → Backs xs h
      → Yields env rs Backs (settle env rs fuel deadline xs) h
  unfolding settle
  settle-Yields zero deadline xs h enough b = absurd (omega arith)
  settle-Yields (suc fuel) deadline xs h enough b =
      let (x, b') = refresh-Yields env rs rs xs h b in
      bind-Yields env rs Backs (refresh env rs xs)
        (settled env (settle env rs fuel deadline) deadline) h x
        (settled-Yields fuel deadline x.answer x.after
          (λ k e d. settle-Yields fuel deadline x.answer k e d)
          (omega (arith, now-Grows env c x.grows)) b')

  settle_for-Yields :
      (grace : ℕ) (xs : List State) (h : History)
      → Backs xs h
      → Yields env rs Backs (settle_for env rs grace xs) h
  unfolding settle_for
  settle_for-Yields grace xs h b =
      let (x, b') =
        settle-Yields (suc grace) (env.now h + grace) xs (clock ∷ h)
          (omega (arith, c.forward clock h)) (AllBacked-Grows env rs xs (add clock here) b) in
      (
        record {
          answer = x.answer;
          after = x.after;
          returns = x.returns;
          grows = Grows-trans (add clock here) x.grows;
          justified = λ j. x.justified (other clock refl j);
        },
        b',
      )

  run_stages-Yields :
      (ss : List (Signal × ℕ)) (xs : List State) (h : History)
      → Backs xs h
      → Yields env rs Backs (run_stages env rs ss xs) h
  unfolding run_stages
  run_stages-Yields [] xs h b = ret-Yields env rs Backs xs h b
  run_stages-Yields (stage ∷ ss) xs h b = elim (Bool-cases (any_present xs)) [
    | inr none_left ↦ rw none_left (ret-Yields env rs Backs xs h b)
    | inl some_left ↦
        let x = signal_all-FineAt env rs rs xs stage.0 h (λ e a. a) b in
        let (y, b') = settle_for-Yields stage.1 xs x.after (AllBacked-Grows env rs xs x.grows b) in
        rw some_left (
          bind-Yields env rs Backs (signal_all env rs xs stage.0)
            (λ _. settle_for env rs stage.1 xs >>= run_stages env rs ss) h x
            (bind-Yields env rs Backs (settle_for env rs stage.1 xs) (run_stages env rs ss) x.after
              y (run_stages-Yields ss y.answer y.after b')))
  ]

  stop-Yields :
      (interrupt : Option ℕ) (term_grace : ℕ) (h : History)
      → Yields env rs Backs (stop env rs interrupt term_grace) h
  unfolding stop
  stop-Yields interrupt term_grace h =
      let (x, b) = observe_all-Yields env rs rs h in
      bind-Yields env rs Backs (observe_all env rs)
        (run_stages env rs (stages env interrupt term_grace)) h x
        (run_stages-Yields (stages env interrupt term_grace) x.answer x.after b)

  -- With a clock that does not go back `stop` ends, whatever the processes, the file system and the kernel do. Every signal that it has
  -- sent stands right behind a read of its target. For a group the read found the recorded leader, alive and with the recorded
  -- identity. For a process it found the same process, by pid and start time, as one that an earlier read had found alive in the group of a
  -- recorded leader, still alive and in that group; and an earlier read of that leader's pid had found the leader or no process.
  pub stop-Justified :
      (interrupt : Option ℕ) (term_grace : ℕ)
      → (states : List State) × (after : History) × (stop env rs interrupt term_grace []
          ≡ (some states, after))
        × Justified env rs after
  stop-Justified interrupt term_grace =
      let (x, b) = stop-Yields interrupt term_grace [] in
      (x.answer, x.after, x.returns, x.justified start)
