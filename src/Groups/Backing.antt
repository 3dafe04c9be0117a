-- ===== src/Groups/Backing.antt =====
-- `observe` and `refresh` of groups.rs answer states that their reads back.
use forcola.Prelude.{ℕ, ◌≡◌, refl, List, [], ◌∷◌, Bool-cases, inl, inr}
use forcola.Errors.{Result, ok, err}
use forcola.Identity.{ProcessIdentity, ProcessRecord, same_text, same_process, same_process-eq}
use forcola.Os.{read_boot, read_process, History, Env, M, ◌>>=◌, ret}
use forcola.Os.Laws.{here, add, Grows-trans}
use forcola.Groups.{
  Recorded, group, invalid, State, gone, led, unknown, failed, is_gone, disappeared, found,
  in_group, observe_leader, observe_boot, observe, observe_all, refresh_one, refresh,
}
use forcola.Groups.Seen.{
  Clear, found_leader, found_none, Backed, BackedOf, BackedOf-Grows, AllBacked, AllBacked-Grows,
}
use forcola.Groups.Safety.{other}
use forcola.Groups.Observing.{Yields, ret-Yields, bind-Yields, read-Yields, members-Backed}

module _ (env : Env) (rs : List Recorded) where
  observe_leader-Yields :
      (e : ProcessIdentity) (h : History) (x : Result ProcessRecord)
      → env.process h e.pid ≡ x
      → Yields env rs (Backed env e) (observe_leader env e (found x)) (read_process e.pid ∷ h)
  unfolding observe_leader
  observe_leader-Yields e h (ok r) p = elim (Bool-cases (same_process r.identity e)) [
    | inr foreign ↦ rw foreign (ret-Yields env rs (Backed env e) gone (read_process e.pid ∷ h) tt)
    | inl same ↦
        let (pid, start) = same_process-eq r.identity e same in
        let clear : Clear env e (read_process e.pid ∷ h) = found_leader p pid start in
        elim (Bool-cases (in_group e.pgid r)) [
          | inl inside ↦
              rw (same, inside)
                (ret-Yields env rs (Backed env e) led (read_process e.pid ∷ h) clear)
          | inr outside ↦
              rw (same, outside) (members-Backed env rs e (read_process e.pid ∷ h) clear)
        ]
  ]
  observe_leader-Yields e h (err x) p = elim (Bool-cases (disappeared x)) [
    | inl none_left ↦
        rw none_left (members-Backed env rs e (read_process e.pid ∷ h) (found_none p none_left))
    | inr broken ↦
        rw broken
          (ret-Yields env rs (Backed env e) (unknown (failed x)) (read_process e.pid ∷ h) tt)
  ]

  observe_boot-Yields :
      (e : ProcessIdentity) (x : Result (List ℕ)) (h : History)
      → Yields env rs (Backed env e) (observe_boot env e x) h
  unfolding observe_boot
  observe_boot-Yields e (ok current) h =
      elim (Bool-cases (same_text current e.start_time.boot_id)) [
        | inl same ↦ rw same (
            read-Yields env rs (Backed env e) e.pid (observe_leader env e) h
              (observe_leader-Yields e h (env.process h e.pid) refl))
        | inr other_boot ↦ rw other_boot (ret-Yields env rs (Backed env e) gone h tt)
      ]
  observe_boot-Yields e (err x) h = ret-Yields env rs (Backed env e) (unknown (failed x)) h tt

  observe-Yields : (q : Recorded) (h : History) → Yields env rs (BackedOf env q) (observe env q) h
  unfolding observe
  observe-Yields (invalid x) h = ret-Yields env rs (BackedOf env (invalid x)) (unknown x) h tt
  observe-Yields (group e) h =
      let (x, b) = observe_boot-Yields e (env.boot h) (read_boot ∷ h) in
      (
        record {
          answer = x.answer;
          after = x.after;
          returns = x.returns;
          grows = Grows-trans (add read_boot here) x.grows;
          justified = λ j. x.justified (other read_boot refl j);
        },
        b,
      )

  abbrev AllOf : List Recorded → List State → History → Type 0
  AllOf qs ss h = AllBacked env qs h ss

  cons-Yields :
      (q : Recorded) (qs : List Recorded) (m : M State) (ms : M (List State)) (h : History)
      → Yields env rs (BackedOf env q) m h
      → ((k : History) → Yields env rs (AllOf qs) ms k)
      → Yields env rs (AllOf (q ∷ qs)) (m >>= λ s. ms >>= λ ss. ret (s ∷ ss)) h
  cons-Yields q qs m ms h (x, b) y =
      let (z, bs) = y x.after in
      bind-Yields env rs (AllOf (q ∷ qs)) m (λ s. ms >>= λ ss. ret (s ∷ ss)) h x
        (bind-Yields env rs (AllOf (q ∷ qs)) ms (λ ss. ret (x.answer ∷ ss)) x.after z
          (ret-Yields env rs (AllOf (q ∷ qs)) (x.answer ∷ z.answer) z.after
            (BackedOf-Grows env q x.answer z.grows b, bs)))

  pub observe_all-Yields :
      (qs : List Recorded) (h : History) → Yields env rs (AllOf qs) (observe_all env qs) h
  unfolding observe_all
  observe_all-Yields [] h = ret-Yields env rs (AllOf []) [] h tt
  observe_all-Yields (q ∷ qs) h =
      cons-Yields q qs (observe env q) (observe_all env qs) h (observe-Yields q h)
        (observe_all-Yields qs)

  refresh_one-Yields :
      (q : Recorded) (s : State) (h : History)
      → BackedOf env q s h
      → Yields env rs (BackedOf env q) (refresh_one env q s) h
  unfolding refresh_one
  refresh_one-Yields q s h b = elim (Bool-cases (is_gone s)) [
    | inl ended ↦ rw ended (ret-Yields env rs (BackedOf env q) s h b)
    | inr there ↦ rw there (observe-Yields q h)
  ]

  pub refresh-Yields :
      (qs : List Recorded) (ss : List State) (h : History)
      → AllBacked env qs h ss
      → Yields env rs (AllOf qs) (refresh env qs ss) h
  unfolding refresh
  refresh-Yields [] ss h b = ret-Yields env rs (AllOf []) ss h tt
  refresh-Yields (q ∷ qs) [] h b = ret-Yields env rs (AllOf (q ∷ qs)) [] h tt
  refresh-Yields (q ∷ qs) (s ∷ ss) h (b, bs) =
      let (x, c) = refresh_one-Yields q s h b in
      let (z, cs) = refresh-Yields qs ss x.after (AllBacked-Grows env qs ss x.grows bs) in
      bind-Yields env rs (AllOf (q ∷ qs)) (refresh_one env q s)
        (λ s'. refresh env qs ss >>= λ ss'. ret (s' ∷ ss')) h x
        (bind-Yields env rs (AllOf (q ∷ qs)) (refresh env qs ss) (λ ss'. ret (x.answer ∷ ss'))
          x.after z
          (ret-Yields env rs (AllOf (q ∷ qs)) (x.answer ∷ z.answer) z.after
            (BackedOf-Grows env q x.answer z.grows c, cs)))
