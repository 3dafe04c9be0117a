-- ===== src/Groups/Sticky.antt =====
-- The stages of `stop` of groups.rs: a group that was seen gone stays gone.
use forcola.Prelude.{
  ℕ, zero, suc, ◌≡◌, refl, ap, sym, ◌∙◌, List, [], ◌∷◌, true, false, Option, none, some, leb,
  Bool-cases, Option-cases, inl, inr,
}
use forcola.Os.{Signal, History, Env, M, ◌>>=◌, ret}
use forcola.Os.Laws.{>>=-returned}
use forcola.Groups.{
  Recorded, State, gone, led, leaderless, unknown, is_gone, any_present, observe_all, signal_all,
  refresh_one, refresh, settled, settle, settle_for, run_stages, stages, stop,
}

-- Each state that is gone in the first list is gone in the second.
pub data Sticky : List State → List State → Type 0 where
  nothing : Sticky [] []
  stays : {xs ys : List State} → Sticky xs ys → Sticky (gone ∷ xs) (gone ∷ ys)
  free :
      {x y : State} {xs ys : List State}
      → is_gone x ≡ false
      → Sticky xs ys
      → Sticky (x ∷ xs) (y ∷ ys)

Sticky-add :
    (x y : State) (xs ys : List State)
    → (is_gone x ≡ true → y ≡ gone)
    → Sticky xs ys
    → Sticky (x ∷ xs) (y ∷ ys)
Sticky-add gone y xs ys e s = rw (e refl) (stays s)
Sticky-add led y xs ys e s = free refl s
Sticky-add (leaderless live) y xs ys e s = free refl s
Sticky-add (unknown r) y xs ys e s = free refl s

Sticky-refl : (xs : List State) → Sticky xs xs
Sticky-refl [] = nothing
Sticky-refl (gone ∷ xs) = stays (Sticky-refl xs)
Sticky-refl (led ∷ xs) = free refl (Sticky-refl xs)
Sticky-refl (leaderless live ∷ xs) = free refl (Sticky-refl xs)
Sticky-refl (unknown r ∷ xs) = free refl (Sticky-refl xs)

Sticky-trans : {xs ys zs : List State} → Sticky xs ys → Sticky ys zs → Sticky xs zs
Sticky-trans nothing nothing = nothing
Sticky-trans (stays s) (stays t) = stays (Sticky-trans s t)
Sticky-trans (stays s) (free e t) = cc
Sticky-trans (free e s) (stays t) = free e (Sticky-trans s t)
Sticky-trans (free e s) (free f t) = free e (Sticky-trans s t)

-- A bind that returned: so did its first part.
inverted :
    {A B : Type 0} (m : M A) (f : A → M B) (h : History) (b : B)
    → ((m >>= f) h).0 ≡ some b
    → (a : A) × ((m h).0 ≡ some a) × ((f a (m h).1).0 ≡ some b)
inverted m f h b e = elim (Option-cases (m h).0) [
  | inl n ↦ let none_left : ((m >>= f) h).0 ≡ none = rw (n, ◌>>=◌) in cc
  | inr (a, s) ↦
      (a, s, sym (ap (λ r. r.0) (>>=-returned m f a h (m h).1 (ap (λ r. (r, (m h).1)) s))) ∙ e)
]

some_injective : {A : Type 0} {a b : A} → some a ≡ some b → a ≡ b
some_injective e = cc

module _ (env : Env) (rs : List Recorded) where
  -- A call that answers with a state list: what was gone is gone.
  abbrev KeepsGone : List State → M (List State) → Type 0
  KeepsGone xs m = (h : History) (ys : List State) → (m h).0 ≡ some ys → Sticky xs ys

  refresh_one-gone :
      (q : Recorded) (x y : State) (h : History)
      → (refresh_one env q x h).0 ≡ some y
      → is_gone x ≡ true
      → y ≡ gone
  unfolding refresh_one
  refresh_one-gone q gone y h e g = sym (some_injective e)
  refresh_one-gone q led y h e g = cc
  refresh_one-gone q (leaderless live) y h e g = cc
  refresh_one-gone q (unknown r) y h e g = cc

  refresh-Sticky : (qs : List Recorded) (xs : List State) → KeepsGone xs (refresh env qs xs)
  unfolding refresh
  refresh-Sticky [] xs h ys e = rw (sym (some_injective e)) (Sticky-refl xs)
  refresh-Sticky (q ∷ qs) [] h ys e = rw (sym (some_injective e)) nothing
  refresh-Sticky (q ∷ qs) (x ∷ xs) h ys e =
      let (y, a, b) =
        inverted (refresh_one env q x) (λ s. refresh env qs xs >>= λ ss. ret (s ∷ ss)) h ys e in
      let (zs, c, d) = inverted (refresh env qs xs) (λ ss. ret (y ∷ ss)) _ ys b in
      rw (sym (some_injective d))
        (Sticky-add x y xs zs (refresh_one-gone q x y h a) (refresh-Sticky qs xs _ zs c))

  settled-Sticky :
      (again : List State → M (List State)) (deadline : ℕ) (xs : List State)
      → KeepsGone xs (again xs)
      → KeepsGone xs (settled env again deadline xs)
  unfolding settled
  settled-Sticky again deadline xs k h ys = elim (Bool-cases (any_present xs)) [
    | inr a ↦ rw (a, settled) (λ e. rw (sym (some_injective e)) (Sticky-refl xs))
    | inl a ↦ elim (Bool-cases (leb deadline (env.now h))) [
      | inl b ↦ rw (a, b, settled) (λ e. rw (sym (some_injective e)) (Sticky-refl xs))
      | inr b ↦ rw (a, b, settled) (k _ ys)
    ]
  ]

  settle-Sticky :
      (fuel deadline : ℕ) (xs : List State) → KeepsGone xs (settle env rs fuel deadline xs)
  unfolding settle
  settle-Sticky zero deadline xs h ys e = cc
  settle-Sticky (suc fuel) deadline xs h ys e =
      let (zs, a, b) =
        inverted (refresh env rs xs) (settled env (settle env rs fuel deadline) deadline) h ys e in
      Sticky-trans (refresh-Sticky rs xs h zs a) (
        settled-Sticky (settle env rs fuel deadline) deadline zs (settle-Sticky fuel deadline zs) _
          ys b)

  run_stages-Sticky :
      (ss : List (Signal × ℕ)) (xs : List State) → KeepsGone xs (run_stages env rs ss xs)
  unfolding run_stages settle_for
  run_stages-Sticky [] xs h ys = λ e. rw (sym (some_injective e)) (Sticky-refl xs)
  run_stages-Sticky (stage ∷ ss) xs h ys = elim (Bool-cases (any_present xs)) [
    | inr a ↦ rw (a, run_stages) (λ e. rw (sym (some_injective e)) (Sticky-refl xs))
    | inl a ↦
        rw (a, run_stages)
          (λ e.
            let (u, b, c) =
              inverted (signal_all env rs xs stage.0)
                (λ _. settle_for env rs stage.1 xs >>= run_stages env rs ss) h ys e in
            let (zs, d, f) =
              inverted (settle_for env rs stage.1 xs) (run_stages env rs ss) _ ys c in
            Sticky-trans (settle-Sticky (suc stage.1) _ xs _ zs d) (run_stages-Sticky ss zs _ ys f))
  ]

  -- A group that the first observation of `stop` saw gone is gone in its answer: a later group that
  -- reuses the pgid is not taken for it.
  pub stop-Sticky :
      (interrupt : Option ℕ) (term_grace : ℕ) (h : History) (ys : List State)
      → (stop env rs interrupt term_grace h).0 ≡ some ys
      → (xs : List State) × ((observe_all env rs h).0 ≡ some xs) × Sticky xs ys
  unfolding stop
  stop-Sticky interrupt term_grace h ys e =
      let (xs, a, b) =
        inverted (observe_all env rs) (run_stages env rs (stages env interrupt term_grace)) h ys
          e in
      (xs, a, run_stages-Sticky (stages env interrupt term_grace) xs _ ys b)
