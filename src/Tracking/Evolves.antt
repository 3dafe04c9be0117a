-- ===== src/Tracking/Evolves.antt =====
-- The steps that the methods of a tracker are made of: calls of the source, changes of the tracker, and
-- signals that a read has verified.
use forcola.Prelude.{
  ◌≤◌, ◌<◌, ◌≡◌, refl, ◌∷◌, Bool, true, false, some, if◌then◌else◌, Option-cases, inl, inr, ◌⊎◌,
  i32_max, arith,
}
use forcola.Errors.{ok}
use forcola.Identity.{ProcessIdentity, ProcessRecord, same_identity-eq, same_process-eq}
use forcola.Os.{Action, Signal, signal_group, signal_process, read_process, History}
use forcola.Tracking.World.{Source, Tracker, World, T, ◌>>=◌, ◌>>◌, ret, gets, modify, ask}
use forcola.Tracking.Advance.{allows, target}

abbrev pub is_signal : Action → Bool
is_signal (signal_group pgid s) = true
is_signal (signal_process pid s) = true
is_signal _ = false

-- What a read says of the target of a signal: for a group, it found the leader with its whole identity; for a process
-- alone, it found one with the same start time, which has not exited.
abbrev pub Matches : ProcessIdentity → Bool → ProcessRecord → Type 0
Matches e true r = (r.identity ≡ e) × (e.pid ≡ e.pgid)
Matches e false r =
    (r.identity.pid ≡ e.pid) × (r.identity.start_time ≡ e.start_time) × (r.exited ≡ false)

pub allows-Matches :
    (e : ProcessIdentity) (group : Bool) (r : ProcessRecord)
    → allows e group r ≡ true
    → Matches e group r
allows-Matches e true r q = (same_identity-eq r.identity e (ground arith), ground arith)
allows-Matches e false r q =
    let (pid, start) = same_process-eq r.identity e (ground arith) in (pid, start, ground arith)

abbrev pub NoTarget : Bool → ProcessIdentity → Type 0
NoTarget group e = ⊥

-- A `Target`, a group or not, may be signalled. Without `Free` a method does not panic.
module _ (source : Source) (Allowed : Tracker → Tracker → Type 0)
    (Target : Bool → ProcessIdentity → Type 0) (Free : Type 0) where
  -- From one world to another. The tracker changes only as it is allowed to, and a signal goes to a
  -- target and stands right behind a read that matches it, to a pid that `kill` takes for a process or a group.
  pub data Evolves (w : World) : World → Type 0 where
    stay : Evolves w w
    acts :
        {t : Tracker} {h : History} (a : Action)
        → is_signal a ≡ false
        → Evolves w (t, h)
        → Evolves w (t, a ∷ h)
    changes : {t t' : Tracker} {h : History} → Allowed t t' → Evolves w (t, h) → Evolves w (t', h)
    signals :
        {t : Tracker} {h : History} (e : ProcessIdentity) (group : Bool) (s : Signal)
        (r : ProcessRecord)
        → Target group e
        → source.read h e.pid ≡ ok (some r)
        → Matches e group r
        → (0 < e.pid) × (e.pid ≤ i32_max)
        → Evolves w (t, read_process e.pid ∷ h)
        → Evolves w (t, target e group s ∷ read_process e.pid ∷ h)

  pub Evolves-trans : {u v w : World} → Evolves u v → Evolves v w → Evolves u w
  Evolves-trans e stay = e
  Evolves-trans e (acts a q f) = acts a q (Evolves-trans e f)
  Evolves-trans e (changes p f) = changes p (Evolves-trans e f)
  Evolves-trans e (signals x g s r z p q b f) = signals x g s r z p q b (Evolves-trans e f)

  pub record Fine {A : Type 0} (m : T A) : Type 0 where
    pub at : (w : World) → Evolves w (m w).1
    pub returns : (w : World) → ((a : A) × ((m w).0 ≡ some a)) ⊎ Free

  -- What follows a step from the one world that the step leads to.
  pub then_at :
      {A B : Type 0} (m : T A) (f : A → T B) (w : World)
      → Evolves w (m w).1
      → ((a : A) → Evolves (m w).1 (f a (m w).1).1)
      → Evolves w ((m >>= f) w).1
  unfolding ◌>>=◌
  then_at m f w x y = elim (Option-cases (m w).0) [
    | inl e ↦ rw (e, ◌>>=◌) x
    | inr (a, e) ↦ rw (e, ◌>>=◌) (Evolves-trans x (y a))
  ]

  pub Fine->>= :
      {A B : Type 0} {m : T A} {f : A → T B} → Fine m → ((a : A) → Fine (f a)) → Fine (m >>= f)
  unfolding ◌>>=◌
  Fine->>= {A} {B} {m} {f} x y = record {
    at = λ w. elim (Option-cases (m w).0) [
      | inl e ↦ rw (e, ◌>>=◌) (x.at w)
      | inr (a, e) ↦ rw (e, ◌>>=◌) (Evolves-trans (x.at w) ((y a).at (m w).1))
    ];
    returns = λ w. elim (x.returns w) [
      | inl (a, e) ↦ rw (e, ◌>>=◌) ((y a).returns (m w).1)
      | inr z ↦ inr z
    ];
  }

  pub Fine->> : {B : Type 0} {m : T (Unit {0})} {k : T B} → Fine m → Fine k → Fine (m >> k)
  unfolding ◌>>◌
  Fine->> x y = Fine->>= x (λ _. y)

  pub ret-Fine : {A : Type 0} (a : A) → Fine (ret a)
  unfolding ret
  ret-Fine a = record { at = λ w. stay; returns = λ w. inl (a, refl) }

  pub gets-Fine : {A : Type 0} (f : Tracker → A) → Fine (gets f)
  unfolding gets
  gets-Fine f = record { at = λ w. stay; returns = λ w. inl (f w.0, refl) }

  pub modify-Fine : {f : Tracker → Tracker} → ((t : Tracker) → Allowed t (f t)) → Fine (modify f)
  unfolding modify
  modify-Fine p = record { at = λ w. changes (p w.0) stay; returns = λ w. inl (tt, refl) }

  pub ask-Fine :
      {A : Type 0} (answer : History → A) (a : Action) → is_signal a ≡ false → Fine (ask answer a)
  unfolding ask
  ask-Fine answer a q = record { at = λ w. acts a q stay; returns = λ w. inl (answer w.1, refl) }

  pub if-Fine : {A : Type 0} (b : Bool) (m m' : T A) → Fine m → Fine m' → Fine (if b then m else m')
  if-Fine true m m' x y = x
  if-Fine false m m' x y = y

module _ (source : Source) {Allowed Allowed' : Tracker → Tracker → Type 0}
    {Target Target' : Bool → ProcessIdentity → Type 0} {Free Free' : Type 0}
    (f : (t t' : Tracker) → Allowed t t' → Allowed' t t')
    (h : (group : Bool) (e : ProcessIdentity) → Target group e → Target' group e)
    (g : Free → Free') where
  pub Evolves-weaken :
      {w w' : World}
      → Evolves source Allowed Target Free w w'
      → Evolves source Allowed' Target' Free' w w'
  Evolves-weaken stay = stay
  Evolves-weaken (acts a q e) = acts a q (Evolves-weaken e)
  Evolves-weaken (changes {t} {t'} p e) = changes (f t t' p) (Evolves-weaken e)
  Evolves-weaken (signals x group s r z p q b e) =
      signals x group s r (h group x z) p q b (Evolves-weaken e)

  pub Fine-weaken :
      {A : Type 0} {m : T A}
      → Fine source Allowed Target Free m
      → Fine source Allowed' Target' Free' m
  Fine-weaken x = record {
    at = λ w. Evolves-weaken (x.at w);
    returns = λ w. elim (x.returns w) [ inl r ↦ inl r | inr z ↦ inr (g z) ];
  }
