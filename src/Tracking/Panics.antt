-- ===== src/Tracking/Panics.antt =====
-- Methods of tracking.rs that return.
use forcola.Prelude.{◌≡◌, refl, List, [], ◌∷◌, Bool, true, false, Option, none, some, if◌then◌else◌}
use forcola.Errors.{Result, ok, err}
use forcola.Identity.{ProcessIdentity, ProcessRecord}
use forcola.Os.{Action, Signal, kill, History}
use forcola.Tracking.World.{
  Source, Tracker, World, T, ◌>>=◌, ◌>>◌, ret, gets, modify, ask, fail, failing,
}
use forcola.Tracking.Scan.{read}
use forcola.Tracking.Advance.{unwrap, signalled, send, checked, send_checked, kill_late}

-- A method that returns: its result meets `Q`, and the tracker meets `P` before and after.
pub record Runs {A : Type 0} (P : Tracker → Type 0) (m : T A) (Q : A → Type 0) : Type 0 where
  pub run : (w : World) → P w.0 → (a : A) × ((m w).0 ≡ some a) × Q a × P (m w).1.0

abbrev pub Any : {A : Type 0} → A → Type 0
Any a = Unit {0}

module _ (P : Tracker → Type 0) where
  pub Runs->>= :
      {A B : Type 0} {Q : A → Type 0} {R : B → Type 0} (m : T A) (f : A → T B)
      → Runs P m Q
      → ((a : A) → Q a → Runs P (f a) R)
      → Runs P (m >>= f) R
  unfolding ◌>>=◌
  Runs->>= m f x y = record {
    run = λ w p. let (a, e, q, p') = x.run w p in rw (e, ◌>>=◌) ((y a q).run (m w).1 p');
  }

  pub Runs->> :
      {B : Type 0} {R : B → Type 0} (m : T (Unit {0})) (k : T B)
      → Runs P m Any
      → Runs P k R
      → Runs P (m >> k) R
  unfolding ◌>>◌
  Runs->> m k x y = Runs->>= m (λ _. k) x (λ _ _. y)

  pub ret-Runs : {A : Type 0} {Q : A → Type 0} (a : A) → Q a → Runs P (ret a) Q
  unfolding ret
  ret-Runs a q = record { run = λ w p. (a, refl, q, p) }

  pub gets-Runs :
      {A : Type 0} {Q : A → Type 0} (f : Tracker → A)
      → ((t : Tracker) → P t → Q (f t))
      → Runs P (gets f) Q
  unfolding gets
  gets-Runs f q = record { run = λ w p. (f w.0, refl, q w.0 p, p) }

  pub modify-Runs :
      (f : Tracker → Tracker) → ((t : Tracker) → P t → P (f t)) → Runs P (modify f) Any
  unfolding modify
  modify-Runs f q = record { run = λ w p. (tt, refl, tt, q w.0 p) }

  pub ask-Runs : {A : Type 0} (answer : History → A) (a : Action) → Runs P (ask answer a) Any
  unfolding ask
  ask-Runs answer a = record { run = λ w p. (answer w.1, refl, tt, p) }

  pub if-Runs :
      {A : Type 0} {Q : A → Type 0} (b : Bool) (m m' : T A)
      → Runs P m Q
      → Runs P m' Q
      → Runs P (if b then m else m') Q
  if-Runs true m m' x y = x
  if-Runs false m m' x y = y

  pub unwrap-Runs :
      {A : Type 0} {Q : A → Type 0} (o : Option A) (a : A) → o ≡ some a → Q a → Runs P (unwrap o) Q
  unwrap-Runs o a e q = record { run = λ w p. (a, e, q, p) }

  module _ (source : Source) (fails : (t : Tracker) → P t → P (failing t)) where
    pub fail-Runs : Runs P fail Any
    fail-Runs = modify-Runs failing fails

    pub refused-Runs : Runs P (fail >> ret false) Any
    refused-Runs = Runs->> fail (ret false) fail-Runs (ret-Runs false tt)

    pub signalled-Runs : (r : Result (Unit {0})) → Runs P (signalled source r) Any
    unfolding signalled
    signalled-Runs (ok u) = ret-Runs true tt
    signalled-Runs (err e) = Runs->> fail (ret true) fail-Runs (ret-Runs true tt)

    pub send-Runs :
        (id : ProcessIdentity) (group : Bool) (s : Option Signal)
        → Runs P (send source id group s) Any
    unfolding send
    send-Runs id group none = ret-Runs true tt
    send-Runs id group (some s) =
        if-Runs _ _ _ refused-Runs (Runs->>= _ _ (ask-Runs _ _) (λ r _. signalled-Runs r))

    pub checked-Runs :
        (id : ProcessIdentity) (group : Bool) (s : Option Signal)
        (r : Result (Option ProcessRecord))
        → Runs P (checked source id group s r) Any
    unfolding checked
    checked-Runs id group s (err e) = refused-Runs
    checked-Runs id group s (ok none) = ret-Runs false tt
    checked-Runs id group s (ok (some r)) = if-Runs _ _ _ (send-Runs id group s) (ret-Runs false tt)

    pub send_checked-Runs :
        (id : ProcessIdentity) (group : Bool) (s : Option Signal)
        → Runs P (send_checked source id group s) Any
    unfolding send_checked read
    send_checked-Runs id group s = Runs->>= _ _ (ask-Runs _ _) (λ r _. checked-Runs id group s r)

    pub kill_late-Runs : (ids : List ProcessIdentity) → Runs P (kill_late source ids) Any
    unfolding kill_late
    kill_late-Runs [] = ret-Runs tt tt
    kill_late-Runs (id ∷ ids) =
        Runs->>= _ _ (send_checked-Runs id false (some kill)) (λ sent _. kill_late-Runs ids)
