-- ===== src/Groups/Seen.antt =====
-- What the reads of a history of groups.rs have found of the recorded groups.
use forcola.Prelude.{ℕ, ◌≡◌, List, [], ◌∷◌, true, false}
use forcola.Errors.{IoError, ok, err}
use forcola.Identity.{ProcessIdentity, ProcessRecord}
use forcola.Os.{Action, read_process, History, Env}
use forcola.Os.Laws.{Grows, here, add}
use forcola.Groups.{Recorded, group, invalid, State, gone, led, leaderless, unknown, disappeared}

module _ (env : Env) where
  -- A read found the process with this identity, alive and in the group.
  pub data Observed (pgid : ℕ) (m : ProcessIdentity) : History → Type 0 where
    now :
        {h : History} {pid : ℕ} {r : ProcessRecord}
        → env.process h pid ≡ ok r
        → r.identity ≡ m
        → r.identity.pgid ≡ pgid
        → r.exited ≡ false
        → Observed pgid m (read_process pid ∷ h)
    before : {h : History} (a : Action) → Observed pgid m h → Observed pgid m (a ∷ h)

  -- A read of the recorded leader's pid found the leader, with its start time, or no process.
  pub data Clear (e : ProcessIdentity) : History → Type 0 where
    found_leader :
        {h : History} {r : ProcessRecord}
        → env.process h e.pid ≡ ok r
        → r.identity.pid ≡ e.pid
        → r.identity.start_time ≡ e.start_time
        → Clear e (read_process e.pid ∷ h)
    found_none :
        {h : History} {x : IoError}
        → env.process h e.pid ≡ err x
        → disappeared x ≡ true
        → Clear e (read_process e.pid ∷ h)
    since : {h : History} (a : Action) → Clear e h → Clear e (a ∷ h)

  pub Observed-Grows :
      {pgid : ℕ} {m : ProcessIdentity} {h k : History}
      → Grows h k
      → Observed pgid m h
      → Observed pgid m k
  Observed-Grows here o = o
  Observed-Grows (add a g) o = before a (Observed-Grows g o)

  pub Clear-Grows : {e : ProcessIdentity} {h k : History} → Grows h k → Clear e h → Clear e k
  Clear-Grows here c = c
  Clear-Grows (add a g) c = since a (Clear-Grows g c)

  abbrev pub AllObserved : ℕ → History → List ProcessIdentity → Type 0
  AllObserved pgid h [] = Unit {0}
  AllObserved pgid h (m ∷ ms) = Observed pgid m h × AllObserved pgid h ms

  pub AllObserved-Grows :
      (pgid : ℕ) (ms : List ProcessIdentity) {h k : History}
      → Grows h k
      → AllObserved pgid h ms
      → AllObserved pgid k ms
  AllObserved-Grows pgid [] g o = tt
  AllObserved-Grows pgid (m ∷ ms) g (o, os) = (Observed-Grows g o, AllObserved-Grows pgid ms g os)

  -- What stands behind a state: the members that it lists were observed, and the leader's pid was clear.
  abbrev pub Backed : ProcessIdentity → State → History → Type 0
  Backed e gone h = Unit {0}
  Backed e led h = Clear e h
  Backed e (leaderless live) h = AllObserved e.pgid h live × Clear e h
  Backed e (unknown x) h = Unit {0}

  pub Backed-Grows :
      (e : ProcessIdentity) (s : State) {h k : History} → Grows h k → Backed e s h → Backed e s k
  Backed-Grows e gone g b = tt
  Backed-Grows e led g b = Clear-Grows g b
  Backed-Grows e (leaderless live) g (o, c) = (AllObserved-Grows e.pgid live g o, Clear-Grows g c)
  Backed-Grows e (unknown x) g b = tt

  abbrev pub BackedOf : Recorded → State → History → Type 0
  BackedOf (group e) s h = Backed e s h
  BackedOf (invalid x) s h = Unit {0}

  abbrev pub AllBacked : List Recorded → History → List State → Type 0
  AllBacked (q ∷ qs) h (s ∷ ss) = BackedOf q s h × AllBacked qs h ss
  AllBacked _ h _ = Unit {0}

  pub BackedOf-Grows :
      (q : Recorded) (s : State) {h k : History} → Grows h k → BackedOf q s h → BackedOf q s k
  BackedOf-Grows (group e) s g b = Backed-Grows e s g b
  BackedOf-Grows (invalid x) s g b = tt

  pub AllBacked-Grows :
      (qs : List Recorded) (ss : List State) {h k : History}
      → Grows h k
      → AllBacked qs h ss
      → AllBacked qs k ss
  AllBacked-Grows [] ss g b = tt
  AllBacked-Grows (q ∷ qs) [] g b = tt
  AllBacked-Grows (q ∷ qs) (s ∷ ss) g (b, bs) = (BackedOf-Grows q s g b, AllBacked-Grows qs ss g bs)
