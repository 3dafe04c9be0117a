-- ===== src/Groups/Safety.antt =====
-- `stop` of groups.rs ends, and signals only what a read right before the signal has verified.
use forcola.Prelude.{
  ℕ, suc, ◌*◌, ◌≡◌, refl, ◌∙◌, List, [], ◌∷◌, Bool, true, false, Option, none, some, ltb, ◌==◌,
  if◌then◌else◌,
}
use forcola.Errors.{simple, invalid_data, Result, ok, err}
use forcola.Identity.{ProcessIdentity, ProcessRecord}
use forcola.Os.{
  Signal, Action, signal_group, read_process, list_processes, signal_process, History, Env, M,
  ◌>>=◌, ret,
}
use forcola.Os.Laws.{Grows, here, add, Grows-trans, >>=-returned}
use forcola.Groups.Seen.{Observed, Clear}
use forcola.Groups.{
  Recorded, group, found, keep, max_processes, read, gather_found, gather_entry, gather, gather_all,
  group_members, is_invalid_data,
}

pub data Among (e : ProcessIdentity) : List Recorded → Type 0 where
  first : {rs : List Recorded} → Among e (group e ∷ rs)
  later : {r : Recorded} {rs : List Recorded} → Among e rs → Among e (r ∷ rs)

abbrev pub is_signal : Action → Bool
is_signal (signal_group pgid s) = true
is_signal (signal_process pid s) = true
is_signal _ = false

module _ (env : Env) (rs : List Recorded) where
  -- Every signal of a history stands right behind a read of its target: of the recorded leader, alive
  -- with the recorded identity, for a signal to a group; for a signal to a process, of the same process as one that an
  -- earlier read had found in the group of a recorded leader, still in the group and alive, where a read of the leader's pid had
  -- found the leader or no process.
  pub data Justified : History → Type 0 where
    start : Justified []
    other : {h : History} (a : Action) → is_signal a ≡ false → Justified h → Justified (a ∷ h)
    to_group :
        {h : History} (e : ProcessIdentity) (r : ProcessRecord) (s : Signal)
        → Among e rs
        → env.process h e.pid ≡ ok r
        → r.identity ≡ e
        → r.exited ≡ false
        → Justified h
        → Justified (signal_group e.pgid s ∷ read_process e.pid ∷ h)
    to_member :
        {h : History} (e m : ProcessIdentity) (r : ProcessRecord) (s : Signal)
        → Among e rs
        → Clear env e h
        → Observed env e.pgid m h
        → env.process h m.pid ≡ ok r
        → (r.identity.pid ≡ m.pid) × (r.identity.start_time ≡ m.start_time)
        → r.identity.pgid ≡ e.pgid
        → r.exited ≡ false
        → Justified h
        → Justified (signal_process m.pid s ∷ read_process m.pid ∷ h)

  -- A call that returns, only adds to the history, and keeps its signals justified.
  pub record FineAt {A : Type 0} (m : M A) (h : History) : Type 0 where
    pub answer : A
    pub after : History
    pub returns : m h ≡ (some answer, after)
    pub grows : Grows h after
    pub justified : Justified h → Justified after

  abbrev pub Fine : {A : Type 0} → M A → Type 0
  Fine m = (h : History) → FineAt m h

  pub FineAt->>= :
      {A B : Type 0} (m : M A) (f : A → M B) (h : History)
      → (x : FineAt m h) → FineAt (f x.answer) x.after
      → FineAt (m >>= f) h
  FineAt->>= m f h x y = record {
    answer = y.answer;
    after = y.after;
    returns = >>=-returned m f x.answer h x.after x.returns ∙ y.returns;
    grows = Grows-trans x.grows y.grows;
    justified = λ j. y.justified (x.justified j);
  }

  pub Fine->>= :
      {A B : Type 0} (m : M A) (f : A → M B) → Fine m → ((a : A) → Fine (f a)) → Fine (m >>= f)
  Fine->>= m f x y h = FineAt->>= m f h (x h) (y (x h).answer (x h).after)

  pub ret-Fine : {A : Type 0} (a : A) → Fine (ret a)
  ret-Fine a h = record { answer = a; after = h; returns = refl; grows = here; justified = λ j. j }

  -- An action that is no signal, in front of what goes on.
  pub before-Fine :
      {A : Type 0} (m m' : M A) (a : Action) (h : History)
      → is_signal a ≡ false
      → m h ≡ m' (a ∷ h)
      → Fine m'
      → FineAt m h
  before-Fine m m' a h quiet e x =
      let y = x (a ∷ h) in
      record {
        answer = y.answer;
        after = y.after;
        returns = e ∙ y.returns;
        grows = Grows-trans (add a here) y.grows;
        justified = λ j. y.justified (other a quiet j);
      }

  read-Fine : (pid : ℕ) → Fine (read env pid)
  unfolding read
  read-Fine pid h =
      before-Fine (read env pid) (ret (found (env.process h pid))) (read_process pid) h refl refl
        (ret-Fine _)

  pub if-Fine : {A : Type 0} (b : Bool) (m m' : M A) → Fine m → Fine m' → Fine (if b then m else m')
  if-Fine true m m' x y = x
  if-Fine false m m' x y = y

  gather_found-Fine :
      (pgid pid : ℕ) (rest : M (Result (List ℕ))) (r : Result (Option ProcessRecord))
      → Fine rest
      → Fine (gather_found env pgid pid rest r)
  unfolding gather_found
  gather_found-Fine pgid pid rest (ok (some r)) x =
      if-Fine (r.identity.pgid == pgid) _ rest
        (Fine->>= rest (λ pids. ret (keep pid pids)) x (λ pids. ret-Fine (keep pid pids))) x
  gather_found-Fine pgid pid rest (ok none) x = x
  gather_found-Fine pgid pid rest (err e) x =
      if-Fine (is_invalid_data env e) rest (ret (err e)) x (ret-Fine (err e))

  gather_entry-Fine :
      (pgid : ℕ) (rest : M (Result (List ℕ))) (entry : Result (Option ℕ))
      → Fine rest
      → Fine (gather_entry env pgid rest entry)
  unfolding gather_entry
  gather_entry-Fine pgid rest (err e) x = ret-Fine (err e)
  gather_entry-Fine pgid rest (ok none) x = x
  gather_entry-Fine pgid rest (ok (some pid)) x =
      Fine->>= (read env pid) (gather_found env pgid pid rest) (read-Fine pid)
        (λ r. gather_found-Fine pgid pid rest r x)

  gather-Fine : (pgid index : ℕ) (es : List (Result (Option ℕ))) → Fine (gather env pgid index es)
  unfolding gather
  gather-Fine pgid index [] = ret-Fine (ok [])
  gather-Fine pgid index (entry ∷ es) =
      if-Fine (ltb (max_processes * 2) index) (ret (err (simple invalid_data))) _
        (ret-Fine (err (simple invalid_data)))
        (gather_entry-Fine pgid (gather env pgid (suc index) es) entry
          (gather-Fine pgid (suc index) es))

  gather_all-Fine :
      (pgid : ℕ) (r : Result (List (Result (Option ℕ)))) → Fine (gather_all env pgid r)
  unfolding gather_all
  gather_all-Fine pgid (ok es) = gather-Fine pgid 0 es
  gather_all-Fine pgid (err e) = ret-Fine (err e)

  pub group_members-Fine : (pgid : ℕ) → Fine (group_members env pgid)
  unfolding group_members
  group_members-Fine pgid h =
      before-Fine (group_members env pgid) (gather_all env pgid (env.processes h)) list_processes h
        refl refl (gather_all-Fine pgid (env.processes h))

  pub Justified-read : {h : History} {pid : ℕ} → Justified (read_process pid ∷ h) → Justified h
  Justified-read (other a quiet j) = j

  -- A read, then what goes on with its answer.
  pub read_then :
      {B : Type 0} (pid : ℕ) (f : Result (Option ProcessRecord) → M B) (h : History)
      → FineAt (f (found (env.process h pid))) (read_process pid ∷ h)
      → FineAt (read env pid >>= f) h
  unfolding read
  read_then pid f h x = record {
    answer = x.answer;
    after = x.after;
    returns = x.returns;
    grows = Grows-trans (add (read_process pid) here) x.grows;
    justified = λ j. x.justified (other (read_process pid) refl j);
  }
