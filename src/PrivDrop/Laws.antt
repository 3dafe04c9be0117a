-- ===== src/PrivDrop/Laws.antt =====
-- What a child that runs after `resolve` and `apply` of privdrop.rs runs as.
use forcola.Prelude.{
  ℕ, ◌≡◌, refl, ap, sym, ◌∙◌, List, [], ◌∷◌, ◌++◌, Bool, true, not, ◌||◌, Option, none, some, ◌==◌,
  if◌then◌else◌, inl, inr, Bool-cases, Option-cases, arith,
}
use forcola.Protocol.{UserSpec, GroupSpec}
use forcola.Errors.{IoError, os, Result, ok, err, ◌>>=◌}
use forcola.PrivDrop.{
  Credentials, DropPlan, Database, plan_from_current, resolve_credentials, Process, Call, setgroups,
  setgid, setuid, installed, Kernel, Applied, call, call_if, apply, is_some, contains,
  supplementary_groups, ResolvedUser, resolve_gid, resolve_user, user_gid,
}

abbrev pub or_current : Option ℕ → ℕ → ℕ
or_current none current = current
or_current (some n) current = n

-- The identity that a request stands for, from the one that the process has: the group list is left
-- alone only if the request names no group and asks for the uid and gid that are there.
abbrev pub wanted : Credentials → Process → Process
wanted creds p = record {
  uid = or_current creds.uid p.uid;
  gid = creds.gid;
  groups =
      if creds.group_requested
        || not (or_current creds.uid p.uid == p.uid)
        || not (creds.gid == p.gid)
      then creds.groups
      else p.groups;
}

-- The calls of a plan, in their order.
abbrev pub opt {ℓ} : {A : Type ℓ} → (A → Call) → Option A → List Call
opt setter none = []
opt setter (some a) = setter a ∷ []

abbrev pub calls : DropPlan → List Call
calls plan = opt setgroups plan.groups ++ (opt setgid plan.gid ++ opt setuid plan.uid)

abbrev pub run_calls : List Call → Process → Process
run_calls [] p = p
run_calls (c ∷ cs) p = run_calls cs (installed c p)

-- The end of a run of calls from `p`: all were carried out in their order, or the first that was
-- refused ended it, with its errno.
pub data Ran (kernel : Kernel) : Process → List Call → Applied → Type 0 where
  done : {p : Process} → Ran kernel p [] (ok tt, p, [])
  refused :
      {p : Process} {c : Call} {cs : List Call} (n : ℕ)
      → kernel c p ≡ some n
      → Ran kernel p (c ∷ cs) (err (os n), p, [])
  carried :
      {p q : Process} {c : Call} {cs made : List Call} {r : Result (Unit {0})}
      → kernel c p ≡ none
      → Ran kernel (installed c p) cs (r, q, made)
      → Ran kernel p (c ∷ cs) (r, q, c ∷ made)

module _ (kernel : Kernel) where
  call-Ran :
      (c : Call) (cs : List Call) (rest : Process → Applied) (p : Process)
      → ((q : Process) → Ran kernel q cs (rest q))
      → Ran kernel p (c ∷ cs) (call kernel c rest p)
  unfolding call
  call-Ran c cs rest p k = elim (Option-cases (kernel c p)) [
    | inl e ↦ rw (e, call) (carried e (k (installed c p)))
    | inr (n, e) ↦ rw (e, call) (refused n e)
  ]

  call_if-Ran :
      {A : Type 0} (setter : A → Call) (o : Option A) (cs : List Call) (rest : Process → Applied)
      (p : Process)
      → ((q : Process) → Ran kernel q cs (rest q))
      → Ran kernel p (opt setter o ++ cs) (call_if kernel setter o rest p)
  unfolding call_if
  call_if-Ran setter none cs rest p k = k p
  call_if-Ran setter (some a) cs rest p k = call-Ran (setter a) cs rest p k

  -- `apply` makes the calls of the plan, setgroups before setgid before setuid, and stops at the
  -- first that the kernel refuses.
  pub apply-Ran : (plan : DropPlan) (p : Process) → Ran kernel p (calls plan) (apply kernel plan p)
  unfolding apply
  apply-Ran plan p =
      call_if-Ran setgroups plan.groups (opt setgid plan.gid ++ opt setuid plan.uid) _ p
        (λ q. call_if-Ran setgid plan.gid (opt setuid plan.uid) _ q (λ q'. last plan.uid q'))
    where
      last :
          (uid : Option ℕ) (q : Process)
          → Ran kernel q (opt setuid uid) (call_if kernel setuid uid (λ q. (ok tt, q, [])) q)
      last none q = done
      last (some u) q = call-Ran (setuid u) [] _ q (λ q'. done)

  Ran-ok :
      {p q : Process} {cs made : List Call} {r : Result (Unit {0})}
      → Ran kernel p cs (r, q, made)
      → r ≡ ok tt
      → q ≡ run_calls cs p
  Ran-ok done e = refl
  Ran-ok (refused n f) e = cc
  Ran-ok (carried f k) e = Ran-ok k e

made_wanted :
    (uid : Option ℕ) (gid : ℕ) (groups : List ℕ) (requested : Bool) (p : Process)
    → let creds : Credentials = record {
      uid = uid;
      gid = gid;
      groups = groups;
      group_requested = requested;
    } in
      run_calls (calls (plan_from_current p.uid p.gid creds)) p ≡ wanted creds p
unfolding plan_from_current
made_wanted none gid groups requested p = elim (Bool-cases (gid == p.gid)) [
  | inl g ↦ rw g (ground arith)
  | inr g ↦ rw g (ground arith)
]
made_wanted (some u) gid groups requested p = ground arith

-- The calls of the plan bring about the identity.
run_calls-wanted :
    (creds : Credentials) (p : Process)
    → run_calls (calls (plan_from_current p.uid p.gid creds)) p ≡ wanted creds p
run_calls-wanted creds p = made_wanted creds.uid creds.gid creds.groups creds.group_requested p

-- Whether the uid is still `u` where a run failed.
data Closed (u : ℕ) : Applied → Type 0 where
  fine : {q : Process} {made : List Call} → Closed u (ok tt, q, made)
  stopped : {q : Process} {made : List Call} {e : IoError} → q.uid ≡ u → Closed u (err e, q, made)

module _ (kernel : Kernel) where
  Closed-add : {u : ℕ} {c : Call} (r : Applied) → Closed u r → Closed u (r.0, r.1, c ∷ r.2)
  Closed-add _ fine = fine
  Closed-add _ (stopped e) = stopped e

  call-Closed :
      (u : ℕ) (c : Call) (rest : Process → Applied) (p : Process)
      → p.uid ≡ u
      → Closed u (rest (installed c p))
      → Closed u (call kernel c rest p)
  unfolding call
  call-Closed u c rest p same k = elim (Option-cases (kernel c p)) [
    | inl e ↦ rw (e, call) (Closed-add (rest (installed c p)) k)
    | inr (n, e) ↦ rw (e, call) (stopped same)
  ]

  abbrev nothing_left : Process → Applied
  nothing_left q = (ok tt, q, [])

  apply-Closed : (plan : DropPlan) (p : Process) → Closed p.uid (apply kernel plan p)
  unfolding apply call_if
  apply-Closed plan p = groups plan.groups
    where
      uids :
          (uid : Option ℕ) (q : Process)
          → q.uid ≡ p.uid
          → Closed p.uid (call_if kernel setuid uid nothing_left q)
      uids none q same = fine
      uids (some u) q same = call-Closed p.uid (setuid u) nothing_left q same fine

      gids :
          (gid : Option ℕ) (q : Process)
          → q.uid ≡ p.uid
          → Closed p.uid (call_if kernel setgid gid (call_if kernel setuid plan.uid nothing_left) q)
      gids none q same = uids plan.uid q same
      gids (some g) q same =
          call-Closed p.uid (setgid g) (call_if kernel setuid plan.uid nothing_left) q same
            (uids plan.uid (installed (setgid g) q) same)

      groups :
          (gs : Option (List ℕ))
          → Closed p.uid (
              call_if kernel setgroups gs
                (call_if kernel setgid plan.gid (call_if kernel setuid plan.uid nothing_left))
                p)
      groups none = gids plan.gid p refl
      groups (some gs) =
          call-Closed p.uid (setgroups gs)
            (call_if kernel setgid plan.gid (call_if kernel setuid plan.uid nothing_left)) p refl
            (gids plan.gid (installed (setgroups gs) p) refl)

-- What a child can be after its request was applied: the identity asked for, or a failure behind
-- which the uid is the old one.
pub data Became (creds : Credentials) (p : Process) : Applied → Type 0 where
  became : {q : Process} {made : List Call} → q ≡ wanted creds p → Became creds p (ok tt, q, made)
  stayed :
      {q : Process} {made : List Call} {e : IoError}
      → q.uid ≡ p.uid
      → Became creds p (err e, q, made)

join-Became :
    (kernel : Kernel) (creds : Credentials) (p : Process) (cs : List Call) (r : Applied)
    → run_calls cs p ≡ wanted creds p
    → Ran kernel p cs r
    → Closed p.uid r
    → Became creds p r
join-Became kernel creds p cs _ w k (fine) = became (Ran-ok kernel k refl ∙ w)
join-Became kernel creds p cs _ w k (stopped e) = stayed e

-- A child in which the plan for the current uid and gid is applied has, when that succeeds, the
-- identity asked for: the uid, the gid, and the group list whenever a group was named or the uid or
-- the gid changes, whatever calls the kernel may refuse. When it fails the uid is the old one.
pub plan_from_current-Became :
    (kernel : Kernel) (creds : Credentials) (p : Process)
    → Became creds p (apply kernel (plan_from_current p.uid p.gid creds) p)
plan_from_current-Became kernel creds p =
    join-Became kernel creds p (calls (plan_from_current p.uid p.gid creds)) _
      (run_calls-wanted creds p) (apply-Ran kernel (plan_from_current p.uid p.gid creds) p)
      (apply-Closed kernel (plan_from_current p.uid p.gid creds) p)

-- `?` on the two sides of a result.
bound :
    {A B : Type 0} (m : Result A) (f : A → Result B) (b : B)
    → (m >>= f) ≡ ok b
    → (a : A) × (m ≡ ok a) × (f a ≡ ok b)
bound (ok a) f b e = (a, refl, e)
bound (err x) f b e = cc

ok_injective : {A : Type 0} {a b : A} → ok a ≡ ok b → a ≡ b
ok_injective e = cc

some_injective : {A : Type 0} {a b : A} → ok (some a) ≡ ok (some b) → a ≡ b
some_injective e = cc

contains_last : (ns : List ℕ) (n : ℕ) → contains (ns ++ n ∷ []) n ≡ true
contains_last [] n = ground arith
contains_last (m ∷ ns) n = rw (contains_last ns n) (ground arith)

supplementary_groups-contains :
    (user : ResolvedUser) (gid : ℕ) → contains (supplementary_groups user gid) gid ≡ true
unfolding supplementary_groups
supplementary_groups-contains user gid = elim (Bool-cases (contains user.supplementary gid)) [
  | inl e ↦ rw (e, supplementary_groups) e
  | inr e ↦ rw (e, supplementary_groups) (contains_last user.supplementary gid)
]

-- What the credentials of a request always have.
pub record Asked (user : Option UserSpec) (group : Option GroupSpec) (c : Credentials)
    : Type 0 where
  pub has_uid : is_some c.uid ≡ is_some user
  pub requested : c.group_requested ≡ is_some group
  pub in_groups : contains c.groups c.gid ≡ true

module _ {CString : Type 0} (db : Database CString) where
  user_gid_requested :
      (r : ResolvedUser) (g : Option GroupSpec) (x : ℕ × Bool)
      → user_gid db r g ≡ ok x
      → x.1 ≡ is_some g
  unfolding user_gid
  user_gid_requested r none x e = ap (λ y. y.1) (sym (ok_injective e))
  user_gid_requested r (some g) x e =
      let (gid, _, d) = bound (resolve_gid db g) _ x e in ap (λ y. y.1) (sym (ok_injective d))

  -- Credentials have a uid just when a user was named, are marked as a group request just when a group
  -- was named, and hold their gid among the supplementary groups.
  pub resolve_credentials-Asked :
      (user : Option UserSpec) (group : Option GroupSpec) (c : Credentials)
      → resolve_credentials db user group ≡ ok (some c)
      → Asked user group c
  unfolding resolve_credentials
  resolve_credentials-Asked none none c e = cc
  resolve_credentials-Asked none (some g) c e =
      let (gid, _, d) = bound (resolve_gid db g) _ (some c) e in
      rw (sym (some_injective d))
        (record { has_uid = refl; requested = refl; in_groups = ground arith })
  resolve_credentials-Asked (some u) g c e =
      let (r, _, d) = bound (resolve_user db u) _ (some c) e in
      let (chosen, x, y) = bound (user_gid db r g) _ (some c) d in
      rw (sym (some_injective y)) (record {
        has_uid = refl;
        requested = user_gid_requested r g chosen x;
        in_groups = supplementary_groups-contains r chosen.0;
      })
