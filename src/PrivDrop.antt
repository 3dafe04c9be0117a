-- ===== src/PrivDrop.antt =====
-- native/forcola_shim/src/privdrop.rs: the user and group of a request are resolved in the parent to
-- numbers, and a plan of system calls is made and carried out in the child.
pub mod Laws
mod Tests
use Prim.Native.String.{String}
use forcola.Prelude.{
  ℕ, List, [], ◌∷◌, ◌++◌, Bool, true, false, not, ◌||◌, Option, none, some, ◌==◌, if◌then◌else◌,
}
use forcola.Protocol.{UserSpec, GroupSpec}
use forcola.Errors.{IoError, os, simple, invalid_input, not_found, Result, ok, err, ◌>>=◌, ok_or}

pub record Credentials : Type 0 where
  pub uid : Option ℕ
  pub gid : ℕ
  pub groups : List ℕ
  pub group_requested : Bool

pub record DropPlan : Type 0 where
  pub groups : Option (List ℕ)
  pub gid : Option ℕ
  pub uid : Option ℕ

pub record ResolvedUser : Type 0 where
  pub uid : ℕ
  pub primary_gid : ℕ
  pub supplementary : List ℕ

-- `CString::new`, and what the C library's databases answer behind the wrappers of the file.
pub record Database (CString : Type 0) : Type 0 where
  pub new : String → Option CString
  pub getpwnam : CString → Result (Option (ℕ × ℕ))
  pub getpwuid : ℕ → Result (Option (CString × ℕ))
  pub getgrnam : CString → Result (Option ℕ)
  pub getgrouplist : CString → ℕ → Result (List ℕ)

abbrev pub contains : List ℕ → ℕ → Bool
contains [] n = false
contains (m ∷ ms) n = (m == n) || contains ms n

unfoldable pub supplementary_groups : ResolvedUser → ℕ → List ℕ
supplementary_groups user effective_gid =
    if contains user.supplementary effective_gid
    then user.supplementary
    else user.supplementary ++ effective_gid ∷ []

module _ {CString : Type 0} (db : Database CString) where
  cstring : String → Result CString
  cstring s = ok_or (simple invalid_input) (db.new s)

  resolve_user : UserSpec → Result ResolvedUser
  unfolding cstring
  resolve_user (UserSpec.name name) = do
    cname ← cstring name
    found ← db.getpwnam cname
    entry ← ok_or (simple not_found) found
    supplementary ← db.getgrouplist cname entry.1
    ok (record { uid = entry.0; primary_gid = entry.1; supplementary = supplementary })
  resolve_user (UserSpec.id uid) = do
    found ← db.getpwuid uid
    elim found [
      | some (name, primary_gid) ↦ do
        supplementary ← db.getgrouplist name primary_gid
        ok (record { uid = uid; primary_gid = primary_gid; supplementary = supplementary })
      | none ↦ ok (record { uid = uid; primary_gid = uid; supplementary = [] })
    ]

  resolve_gid : GroupSpec → Result ℕ
  unfolding cstring
  resolve_gid (GroupSpec.name name) = do
    cname ← cstring name
    found ← db.getgrnam cname
    ok_or (simple not_found) found
  resolve_gid (GroupSpec.id gid) = ok gid

  -- The gid of a user's request, and whether a group was named.
  user_gid : ResolvedUser → Option GroupSpec → Result (ℕ × Bool)
  unfolding resolve_gid
  user_gid resolved none = ok (resolved.primary_gid, false)
  user_gid resolved (some group) = do gid ← resolve_gid group; ok (gid, true)

  unfoldable pub resolve_credentials :
      Option UserSpec → Option GroupSpec → Result (Option Credentials)
  unfolding resolve_user resolve_gid user_gid supplementary_groups
  resolve_credentials none none = ok none
  resolve_credentials none (some group) = do
    gid ← resolve_gid group
    ok (some (record { uid = none; gid = gid; groups = gid ∷ []; group_requested = true }))
  resolve_credentials (some user) group = do
    resolved ← resolve_user user
    chosen ← user_gid resolved group
    ok (
        some (record {
          uid = some resolved.uid;
          gid = chosen.0;
          groups = supplementary_groups resolved chosen.0;
          group_requested = chosen.1;
        }))

-- `Option::filter(|n| *n != current)`
abbrev pub unless_same : Option ℕ → ℕ → Option ℕ
unless_same none current = none
unless_same (some n) current = if n == current then none else some n

abbrev pub is_some {ℓ} : {A : Type ℓ} → Option A → Bool
is_some none = false
is_some (some a) = true

-- `cur_uid` and `cur_gid` are `getuid()` and `getgid()`.
unfoldable pub plan_from_current : ℕ → ℕ → Credentials → DropPlan
plan_from_current cur_uid cur_gid creds =
    let uid = unless_same creds.uid cur_uid in
    let gid = unless_same (some creds.gid) cur_gid in
    record {
      groups =
          if creds.group_requested || is_some uid || is_some gid then some creds.groups else none;
      gid = gid;
      uid = uid;
    }

unfoldable pub resolve :
    {CString : Type 0}
    → Database CString
    → ℕ
    → ℕ
    → Option UserSpec
    → Option GroupSpec
    → Result (Option DropPlan)
unfolding resolve_credentials plan_from_current
resolve db cur_uid cur_gid user group = do
  creds ← resolve_credentials db user group
  elim creds [ none ↦ ok none | some c ↦ ok (some (plan_from_current cur_uid cur_gid c)) ]

-- The identity of a process, and the setters of the kernel with their arguments.
pub record Process : Type 0 where
  pub uid : ℕ
  pub gid : ℕ
  pub groups : List ℕ

pub data Call : Type 0 where
  setgroups : List ℕ → Call
  setgid : ℕ → Call
  setuid : ℕ → Call

abbrev pub installed : Call → Process → Process
installed (setgroups groups) p = record p { groups = groups }
installed (setgid gid) p = record p { gid = gid }
installed (setuid uid) p = record p { uid = uid }

-- A kernel may refuse any call, with an errno; a call that it does not refuse is carried out.
abbrev pub Kernel : Type 0
Kernel = Call → Process → Option ℕ

-- The result of the calls, the process behind them, and the calls that were carried out in order.
abbrev pub Applied : Type 0
Applied = Result (Unit {0}) × Process × List Call

-- One call of `apply` and the rest of it.
unfoldable pub call : Kernel → Call → (Process → Applied) → Process → Applied
call kernel c rest p = elim (kernel c p) [
  | some errno ↦ (err (os errno), p, [])
  | none ↦ let (r, q, cs) = rest (installed c p) in (r, q, c ∷ cs)
]

-- A call that the plan may leave out.
unfoldable pub call_if :
    {A : Type 0} → Kernel → (A → Call) → Option A → (Process → Applied) → Process → Applied
unfolding call
call_if kernel setter none rest p = rest p
call_if kernel setter (some a) rest p = call kernel (setter a) rest p

unfoldable pub apply : Kernel → DropPlan → Process → Applied
unfolding call_if
apply kernel plan p =
    call_if kernel setgroups plan.groups
      (call_if kernel setgid plan.gid (call_if kernel setuid plan.uid (λ q. (ok tt, q, [])))) p
