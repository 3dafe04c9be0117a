-- ===== src/Tracking/Advance.antt =====
-- The signals of tracking.rs: `send_checked`, `advance` and `finish_scan`.
use forcola.Prelude.{
  ℕ, suc, List, [], ◌∷◌, ◌++◌, map, Bool, true, false, not, ◌&&◌, ◌||◌, Option, none, some, ◌==◌,
  leb, ltb, if◌then◌else◌, insert, lookup, keep_if, any, i32_max, max,
}
use forcola.Errors.{Result, ok, err}
use forcola.Identity.{ProcessIdentity, ProcessRecord, same_identity, same_process}
use forcola.Os.{Signal, kill, Action, clock, signal_group, signal_process}
use forcola.Tracking.{Sequence, Cleanup, Due, next_signal, after_signal, expired}
use forcola.Tracking.World.{Source, Tracker, T, ◌>>=◌, ◌>>◌, ret, gets, modify, ask, fail, failing}
use forcola.Tracking.Scan.{retained, read}
use forcola.Tracking.Refresh.{scan}

abbrev pub live : Tracker → List ProcessIdentity
live t = map (λ r. r.identity) (keep_if (λ r. not r.exited) (retained t))

pub record Progress : Type 0 where
  pub done : Bool
  pub confirmed : Bool

-- Whether a read allows the signal: the leader with its whole identity for a group, the same process,
-- alive, for a process alone.
abbrev pub allows : ProcessIdentity → Bool → ProcessRecord → Bool
allows expected true current =
    same_process current.identity expected
    && (same_identity current.identity expected && (expected.pid == expected.pgid))
allows expected false current = same_process current.identity expected && not current.exited

abbrev pub target : ProcessIdentity → Bool → Signal → Action
target expected true s = signal_group expected.pid s
target expected false s = signal_process expected.pid s

-- `Option::unwrap`
abbrev pub unwrap : {A : Type 0} → Option A → T A
unwrap o w = (o, w)

abbrev pub set_group : ProcessIdentity → Sequence → Tracker → Tracker
set_group id s t = record t { groups = insert same_identity id (some s) t.groups }

abbrev pub set_member : ProcessIdentity → Sequence → Tracker → Tracker
set_member id s t = record t { members = insert same_identity id s t.members }

abbrev pub set_members : List ProcessIdentity → Sequence → Tracker → Tracker
set_members [] s t = t
set_members (id ∷ ids) s t = set_members ids s (set_member id s t)

abbrev pub of_group : ProcessIdentity → List ProcessIdentity → List ProcessIdentity
of_group g ids = keep_if (λ id. id.pgid == g.pgid) ids

abbrev pub is_due : List ProcessIdentity → ProcessIdentity → Tracker → Bool
is_due ids group t =
    (t.root_group_unresolved && (group.pid == t.root_pid)) || any (λ id. id.pgid == group.pgid) ids

abbrev pub is_empty {ℓ} : {A : Type ℓ} → List A → Bool
is_empty [] = true
is_empty (x ∷ xs) = false

abbrev pub has_pid : List ℕ → ℕ → Bool
has_pid pids pid = any (λ p. p == pid) pids

-- The scan that `advance` follows found nothing alive and was complete.
abbrev pub quiet : List ProcessIdentity → Tracker → Bool
quiet ids t = is_empty ids && (t.incomplete_scans == 0)

-- `empty_scans` is a `u8` too.
abbrev pub count_empty : List ProcessIdentity → Tracker → Cleanup → Cleanup
count_empty ids t c = record c {
  empty_scans =
      if quiet ids t then (if leb 255 c.empty_scans then 255 else suc c.empty_scans) else 0;
}

-- The end of `advance`.
unfoldable pub conclude : List ProcessIdentity → Bool → Cleanup → T Progress
conclude ids force c = do
  modify (λ t. record t { cleanup = some (count_empty ids t c) })
  modify (λ t. if force && not (quiet ids t) then failing t else t)
  gets (λ t.
      let done = leb 2 (count_empty ids t c).empty_scans || force in
      record { done = done; confirmed = done && (is_empty ids && not t.uncertain) })

module _ (source : Source) where
  unfoldable pub signalled : Result (Unit {0}) → T Bool
  signalled (ok u) = ret true
  signalled (err e) = do fail; ret true

  -- The signal itself, whose answer is read at the history with it. `none` asks for the check alone.
  unfoldable pub send : ProcessIdentity → Bool → Option Signal → T Bool
  unfolding signalled
  send expected group none = ret true
  send expected group (some s) =
      if (expected.pid == 0) || ltb i32_max expected.pid
      then (do fail; ret false)
      else (ask (λ h. source.signal (target expected group s ∷ h)) (target expected group s)
          >>= signalled)

  unfoldable pub checked :
      ProcessIdentity → Bool → Option Signal → Result (Option ProcessRecord) → T Bool
  unfolding send
  checked expected group s (ok (some current)) =
      if allows expected group current then send expected group s else ret false
  checked expected group s (ok none) = ret false
  checked expected group s (err e) = do fail; ret false

  unfoldable pub send_checked : ProcessIdentity → Bool → Option Signal → T Bool
  unfolding read checked
  send_checked expected group s = read source expected.pid >>= checked expected group s

  -- `Source::now`, which does not fall behind the reference.
  unfoldable pub now_from : ℕ → T ℕ
  now_from reference = ask (λ h. max (source.now h) reference) clock

  -- The due step of a target; without a cleanup `next_signal` panics.
  unfoldable pub due : Option Sequence → ℕ → T Due
  due previous now = gets (λ t. t.cleanup) >>= λ c. unwrap (elim c [
    | none ↦ none
    | some cleanup ↦ next_signal cleanup previous now (expired now (some cleanup))
  ])

  unfoldable pub after : Sequence → ℕ → T Sequence
  unfolding now_from
  after s now = gets (λ t. t.cleanup) >>= λ c. now_from now >>= λ later.
      unwrap (elim c [ none ↦ none | some cleanup ↦ after_signal cleanup s later ])

  -- The sequence behind a step, which begins anew behind a signal.
  unfoldable pub settled : Due → ℕ → T Sequence
  unfolding after
  settled d now = elim d.1 [ none ↦ ret d.0 | some s ↦ after d.0 now ]

  unfoldable pub fail_if : Bool → T (Unit {0})
  fail_if b = if b then fail else ret tt

  -- A group whose leader was checked: the pids that it covers.
  unfoldable pub group_sent : ProcessIdentity → List ProcessIdentity → Due → ℕ → Bool → T (List ℕ)
  unfolding settled fail_if
  group_sent group ids d now true = settled d now >>= λ s. do
    modify (set_group group s)
    fail_if d.2
    modify (set_members (of_group group ids) s)
    ret (map (λ id. id.pid) (of_group group ids))
  group_sent group ids d now false = ret []

  unfoldable pub advance_group :
      List ProcessIdentity → ℕ → ProcessIdentity × Option Sequence → T (List ℕ)
  unfolding now_from due send_checked group_sent
  advance_group ids now (group, previous) = gets (is_due ids group) >>= λ wanted.
      if wanted
      then (now_from now >>= λ target_now. due previous target_now >>= λ d.
          send_checked group true d.1 >>= group_sent group ids d target_now)
      else ret []

  unfoldable pub advance_groups :
      List ProcessIdentity → ℕ → List (ProcessIdentity × Option Sequence) → T (List ℕ)
  unfolding advance_group
  advance_groups ids now [] = ret []
  advance_groups ids now (g ∷ gs) = do
    covered ← advance_group ids now g
    rest ← advance_groups ids now gs
    ret (covered ++ rest)

  unfoldable pub member_sent : ProcessIdentity → Due → ℕ → Bool → T (Unit {0})
  unfolding after fail_if
  member_sent member d now true =
      after d.0 now >>= λ s. do modify (set_member member s); fail_if d.2
  member_sent member d now false = ret tt

  unfoldable pub member_due : ProcessIdentity → ℕ → Due → T (Unit {0})
  unfolding send_checked member_sent
  member_due member now d = elim d.1 [
    | none ↦ ret tt
    | some s ↦ send_checked member false (some s) >>= member_sent member d now
  ]

  unfoldable pub advance_member : ℕ → ProcessIdentity → T (Unit {0})
  unfolding now_from due member_due
  advance_member now member = gets (λ t. lookup same_identity member t.members) >>= λ previous.
      now_from now >>= λ target_now. due previous target_now >>= member_due member target_now

  unfoldable pub advance_members : ℕ → List ProcessIdentity → T (Unit {0})
  unfolding advance_member
  advance_members now [] = ret tt
  advance_members now (m ∷ ms) = advance_member now m >> advance_members now ms

  -- The two loops of `advance`, over the groups and over the members that they do not cover.
  unfoldable pub phases : ℕ → List ProcessIdentity → T (Unit {0})
  unfolding advance_groups advance_members
  phases now ids = do
    groups ← gets (λ t. t.groups)
    covered ← advance_groups ids now groups
    advance_members now (keep_if (λ id. not (has_pid covered id.pid)) ids)

  unfoldable pub advance : ℕ → T Progress
  unfolding phases conclude
  advance now = gets (λ t. t.cleanup) >>= λ c. elim c [
    | none ↦ ret (record { done = false; confirmed = false })
    | some cleanup ↦ do
      ids ← gets live
      phases now ids
      conclude ids (leb cleanup.deadline now) cleanup
  ]

  unfoldable pub kill_late : List ProcessIdentity → T (Unit {0})
  unfolding send_checked
  kill_late [] = ret tt
  kill_late (id ∷ ids) = send_checked id false (some kill) >>= λ sent. kill_late ids

  -- Whether the last inventory found nothing alive, and nothing was uncertain.
  unfoldable pub finish_scan : T Bool
  unfolding scan kill_late
  finish_scan = do
    scan source
    ids ← gets live
    (if is_empty ids then ret tt else fail)
    kill_late ids
    gets (λ t. not t.uncertain && (t.incomplete_scans == 0))
