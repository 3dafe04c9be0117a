-- ===== src/Tracking/Outcome.antt =====
-- What `advance` and `finish_scan` of tracking.rs say of a cleanup, and which signals they send.
use forcola.Prelude.{
  All-every, ℕ, ◌≤◌, ◌<◌, ◌≡◌, refl, ap, sym, ◌∙◌, List, [], ◌∷◌, Bool, true, false, not, ◌&&◌,
  Option, none, some, ◌==◌, leb, if◌then◌else◌, ◌≢◌, Bool-cases, inl, inr, arith, AllValues-map,
}
use forcola.Identity.{ProcessIdentity}
use forcola.Tracking.{Sequence, Cleanup, Phase}
use forcola.Tracking.Phases.{IsPhaseOf, with_grace, terminates, kills, IsOpen}
use forcola.Tracking.World.{
  Source, Tracker, World, T, ◌>>=◌, ◌>>◌, ret, gets, modify, fail, failing,
}
use forcola.Tracking.Advance.{
  live, Progress, phases, is_empty, quiet, count_empty, conclude, advance, kill_late,
}
use forcola.Tracking.Refresh.{scan}
use forcola.Tracking.Advance.{finish_scan}
use forcola.Tracking.Panics.{kill_late-Runs}
use forcola.Tracking.Ready.{IsReady, phases-Ready}
use forcola.Tracking.Evolves.{Evolves, stay, acts, changes, signals}
use forcola.Tracking.Scanned.{scan_lem}
use forcola.Tracking.Signals.{Holds, refl-Holds, trans-Holds, phases_at}

-- What `advance` says of the world before it, `w`, and behind it, `w'`.
pub record IsVerdict (ids : List ProcessIdentity) (c : Cleanup) (now : ℕ) (w : World) (p : Progress)
    (w' : World) : Type 0 where
  pub in_time : c.deadline ≤ now → p.done ≡ true
  pub patient : p.done ≡ true → now < c.deadline → (1 ≤ c.empty_scans) × (w.0.incomplete_scans ≡ 0)
  pub confirms :
      p.confirmed ≡ true
      → (p.done ≡ true) × (ids ≡ []) × (w.0.incomplete_scans ≡ 0) × (w'.0.uncertain ≡ false)

conclude_lem :
    (ids : List ProcessIdentity) (c : Cleanup) (now : ℕ) (w : World)
    → (p : Progress) × ((conclude ids (leb c.deadline now) c w).0 ≡ some p)
      × IsVerdict ids c now w p (conclude ids (leb c.deadline now) c w).1
unfolding conclude ◌>>=◌ ◌>>◌ modify gets
conclude_lem [] c now w = (
  _,
  refl,
  record {
    in_time = λ e. ground arith;
    patient = λ e l. ground arith;
    confirms = λ e. ground arith;
  },
)
conclude_lem (id ∷ ids) c now w = (
  _,
  refl,
  record {
    in_time = λ e. ground arith;
    patient = λ e l. ground arith;
    confirms = λ e. ground arith;
  },
)

conclude-Holds :
    (ids : List ProcessIdentity) (c : Cleanup) (b : Bool) (w : World)
    → Holds w.0 (conclude ids b c w).1.0
unfolding conclude ◌>>=◌ ◌>>◌ modify gets
conclude-Holds ids c b w = elim (Bool-cases (b && not (quiet ids w.0))) [
  | inl e ↦ rw e (record { sticky = λ x. refl; processes = refl; scans = refl })
  | inr e ↦ rw e (record { sticky = λ x. x; processes = refl; scans = refl })
]

IsPhaseOf-count :
    (c c' : Cleanup) → c'.interrupt ≡ c.interrupt → {p : Phase} → IsPhaseOf c p → IsPhaseOf c' p
IsPhaseOf-count c c' e (with_grace q) = with_grace (e ∙ q)
IsPhaseOf-count c c' e terminates = terminates
IsPhaseOf-count c c' e kills = kills

IsOpen-count :
    (c c' : Cleanup) → c'.interrupt ≡ c.interrupt → (o : Option Sequence) → IsOpen c o → IsOpen c' o
IsOpen-count c c' e none x = tt
IsOpen-count c c' e (some s) x = IsPhaseOf-count c c' e x

conclude-IsReady :
    (ids : List ProcessIdentity) (c : Cleanup) (b : Bool) (w : World)
    → IsReady c w.0
    → IsReady (count_empty ids w.0 c) (conclude ids b c w).1.0
unfolding conclude ◌>>=◌ ◌>>◌ modify gets
conclude-IsReady ids c b w r = elim (Bool-cases (b && not (quiet ids w.0))) [
  | inl e ↦ rw e (record {
    begun = refl;
    groups_open =
        AllValues-map w.0.groups (IsOpen-count c (count_empty ids w.0 c) refl) r.groups_open;
    members_open =
        AllValues-map w.0.members (λ s x. IsPhaseOf-count c (count_empty ids w.0 c) refl x)
          r.members_open;
  })
  | inr e ↦ rw e (record {
    begun = refl;
    groups_open =
        AllValues-map w.0.groups (IsOpen-count c (count_empty ids w.0 c) refl) r.groups_open;
    members_open =
        AllValues-map w.0.members (λ s x. IsPhaseOf-count c (count_empty ids w.0 c) refl x)
          r.members_open;
  })
]

abbrev AnyTarget : Bool → ProcessIdentity → Type 0
AnyTarget group e = Unit {0}

-- A step that returned.
>>-eq :
    {A : Type 0} (m : T (Unit {0})) (k : T A) (w : World)
    → (m w).0 ≡ some tt
    → (m >> k) w ≡ k (m w).1
unfolding ◌>>=◌ ◌>>◌
>>-eq m k w e = rw (e, ◌>>=◌) refl

holds_lem :
    {source : Source} {w w' : World}
    → Evolves source Holds AnyTarget (Unit {0}) w w'
    → Holds w.0 w'.0
holds_lem {w = w} stay = refl-Holds w.0
holds_lem (acts a q e) = holds_lem e
holds_lem {w = w} (changes {t} {t'} p e) = trans-Holds w.0 t t' (holds_lem e) p
holds_lem (signals x g s r z p q b e) = holds_lem e

module _ (source : Source) where
  advance-begun :
      (c : Cleanup) (now : ℕ) (w : World)
      → w.0.cleanup ≡ some c
      → advance source now w
        ≡ (phases source now (live w.0) >> conclude (live w.0) (leb c.deadline now) c) w
  unfolding advance ◌>>=◌ ◌>>◌ gets
  advance-begun c now w e = ap (λ o. (begun o) w) e
    where
      begun : Option Cleanup → T Progress
      begun o = elim o [
        | none ↦ ret (record { done = false; confirmed = false })
        | some cleanup ↦ do
          ids ← gets live
          phases source now ids
          conclude ids (leb cleanup.deadline now) cleanup
      ]

  -- `advance` of a tracker that is cleaning up, each target in a phase that has a grace, returns, and
  -- leaves it like that. At the deadline it is done; before it, only behind an earlier empty scan and
  -- a complete last one. Confirmed is only a cleanup that is done, of which the last scan was complete
  -- and left no process alive, and that is not uncertain behind it. What was uncertain stays so.
  pub advance-IsVerdict :
      (c : Cleanup) (now : ℕ) (w : World)
      → IsReady c w.0
      → (p : Progress) × (advance source now w).0 ≡ some p
        × IsVerdict (live w.0) c now w p (advance source now w).1
        × ((c' : Cleanup) × IsReady c' (advance source now w).1.0)
        × (w.0.uncertain ≡ true → (advance source now w).1.0.uncertain ≡ true)
  advance-IsVerdict c now w r =
      let (u, e, q, r') = (phases-Ready source c now (live w.0)).run w r in
      let v : World = (phases source now (live w.0) w).1 in
      let (p, d, x) = conclude_lem (live w.0) c now v in
      let same = holds_lem (
        phases_at source AnyTarget now (live w.0) w (All-every _ w.0.groups (λ g. tt))
          (All-every _ (live w.0) (λ e. tt))) in
      rw (advance-begun c now w r.begun ∙ >>-eq (phases source now (live w.0)) _ w e) (
        p,
        d,
        record {
          in_time = x.in_time;
          patient = λ e l. let (n, z) = x.patient e l in (n, sym same.scans ∙ z);
          confirms = λ e. let (g, i, z, y) = x.confirms e in (g, i, sym same.scans ∙ z, y);
        },
        (count_empty (live w.0) v.0 c, conclude-IsReady (live w.0) c (leb c.deadline now) v r'),
        λ z. (conclude-Holds (live w.0) c (leb c.deadline now) v).sticky (same.sticky z),
      )

  is_empty-nil : {A : Type 0} (xs : List A) → is_empty xs ≡ true → xs ≡ []
  is_empty-nil [] e = refl
  is_empty-nil (x ∷ xs) e = cc

  abbrev ending : List ProcessIdentity → T Bool
  ending ids =
      (if is_empty ids then ret tt else fail)
      >> (kill_late source ids >> gets (λ t. not t.uncertain && (t.incomplete_scans == 0)))

  abbrev IsBad : Tracker → Type 0
  IsBad t = t.uncertain ≡ true

  confirm : T Bool
  confirm = gets (λ t. not t.uncertain && (t.incomplete_scans == 0))

  -- A process alive in the last scan.
  ending_live :
      (ids : List ProcessIdentity) (w : World)
      → is_empty ids ≡ false
      → (b : Bool) × ((ending ids w).0 ≡ some b) × (b ≡ false) × IsBad (ending ids w).1.0
  unfolding confirm gets modify
  ending_live ids w e =
      let (u, q, _, z) =
        (kill_late-Runs IsBad source (λ t p. refl) ids).run (failing w.0, w.1) refl in
      let first : ending ids w ≡ (kill_late source ids >> confirm) (failing w.0, w.1) =
        ap (λ m. (m >> (kill_late source ids >> confirm)) w)
          (ap (λ b. if b then ret tt else fail) e)
        ∙ >>-eq fail (kill_late source ids >> confirm) w refl in
      rw (first ∙ >>-eq (kill_late source ids) confirm (failing w.0, w.1) q) (_, refl, rw z refl, z)

  -- The end of `finish_scan`, behind its scan.
  ending_lem :
      (ids : List ProcessIdentity) (w : World)
      → (b : Bool) × ((ending ids w).0 ≡ some b)
        × (b ≡ true
            → (ids ≡ []) × (w.0.incomplete_scans ≡ 0) × ((ending ids w).1.0.uncertain ≡ false))
        × (ids ≢ [] → IsBad (ending ids w).1.0)
  unfolding ◌>>=◌ ◌>>◌ gets ret kill_late
  ending_lem [] w = (_, refl, λ e. ground arith, λ n. absurd (n refl))
  ending_lem (id ∷ ids) w =
      let (b, e, q, z) = ending_live (id ∷ ids) w refl in (b, e, λ p. cc, λ n. z)

  -- `finish_scan` returns, whatever the source answers. It confirms only if its scan was complete and left no
  -- process alive, and the tracker is not uncertain behind it. With a process alive, the tracker is uncertain.
  pub finish_scan_lem :
      (w : World)
      → (b : Bool) × ((finish_scan source w).0 ≡ some b)
        × (b ≡ true
            → (live (scan source w).1.0 ≡ [])
              × ((scan source w).1.0.incomplete_scans ≡ 0)
              × ((finish_scan source w).1.0.uncertain ≡ false))
        × (live (scan source w).1.0 ≢ [] → (finish_scan source w).1.0.uncertain ≡ true)
  unfolding finish_scan ◌>>=◌ ◌>>◌ gets
  finish_scan_lem w =
      let v = (scan source w).1 in
      let split : finish_scan source w ≡ ending (live v.0) v =
        >>-eq (scan source) (gets live >>= ending) w (scan_lem source w).0 in
      rw split (ending_lem (live v.0) v)
