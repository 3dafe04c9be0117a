-- ===== src/Tracking/Scanned.antt =====
-- What `scan` of tracking.rs leaves behind.
use forcola.Prelude.{
  ◌≤◌, ◌≡◌, refl, ap, Bool, true, false, some, leb, length, keep_if, Bool-cases, inl, inr, ◌⊎◌,
  arith,
}
use forcola.Tracking.World.{Source, Tracker, World, ◌>>=◌, ◌>>◌, modify}
use forcola.Tracking.Refresh.{saturating_suc, count_scan, check_scans, inventory, scan}
use forcola.Tracking.Evolves.{NoTarget, is_signal, Evolves, stay, acts, changes, signals}
use forcola.Tracking.Keeps.{Keeps, refl-Keeps, trans-Keeps}
use forcola.Tracking.Discovery.{inventory-Scans}

-- What a scan leaves behind, from one world to another.
pub record Scanned (w w' : World) : Type 0 where
  pub silent : keep_if is_signal w'.1 ≡ keep_if is_signal w.1
  pub sticky : w.0.uncertain ≡ true → w'.0.uncertain ≡ true
  pub limit : w'.0.group_limit ≡ w.0.group_limit
  pub bounded : length w.0.groups ≤ w.0.group_limit → length w'.0.groups ≤ w'.0.group_limit
  pub counted :
      (w'.0.incomplete_scans ≡ 0) ⊎ (w'.0.incomplete_scans ≡ saturating_suc w.0.incomplete_scans)
  pub gives_up : 3 ≤ w'.0.incomplete_scans → w'.0.uncertain ≡ true

module _ (source : Source) where
  silent_lem :
      {w w' : World}
      → Evolves source Keeps NoTarget ⊥ w w'
      → keep_if is_signal w'.1 ≡ keep_if is_signal w.1
  silent_lem stay = refl
  silent_lem (acts a q e) = rw q (silent_lem e)
  silent_lem (changes p e) = silent_lem e
  silent_lem (signals x g s r z p q b e) = absurd z

  keeps_lem : {w w' : World} → Evolves source Keeps NoTarget ⊥ w w' → Keeps w.0 w'.0
  keeps_lem {w} stay = refl-Keeps w.0
  keeps_lem (acts a q e) = keeps_lem e
  keeps_lem {w} (changes {t} {t'} p e) = trans-Keeps w.0 t t' (keeps_lem e) p
  keeps_lem (signals x g s r z p q b e) = keeps_lem e

  ended : Bool → World → World
  ended i w = (check_scans (count_scan i w.0), w.1)

  counted_lem :
      (i : Bool) (t t' : Tracker)
      → t'.incomplete_scans ≡ t.incomplete_scans
      → ((count_scan i t').incomplete_scans ≡ 0)
        ⊎ ((count_scan i t').incomplete_scans ≡ saturating_suc t.incomplete_scans)
  counted_lem true t t' e = inr (ap saturating_suc e)
  counted_lem false t t' e = inl refl

  ended-Scanned :
      (i : Bool) (w w' : World) → Evolves source Keeps NoTarget ⊥ w w' → Scanned w (ended i w')
  unfolding ended
  ended-Scanned i w w' e = elim (Bool-cases (leb 3 (count_scan i w'.0).incomplete_scans)) [
    | inl many ↦ rw many (record {
      silent = silent_lem e;
      sticky = λ x. refl;
      limit = (keeps_lem e).limit;
      bounded = λ x. rw (keeps_lem e).limit ((keeps_lem e).bounded x);
      counted = counted_lem i w.0 w'.0 (keeps_lem e).scans;
      gives_up = λ x. refl;
    })
    | inr few ↦ rw few (record {
      silent = silent_lem e;
      sticky = (keeps_lem e).sticky;
      limit = (keeps_lem e).limit;
      bounded = λ x. rw (keeps_lem e).limit ((keeps_lem e).bounded x);
      counted = counted_lem i w.0 w'.0 (keeps_lem e).scans;
      gives_up = λ x. ground arith;
    })
  ]

  -- A scan returns, whatever the source answers. It sends no signal, never takes back a failure, and
  -- keeps the number of groups within the limit. The count of incomplete scans in a row goes back
  -- to 0 or up by one, to at most 255; from 3 on the tracker is uncertain.
  pub scan_lem : (w : World) → ((scan source w).0 ≡ some tt) × Scanned w (scan source w).1
  unfolding scan ◌>>=◌ ◌>>◌ modify ended
  scan_lem w = elim ((inventory-Scans source).returns w) [
    | inl (i, e) ↦
        rw (e, scan, ◌>>=◌)
          (refl, ended-Scanned i w (inventory source w).1 ((inventory-Scans source).at w))
    | inr z ↦ absurd z
  ]
