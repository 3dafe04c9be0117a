-- ===== src/Handshake/Safety.antt =====
-- The children of a session start of native/forcola_shim/src/supervisor.rs.
use mathlib.Core.Path.{subst}
use forcola.Prelude.{
  ◌≡◌, refl, ap, ◌∙◌, Bool-cases, arith, ℕ, List, [], ◌∷◌, Bool, true, false, ◌||◌, Option, none,
  some, if◌then◌else◌, ◌⊎◌, inl, inr,
}
use forcola.Frame
use forcola.Frame.{
  Frame, read_frame, write_frame, Writer, tag_spawn, tag_hello, tag_error, tag_capabilities,
  tag_spawned, tag_tracked,
}
use forcola.Protocol.{SpawnRequest}
use forcola.Features.{SelectedFeatures}
use forcola.SpawnError.{SpawnFailure}
use forcola.Identity.{ProcessIdentity}
use forcola.Errors.{Result, ok, err}
use forcola.Handshake.{
  Reason, spawn_failed, identity_failed, Outside, Deed, spawned, aborted, Session, Exit, returned,
  broke, H, and_then, ◌>>=◌, ◌>>◌, ret, exit, deed, write, Running, send_error, write_error, refuse,
  negotiate, abort, send_identity, announce_child, identified, identify, split_master, launched,
  start,
}
use forcola.Handshake.Quiet.{negotiate-Quiet}
use forcola.Handshake.Accepted.{Accepted, negotiate-Gives}

-- How a start ends, from a session with no deeds: with no child; with one child, which is supervised; with one that was
-- spawned and aborted; or with one behind a pty that was spawned and left, neither aborted nor supervised.
pub data Started {Child : Type 0} (outside : Outside Child) (src : Frame.Source)
    : (Running Child ⊎ Exit) × Session → Type 0 where
  unspawned : {x : Exit} {s : Session} → s.deeds ≡ [] → Started outside src (inr x, s)
  running :
      {r : Running Child} {s : Session}
      → Accepted outside src r.features r.request
      → outside.spawn_child r.request r.features.structured_spawn_errors ≡ inl r.child
      → (r.features.track_descendants ≡ true
          → (id : ProcessIdentity) × (outside.read_identity r.child ≡ ok id)
            × (r.tracked ≡ some id))
      → ¬ (outside.clone_master r.child ≡ some false)
      → s.deeds ≡ spawned r.request ∷ []
      → Started outside src (inl r, s)
  undone :
      {x : Exit} {s : Session} (features : SelectedFeatures) (request : SpawnRequest)
      → Accepted outside src features request
      → s.deeds ≡ aborted ∷ spawned request ∷ []
      → Started outside src (inr x, s)
  stranded :
      {s : Session} (features : SelectedFeatures) (request : SpawnRequest) (child : Child)
      → Accepted outside src features request
      → features.track_descendants ≡ false
      → outside.spawn_child request features.structured_spawn_errors ≡ inl child
      → outside.clone_master child ≡ some false
      → s.deeds ≡ spawned request ∷ []
      → Started outside src (inr broke, s)

-- A part behind the spawn: it goes on with the same deeds, or ends with an abort.
data Announced {A : Type 0} (P : A → Type 0) (ds : List Deed) : (A ⊎ Exit) × Session → Type 0 where
  goes_on : {a : A} {s : Session} → P a → s.deeds ≡ ds → Announced P ds (inl a, s)
  ends : {x : Exit} {s : Session} → s.deeds ≡ aborted ∷ ds → Announced P ds (inr x, s)

Announced->> :
    {A B : Type 0} {P : A → Type 0} {Q : B → Type 0} {ds : List Deed} {x : (A ⊎ Exit) × Session}
    {f : A → H B}
    → Announced P ds x
    → ((a : A) (s : Session) → P a → s.deeds ≡ ds → Announced Q ds (f a s))
    → Announced Q ds (and_then x f)
Announced->> (goes_on {a} {s} p e) k = k a s p e
Announced->> (ends e) k = ends e

abbrev Any : {A : Type 0} → A → Type 0
Any a = Unit {0}

send_error-returns :
    (o : Option (List ℕ)) (s : Session)
    → (s' : Session) × (send_error o s ≡ (inl tt, s')) × (s'.deeds ≡ s.deeds)
unfolding send_error ret write ◌>>=◌
send_error-returns none s = (s, refl, refl)
send_error-returns (some payload) s =
    (record s { out = (write_frame s.out tag_error payload).1 }, refl, refl)

module _ {Child : Type 0} (outside : Outside Child) where
  write_error-returns :
      (reason : Reason) (s : Session)
      → (s' : Session) × (write_error outside reason s ≡ (inl tt, s')) × (s'.deeds ≡ s.deeds)
  unfolding write_error
  write_error-returns reason s = send_error-returns (outside.encode_error reason) s

  abort-Announced : (s : Session) → Announced {A = Unit {0}} Any s.deeds (abort outside broke s)
  unfolding ◌>>◌ ◌>>=◌ deed exit
  abort-Announced s = ends refl

  send_identity-Announced :
      (b : Bool) (tag : ℕ) (payload : List ℕ) (s : Session)
      → Announced Any s.deeds (send_identity outside b tag payload s)
  unfolding send_identity ret ◌>>=◌ write
  send_identity-Announced false tag payload s = goes_on tt refl
  send_identity-Announced true tag payload s = elim (Bool-cases (write_frame s.out tag payload).0) [
    | inl fine ↦ rw fine (goes_on tt refl)
    | inr broken ↦
        rw broken (abort-Announced (record s { out = (write_frame s.out tag payload).1 }))
  ]

  announce_child-Announced :
      (features : SelectedFeatures) (o : Option (List ℕ)) (s : Session)
      → Announced Any s.deeds (announce_child outside features o s)
  unfolding announce_child ◌>>◌ ◌>>=◌
  announce_child-Announced features none s = abort-Announced s
  announce_child-Announced features (some payload) s =
      Announced->> (send_identity-Announced features.spawn_identity tag_spawned payload s)
        (λ u s' p e.
          subst
            (λ ds.
              Announced Any ds
                (send_identity outside features.track_descendants tag_tracked payload s'))
            e (send_identity-Announced features.track_descendants tag_tracked payload s'))

  abbrev Tracks : SelectedFeatures → Result ProcessIdentity → Option ProcessIdentity → Type 0
  Tracks features r tracked =
      features.track_descendants ≡ true → (id : ProcessIdentity) × (r ≡ ok id) × (tracked ≡ some id)

  identified-Announced :
      (features : SelectedFeatures) (r : Result ProcessIdentity) (s : Session)
      → Announced (Tracks features r) s.deeds (identified outside features r s)
  unfolding identified ◌>>◌ ◌>>=◌ deed exit ret
  identified-Announced features (err e) s =
      let (s', q, d) =
        write_error-returns (identity_failed e) (record s { deeds = aborted ∷ s.deeds }) in
      rw q (ends d)
  identified-Announced features (ok id) s =
      Announced->> (announce_child-Announced features (outside.encode_identity id) s)
        (λ u s' p e. goes_on (λ t. (id, refl, ap (λ b. if b then some id else none) t)) e)

  identify-Announced :
      (features : SelectedFeatures) (child : Child) (s : Session)
      → Announced
          (Tracks features (outside.read_identity child))
          s.deeds
          (identify outside features child s)
  unfolding identify ret
  identify-Announced features child s =
      elim (Bool-cases (features.spawn_identity || features.track_descendants)) [
        | inl wanted ↦ rw wanted (identified-Announced features (outside.read_identity child) s)
        | inr unwanted ↦ rw unwanted (goes_on (λ t. absurd (ground arith)) refl)
      ]

  refuse-returns :
      {A : Type 0} (reason : Reason) (s : Session)
      → (s' : Session) × (refuse outside {A = A} reason s ≡ (inr returned, s'))
        × (s'.deeds ≡ s.deeds)
  unfolding refuse ◌>>◌ ◌>>=◌ exit
  refuse-returns {A} reason s =
      let (s', q, d) = write_error-returns reason s in
      (s', ap (λ x. and_then {B = A} x (λ u. exit returned)) q, d)

  launched-Started :
      (src : Frame.Source) (features : SelectedFeatures) (request : SpawnRequest)
      (x : Child ⊎ SpawnFailure) (s : Session)
      → Accepted outside src features request
      → outside.spawn_child request features.structured_spawn_errors ≡ x
      → s.deeds ≡ []
      → Started outside src (launched outside features request x s)
  unfolding launched split_master ◌>>◌ ◌>>=◌ deed exit ret
  launched-Started src features request (inr failure) s a e d =
      let (s', q, d') =
        refuse-returns {A = Running Child} (spawn_failed failure features.structured_spawn_errors)
          s in
      rw q (unspawned (d' ∙ d))
  launched-Started src features request (inl child) s a e d =
      at_identified _
        (identify-Announced features child (record s { deeds = spawned request ∷ s.deeds }))
    where
      with_master :
          (tracked : Option ProcessIdentity) (o : Option Bool) (s' : Session)
          → Tracks features (outside.read_identity child) tracked
          → outside.clone_master child ≡ o
          → s'.deeds ≡ spawned request ∷ []
          → Started outside src (
              and_then (split_master outside tracked o s') λ u. ret (record {
                features = features;
                request = request;
                child = child;
                tracked = tracked;
              }))
      with_master tracked none s' p c q = running a e p (λ h. absurd (cc)) q
      with_master tracked (some true) s' p c q = running a e p (λ h. absurd (cc)) q
      with_master (some id) (some false) s' p c q =
          undone features request a (ap (λ ds. aborted ∷ ds) q)
      with_master none (some false) s' p c q = stranded features request child a (untracked p) e c q
        where
          untracked :
              Tracks features (outside.read_identity child) none
              → features.track_descendants ≡ false
          untracked p = elim (Bool-cases features.track_descendants) [
            | inl tracks ↦ let (id, q, n) = p tracks in absurd (cc)
            | inr free ↦ free
          ]

      at_identified :
          (r : (Option ProcessIdentity ⊎ Exit) × Session)
          → Announced (Tracks features (outside.read_identity child)) (spawned request ∷ s.deeds) r
          → Started outside src (
              and_then r λ tracked.
                split_master outside tracked (outside.clone_master child)
                >> ret (record {
                  features = features;
                  request = request;
                  child = child;
                  tracked = tracked;
                }))
      at_identified _ (goes_on {a = tracked} {s = s1} p q) =
          with_master tracked _ s1 p refl (q ∙ ap (λ ds. spawned request ∷ ds) d)
      at_identified _ (ends q) =
          undone features request a (q ∙ ap (λ ds. aborted ∷ spawned request ∷ ds) d)

  -- From a session that has done nothing to a child yet, the start ends in one of four ways. No child was spawned; or one was, for an
  -- accepted request, and it is to be supervised; or one was, for an accepted request, and it was aborted; or
  -- one was, for an accepted request without tracking, the master of its pty could not be duplicated, and the
  -- start returns that error with the child neither aborted nor supervised. A child that is supervised is not behind
  -- a pty whose master could not be duplicated. A
  -- request is accepted if it stands in a SPAWN frame that comes first or behind a HELLO whose features were all
  -- granted, decodes, and pairs an interrupt signal with a grace from 1 to 2^32 - 1 or has neither, and if
  -- the tracking of descendants could be prepared when it was selected. A tracked child is supervised with the
  -- identity that was read from it.
  pub start-Started : (s : Session) → s.deeds ≡ [] → Started outside s.input (start outside s)
  unfolding start ◌>>=◌
  start-Started s d = at_result (negotiate outside s) refl ((negotiate-Quiet outside).same s)
    where
      at_result :
          (x : ((SelectedFeatures × SpawnRequest) ⊎ Exit) × Session)
          → negotiate outside s ≡ x
          → x.1.deeds ≡ s.deeds
          → Started outside s.input (
              and_then x
                λ r. launched outside r.0 r.1 (outside.spawn_child r.1 r.0.structured_spawn_errors))
      at_result (inr x, s') e q = unspawned (q ∙ d)
      at_result (inl (features, request), s') e q =
          launched-Started s.input features request _ s'
            ((negotiate-Gives outside s).at (features, request) s' e) refl (q ∙ d)
