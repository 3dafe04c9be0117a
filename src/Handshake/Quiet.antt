-- ===== src/Handshake/Quiet.antt =====
-- The parts of a session start that have nothing to do with a child.
use forcola.Prelude.{
  ◌≡◌, refl, ◌∙◌, ℕ, List, Bool, true, false, Option, none, some, if◌then◌else◌, ◌⊎◌, inl, inr,
}
use forcola.Frame.{Frame, tag_capabilities}
use forcola.Protocol.{SpawnRequest}
use forcola.Features.{SelectedFeatures, Selection, selected, invalid_payload, unsupported}
use forcola.Identity.{ProcessIdentity}
use forcola.Errors.{Result, ok, err}
use forcola.Handshake.{
  Reason, Outside, Session, Exit, broke, H, and_then, ◌>>=◌, ◌>>◌, ret, exit, read, write,
  send_error, write_error, refuse, announce, select, hello, decoded, spawn_frame, paired, prepared,
  negotiate,
}

-- A part that does nothing to a child.
pub record Quiet {A : Type 0} (m : H A) : Type 0 where
  pub same : (s : Session) → (m s).1.deeds ≡ s.deeds

pub Quiet->>= :
    {A B : Type 0} {m : H A} {f : A → H B} → Quiet m → ((a : A) → Quiet (f a)) → Quiet (m >>= f)
unfolding ◌>>=◌
Quiet->>= {A} {B} {m} {f} x y = record { same = λ s. at_result s (m s) (x.same s) }
  where
    at_result :
        (s : Session) (r : (A ⊎ Exit) × Session)
        → r.1.deeds ≡ s.deeds
        → (and_then r f).1.deeds ≡ s.deeds
    at_result s (inl a, s') e = (y a).same s' ∙ e
    at_result s (inr a, s') e = e

pub Quiet->> : {B : Type 0} {m : H (Unit {0})} {k : H B} → Quiet m → Quiet k → Quiet (m >> k)
unfolding ◌>>◌
Quiet->> x y = Quiet->>= x (λ _. y)

pub ret-Quiet : {A : Type 0} (a : A) → Quiet (ret a)
unfolding ret
ret-Quiet a = record { same = λ s. refl }

pub exit-Quiet : {A : Type 0} (e : Exit) → Quiet (exit {A = A} e)
unfolding exit
exit-Quiet e = record { same = λ s. refl }

pub read-Quiet : Quiet read
unfolding read
read-Quiet = record { same = λ s. refl }

pub write-Quiet : (tag : ℕ) (payload : List ℕ) → Quiet (write tag payload)
unfolding write
write-Quiet tag payload = record { same = λ s. refl }

pub if-Quiet :
    {A : Type 0} (b : Bool) (m m' : H A) → Quiet m → Quiet m' → Quiet (if b then m else m')
if-Quiet true m m' x y = x
if-Quiet false m m' x y = y

ruleset quiet = (Quiet->>=, Quiet->>, ret-Quiet, exit-Quiet, read-Quiet, write-Quiet, if-Quiet)

send_error-Quiet : (o : Option (List ℕ)) → Quiet (send_error o)
unfolding send_error
send_error-Quiet none = search quiet
send_error-Quiet (some payload) = search quiet

module _ {Child : Type 0} (outside : Outside Child) where
  pub write_error-Quiet : (reason : Reason) → Quiet (write_error outside reason)
  unfolding write_error
  write_error-Quiet reason = send_error-Quiet (outside.encode_error reason)

  pub refuse-Quiet : {A : Type 0} (reason : Reason) → Quiet (refuse outside {A = A} reason)
  unfolding refuse
  refuse-Quiet reason = search (quiet, write_error-Quiet)

  announce-Quiet : (features : SelectedFeatures) → Quiet (announce outside features)
  unfolding announce
  announce-Quiet features =
      at_payload
        (outside.encode_capabilities (record { protocol = 1; features = outside.capabilities }))
    where
      at_payload :
          (o : Option (List ℕ))
          → Quiet {A = SelectedFeatures × Option Frame} (elim o [
            | none ↦ exit broke
            | some payload ↦ write tag_capabilities payload >>= λ fine.
                if fine then (read >>= λ frame. ret (features, frame)) else exit broke
          ])
      at_payload none = search quiet
      at_payload (some payload) = search quiet depth 10

  select-Quiet : (s : Selection) → Quiet (select outside s)
  unfolding select
  select-Quiet (selected features) = search announce-Quiet
  select-Quiet invalid_payload = search refuse-Quiet
  select-Quiet (unsupported feature) = search refuse-Quiet

  hello-Quiet : (o : Option Frame) → Quiet (hello outside o)
  unfolding hello
  hello-Quiet none = search quiet
  hello-Quiet (some f) = search (quiet, select-Quiet)

  decoded-Quiet : (o : Option SpawnRequest) → Quiet (decoded outside o)
  unfolding decoded
  decoded-Quiet none = search refuse-Quiet
  decoded-Quiet (some r) = search quiet

  spawn_frame-Quiet : (o : Option Frame) → Quiet (spawn_frame outside o)
  unfolding spawn_frame
  spawn_frame-Quiet none = search quiet
  spawn_frame-Quiet (some f) = search (quiet, decoded-Quiet, refuse-Quiet)

  paired-Quiet : (r : SpawnRequest) → Quiet (paired outside r)
  unfolding paired
  paired-Quiet r = search (quiet, refuse-Quiet)

  prepared-Quiet : (r : Result ProcessIdentity) → Quiet (prepared outside r)
  unfolding prepared
  prepared-Quiet (ok i) = search quiet
  prepared-Quiet (err e) = search refuse-Quiet

  pub negotiate-Quiet : Quiet (negotiate outside)
  unfolding negotiate
  negotiate-Quiet =
      search (quiet, hello-Quiet, spawn_frame-Quiet, paired-Quiet, prepared-Quiet) depth 12
