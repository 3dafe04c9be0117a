-- ===== src/Handshake/Accepted.antt =====
-- Which input a child is spawned for.
use mathlib.Core.Path.{subst}
use forcola.Prelude.{
  ◌≡◌, refl, ap, ◌∙◌, sym, Bool-cases, arith, ℕ, List, Bool, true, false, Option, none, some, ◌==◌,
  if◌then◌else◌, ◌⊎◌, inl, inr,
}
use forcola.Frame
use forcola.Frame.{
  Frame, read_frame, write_frame, Writer, tag_spawn, tag_hello, tag_error, tag_capabilities,
  tag_spawned, tag_tracked,
}
use forcola.Protocol.{SpawnRequest}
use forcola.Features.{
  SelectedFeatures, Selection, selected, invalid_payload, unsupported, select_features,
}
use forcola.Identity.{ProcessIdentity}
use forcola.Errors.{Result, ok, err}
use forcola.Handshake.{
  Reason, invalid_hello, unsupported_feature, expected_spawn, invalid_spawn, invalid_interrupt,
  tracking_unavailable, Outside, Session, Exit, returned, broke, H, and_then, ◌>>=◌, ◌>>◌, ret,
  exit, or_exit, read, write, default_features, is_paired, refuse, announce, select, hello, decoded,
  spawn_frame, paired, prepared, negotiate,
}

-- The frame behind the greeting, and the features that it selects.
pub data Greets {Child : Type 0} (outside : Outside Child) (src : Frame.Source)
    : SelectedFeatures × Option Frame → Type 0 where
  plain :
      {o : Option Frame}
      → (read_frame src).0 ≡ Frame.Result.ok o
      → Greets outside src (default_features, o)
  greeted :
      {h : Frame} {features : SelectedFeatures} {o : Option Frame}
      → (read_frame src).0 ≡ Frame.Result.ok (some h)
      → h.tag ≡ tag_hello
      → select_features outside.decode_hello h.payload outside.capabilities ≡ selected features
      → (read_frame (read_frame src).1).0 ≡ Frame.Result.ok o
      → Greets outside src (features, o)

-- A request that a child may be spawned for.
pub record Accepted {Child : Type 0} (outside : Outside Child) (src : Frame.Source)
    (features : SelectedFeatures) (request : SpawnRequest) : Type 0 where
  pub frame : Frame
  pub greets : Greets outside src (features, some frame)
  pub tag : frame.tag ≡ tag_spawn
  pub decodes : outside.decode_spawn frame.payload ≡ some request
  pub pair : is_paired request.interrupt_signal request.interrupt_grace_ms ≡ true
  pub tracks :
      features.track_descendants ≡ true
      → (shim : ProcessIdentity) × (outside.prepare_tracking ≡ ok shim)

-- What every result of a part meets, from a session.
pub record Gives {A : Type 0} (m : H A) (s : Session) (P : A → Type 0) : Type 0 where
  pub at : (a : A) (s' : Session) → m s ≡ (inl a, s') → P a

Gives->>= :
    {A B : Type 0} {P : B → Type 0} (m : H A) (f : A → H B) (s : Session)
    → ((a : A) (s' : Session) → m s ≡ (inl a, s') → Gives (f a) s' P)
    → Gives (m >>= f) s P
unfolding ◌>>=◌
Gives->>= {A} {B} {P} m f s k = record { at = at_result (m s) refl }
  where
    at_result :
        (r : (A ⊎ Exit) × Session)
        → m s ≡ r
        → (b : B) (s' : Session) → and_then r f ≡ (inl b, s')
        → P b
    at_result (inl a, t) e b s' q = (k a t e).at b s' q
    at_result (inr x, t) e b s' q = cc

Gives->> :
    {B : Type 0} {P : B → Type 0} (m : H (Unit {0})) (k : H B) (s : Session)
    → ((s' : Session) → m s ≡ (inl tt, s') → Gives k s' P)
    → Gives (m >> k) s P
unfolding ◌>>◌
Gives->> m k s f = Gives->>= m (λ _. k) s (λ a s' e. f s' e)

ret-Gives : {A : Type 0} {P : A → Type 0} (a : A) (s : Session) → P a → Gives (ret a) s P
unfolding ret
ret-Gives {A} {P} a s p = record { at = λ b s' e. subst P (cc) p }

exit-Gives : {A : Type 0} {P : A → Type 0} (x : Exit) (s : Session) → Gives (exit x) s P
unfolding exit
exit-Gives x s = record { at = λ b s' e. cc }

read-ok :
    (o : Option Frame) (s s' : Session)
    → read s ≡ (inl o, s')
    → ((read_frame s.input).0 ≡ Frame.Result.ok o) × (s'.input ≡ (read_frame s.input).1)
unfolding read
read-ok o s s' e = at_result (read_frame s.input).0 refl (ap (λ r. r.0) e)
  where
    at_result :
        (r : Frame.Result (Option Frame))
        → (read_frame s.input).0 ≡ r
        → or_exit r ≡ inl o
        → ((read_frame s.input).0 ≡ Frame.Result.ok o) × (s'.input ≡ (read_frame s.input).1)
    at_result (Frame.Result.ok a) q x = (cc, sym (ap (λ r. r.1.input) e))
    at_result (Frame.Result.err a) q x = cc

write-input :
    (tag : ℕ) (payload : List ℕ) (b : Bool) (s s' : Session)
    → write tag payload s ≡ (inl b, s')
    → s'.input ≡ s.input
unfolding write
write-input tag payload b s s' e = sym (ap (λ r. r.1.input) e)

module _ {Child : Type 0} (outside : Outside Child) where
  refuse-Gives :
      {A : Type 0} {P : A → Type 0} (reason : Reason) (s : Session)
      → Gives (refuse outside reason) s P
  unfolding refuse
  refuse-Gives reason s = Gives->> _ _ s (λ s' e. exit-Gives returned s')

  announce-Gives :
      (features : SelectedFeatures) (s : Session)
      → Gives
          (announce outside features)
          s
          (λ r. (r.0 ≡ features) × ((read_frame s.input).0 ≡ Frame.Result.ok r.1))
  unfolding announce
  announce-Gives features s =
      at_payload
        (outside.encode_capabilities (record { protocol = 1; features = outside.capabilities }))
    where
      Good : SelectedFeatures × Option Frame → Type 0
      Good r = (r.0 ≡ features) × ((read_frame s.input).0 ≡ Frame.Result.ok r.1)

      written :
          (fine : Bool) (s' : Session)
          → s'.input ≡ s.input
          → Gives (if fine then (read >>= λ frame. ret (features, frame)) else exit broke) s' Good
      written true s' same = Gives->>= read _ s' (λ o t e.
          ret-Gives (features, o) t
            (refl, ap (λ i. (read_frame i).0) (sym same) ∙ (read-ok o s' t e).0))
      written false s' same = exit-Gives broke s'

      at_payload :
          (o : Option (List ℕ))
          → Gives
              (elim o [
                | none ↦ exit broke
                | some payload ↦ write tag_capabilities payload >>= λ fine.
                    if fine then (read >>= λ frame. ret (features, frame)) else exit broke
              ])
              s
              Good
      at_payload none = exit-Gives broke s
      at_payload (some payload) =
          Gives->>= (write tag_capabilities payload) _ s
            (λ fine s' e. written fine s' (write-input tag_capabilities payload fine s s' e))

  hello-Gives :
      (src : Frame.Source) (o : Option Frame) (s : Session)
      → (read_frame src).0 ≡ Frame.Result.ok o
      → s.input ≡ (read_frame src).1
      → Gives (hello outside o) s (Greets outside src)
  unfolding hello
  hello-Gives src none s e i = ret-Gives _ s (plain e)
  hello-Gives src (some f) s e i = elim (Bool-cases (f.tag == tag_hello)) [
    | inr other ↦ rw other (ret-Gives _ s (plain e))
    | inl greeting ↦ rw greeting (
        at_selection (select_features outside.decode_hello f.payload outside.capabilities) refl
          (ground arith))
  ]
    where
      at_selection :
          (x : Selection)
          → select_features outside.decode_hello f.payload outside.capabilities ≡ x
          → f.tag ≡ tag_hello
          → Gives (select outside x) s (Greets outside src)
      at_selection (selected features) q t = record {
        at = λ r s' x.
            let (a, b) = (announce-Gives features s).at r s' x in
            greeted e t (q ∙ ap selected (sym a)) (ap (λ z. (read_frame z).0) (sym i) ∙ b);
      }
      at_selection invalid_payload q t = refuse-Gives invalid_hello s
      at_selection (unsupported feature) q t = refuse-Gives (unsupported_feature feature) s

  spawn_frame-Gives :
      (o : Option Frame) (s : Session)
      → Gives (spawn_frame outside o) s (λ r.
        (f : Frame) × (o ≡ some f)
        × (f.tag ≡ tag_spawn)
        × (outside.decode_spawn f.payload ≡ some r))
  unfolding spawn_frame
  spawn_frame-Gives none s = exit-Gives returned s
  spawn_frame-Gives (some f) s = elim (Bool-cases (f.tag == tag_spawn)) [
    | inl spawns ↦ rw spawns (at_decoded (outside.decode_spawn f.payload) refl (ground arith))
    | inr other ↦ rw other (refuse-Gives expected_spawn s)
  ]
    where
      at_decoded :
          (x : Option SpawnRequest)
          → outside.decode_spawn f.payload ≡ x
          → f.tag ≡ tag_spawn
          → Gives (decoded outside x) s (λ r.
            (g : Frame) × (some f ≡ some g)
            × (g.tag ≡ tag_spawn)
            × (outside.decode_spawn g.payload ≡ some r))
      at_decoded none q t = refuse-Gives invalid_spawn s
      at_decoded (some r) q t = ret-Gives r s (f, refl, t, q)

  paired-Gives :
      (r : SpawnRequest) (s : Session)
      → Gives (paired outside r) s (λ u. is_paired r.interrupt_signal r.interrupt_grace_ms ≡ true)
  unfolding paired
  paired-Gives r s = elim (Bool-cases (is_paired r.interrupt_signal r.interrupt_grace_ms)) [
    | inl good ↦ rw (good, paired) (ret-Gives tt s refl)
    | inr bad ↦ rw (bad, paired) (refuse-Gives invalid_interrupt s)
  ]

  prepared-Gives :
      (x : Result ProcessIdentity) (s : Session)
      → Gives (prepared outside x) s (λ u. (shim : ProcessIdentity) × (x ≡ ok shim))
  unfolding prepared
  prepared-Gives (ok shim) s = ret-Gives tt s (shim, refl)
  prepared-Gives (err e) s = refuse-Gives (tracking_unavailable e) s

  tracks-Gives :
      (b : Bool) (s : Session)
      → Gives
          (if b then prepared outside outside.prepare_tracking else ret tt)
          s
          (λ u. b ≡ true → (shim : ProcessIdentity) × (outside.prepare_tracking ≡ ok shim))
  tracks-Gives true s = record {
    at = λ u s' e q. (prepared-Gives outside.prepare_tracking s).at u s' e;
  }
  tracks-Gives false s = ret-Gives tt s (λ q. cc)

  pub negotiate-Gives :
      (s : Session) → Gives (negotiate outside) s (λ r. Accepted outside s.input r.0 r.1)
  unfolding negotiate
  negotiate-Gives s = Gives->>= read _ s λ first s1 e1.
      let (q, i) = read-ok first s s1 e1 in
      Gives->>= (hello outside first) _ s1 λ r s2 e2.
        Gives->>= (spawn_frame outside r.1) _ s2 λ request s3 e3.
          Gives->> (paired outside request) _ s3 λ s4 e4.
            Gives->>
              (if r.0.track_descendants then prepared outside outside.prepare_tracking else ret tt)
              _ s4
              λ s5 e5.
                let (f, o, t, d) = (spawn_frame-Gives r.1 s2).at request s3 e3 in
                ret-Gives (r.0, request) s5
                  (record {
                    frame = f;
                    greets =
                        subst (λ x. Greets outside s.input (r.0, x)) o
                          ((hello-Gives s.input first s1 q i).at r s2 e2);
                    tag = t;
                    decodes = d;
                    pair = (paired-Gives request s3).at tt s4 e4;
                    tracks = (tracks-Gives r.0.track_descendants s4).at tt s5 e5;
                  })
