-- ===== src/Handshake.antt =====
-- The start of a session, `run_with_capabilities` of native/forcola_shim/src/supervisor.rs up to the threads:
-- the frames before SPAWN, the spawn, the frames that announce the child, and the handles of a pty.
pub mod Quiet
pub mod Accepted
pub mod Safety
mod Tests
use Prim.Native.String.{String}
use forcola.Prelude.{
  ℕ, List, [], ◌∷◌, Bool, true, false, ◌&&◌, ◌||◌, Option, none, some, ◌==◌, leb, if◌then◌else◌,
  ◌⊎◌, inl, inr,
}
use forcola.Frame
use forcola.Frame.{
  Frame, read_frame, write_frame, Writer, tag_spawn, tag_hello, tag_error, tag_capabilities,
  tag_spawned, tag_tracked,
}
use forcola.Protocol.{HelloRequest, Capabilities, SpawnRequest, InterruptSignal}
use forcola.Features.{
  SelectedFeatures, Selection, selected, invalid_payload, unsupported, select_features,
}
use forcola.SpawnError.{SpawnFailure}
use forcola.Identity.{ProcessIdentity}
use forcola.Errors.{IoError, Result, ok, err}

-- The reasons of an ERROR frame; their texts are the encoder's.
pub data Reason : Type 0 where
  invalid_hello : Reason
  unsupported_feature : String → Reason
  expected_spawn : Reason
  invalid_spawn : Reason
  invalid_interrupt : Reason
  tracking_unavailable : IoError → Reason
  spawn_failed : SpawnFailure → Bool → Reason
  identity_failed : IoError → Reason

-- serde, and what the operating system answers.
pub record Outside (Child : Type 0) : Type 0 where
  pub capabilities : List String
  pub decode_hello : List ℕ → Option HelloRequest
  pub decode_spawn : List ℕ → Option SpawnRequest
  pub encode_capabilities : Capabilities → Option (List ℕ)
  pub encode_error : Reason → Option (List ℕ)
  pub encode_identity : ProcessIdentity → Option (List ℕ)
  pub prepare_tracking : Result ProcessIdentity
  pub spawn_child : SpawnRequest → Bool → Child ⊎ SpawnFailure
  pub read_identity : Child → Result ProcessIdentity
  pub clone_master : Child → Option Bool  -- whether `try_clone` works, for a child behind a pty

-- What happens to children.
pub data Deed : Type 0 where
  spawned : SpawnRequest → Deed
  aborted : Deed  -- `abort_startup`

-- The deeds come newest first.
pub record Session : Type 0 where
  pub input : Frame.Source
  pub out : Writer
  pub deeds : List Deed

-- `Ok(())` and `Err` before any supervision.
pub data Exit : Type 0 where
  returned broke : Exit

abbrev pub H : Type 0 → Type 0
H A = Session → (A ⊎ Exit) × Session

abbrev pub and_then : {A B : Type 0} → (A ⊎ Exit) × Session → (A → H B) → (B ⊎ Exit) × Session
and_then (inl a, s) f = f a s
and_then (inr e, s) f = (inr e, s)

infixl 5 ◌>>=◌ ◌>>◌
unfoldable pub ◌>>=◌ : {A B : Type 0} → H A → (A → H B) → H B
(m >>= f) s = and_then (m s) f

unfoldable pub ◌>>◌ : {B : Type 0} → H (Unit {0}) → H B → H B
unfolding ◌>>=◌
m >> k = m >>= λ _. k

unfoldable pub ret : {A : Type 0} → A → H A
ret a s = (inl a, s)

unfoldable pub exit : {A : Type 0} → Exit → H A
exit e s = (inr e, s)

unfoldable pub deed : Deed → H (Unit {0})
deed d s = (inl tt, record s { deeds = d ∷ s.deeds })

abbrev pub or_exit : {A : Type 0} → Frame.Result A → A ⊎ Exit
or_exit (Frame.Result.ok a) = inl a
or_exit (Frame.Result.err e) = inr broke

unfoldable pub read : H (Option Frame)
read s = let (r, rest) = read_frame s.input in (or_exit r, record s { input = rest })

-- `?` on a write, whose error is `none`.
unfoldable pub write : ℕ → List ℕ → H Bool
write tag payload s =
    let (fine, out) = write_frame s.out tag payload in (inl fine, record s { out = out })

-- An ERROR frame, if there is one; whether it could be written does not matter.
unfoldable pub send_error : Option (List ℕ) → H (Unit {0})
unfolding write
send_error none = ret tt
send_error (some payload) = write tag_error payload >>= λ fine. ret tt

abbrev pub default_features : SelectedFeatures
default_features = record {
  spawn_identity = false;
  structured_spawn_errors = false;
  track_descendants = false;
}

-- `(None, None) | (Some(_), Some(1..=4_294_967_295))`
abbrev pub is_paired : Option InterruptSignal → Option ℕ → Bool
is_paired none none = true
is_paired (some s) (some grace) = leb 1 grace && leb grace 4_294_967_295
is_paired _ _ = false

-- What `supervise` starts with: the identity that was read goes to the tracker of a tracked session.
pub record Running (Child : Type 0) : Type 0 where
  pub features : SelectedFeatures
  pub request : SpawnRequest
  pub child : Child
  pub tracked : Option ProcessIdentity

module _ {Child : Type 0} (outside : Outside Child) where
  -- `write_error` and `write_spawn_error`: a frame that cannot be written is dropped.
  unfoldable pub write_error : Reason → H (Unit {0})
  unfolding send_error
  write_error reason = send_error (outside.encode_error reason)

  unfoldable pub refuse : {A : Type 0} → Reason → H A
  unfolding write_error
  refuse reason = write_error reason >> exit returned

  unfoldable pub announce : SelectedFeatures → H (SelectedFeatures × Option Frame)
  unfolding write read
  announce features =
      elim (outside.encode_capabilities
        (record { protocol = 1; features = outside.capabilities })) [
          | none ↦ exit broke
          | some payload ↦ write tag_capabilities payload >>= λ fine.
              if fine then (read >>= λ frame. ret (features, frame)) else exit broke
        ]

  unfoldable pub select : Selection → H (SelectedFeatures × Option Frame)
  unfolding refuse announce
  select (selected features) = announce features
  select invalid_payload = refuse invalid_hello
  select (unsupported feature) = refuse (unsupported_feature feature)

  unfoldable pub hello : Option Frame → H (SelectedFeatures × Option Frame)
  unfolding select
  hello none = ret (default_features, none)
  hello (some f) =
      if f.tag == tag_hello
      then select (select_features outside.decode_hello f.payload outside.capabilities)
      else ret (default_features, some f)

  unfoldable pub decoded : Option SpawnRequest → H SpawnRequest
  unfolding refuse
  decoded none = refuse invalid_spawn
  decoded (some request) = ret request

  unfoldable pub spawn_frame : Option Frame → H SpawnRequest
  unfolding refuse decoded
  spawn_frame none = exit returned
  spawn_frame (some f) =
      if f.tag == tag_spawn then decoded (outside.decode_spawn f.payload) else refuse expected_spawn

  unfoldable pub paired : SpawnRequest → H (Unit {0})
  unfolding refuse
  paired request =
      if is_paired request.interrupt_signal request.interrupt_grace_ms
      then ret tt
      else refuse invalid_interrupt

  unfoldable pub prepared : Result ProcessIdentity → H (Unit {0})
  unfolding refuse
  prepared (ok shim) = ret tt
  prepared (err e) = refuse (tracking_unavailable e)

  -- Everything before the child is spawned.
  unfoldable pub negotiate : H (SelectedFeatures × SpawnRequest)
  unfolding hello spawn_frame paired prepared read
  negotiate = read >>= λ first. hello first >>= λ r. spawn_frame r.1 >>= λ request.
      paired request
      >> ((if r.0.track_descendants then prepared outside.prepare_tracking else ret tt)
          >> ret (r.0, request))

  abbrev pub abort : {A : Type 0} → Exit → H A
  abort e = deed aborted >> exit e

  -- One of the frames that carry the identity; the child goes with a frame that cannot be written.
  unfoldable pub send_identity : Bool → ℕ → List ℕ → H (Unit {0})
  unfolding write
  send_identity false tag payload = ret tt
  send_identity true tag payload =
      write tag payload >>= λ fine. if fine then ret tt else abort broke

  unfoldable pub announce_child : SelectedFeatures → Option (List ℕ) → H (Unit {0})
  unfolding send_identity
  announce_child features none = abort broke
  announce_child features (some payload) =
      send_identity features.spawn_identity tag_spawned payload
      >> send_identity features.track_descendants tag_tracked payload

  unfoldable pub identified : SelectedFeatures → Result ProcessIdentity → H (Option ProcessIdentity)
  unfolding announce_child write_error
  identified features (err e) = deed aborted >> (write_error (identity_failed e) >> exit returned)
  identified features (ok identity) =
      announce_child features (outside.encode_identity identity)
      >> ret (if features.track_descendants then some identity else none)

  unfoldable pub identify : SelectedFeatures → Child → H (Option ProcessIdentity)
  unfolding identified
  identify features child =
      if features.spawn_identity || features.track_descendants
      then identified features (outside.read_identity child)
      else ret none

  -- The second handle of a pty's master; without one only a tracked child is aborted.
  unfoldable pub split_master : Option ProcessIdentity → Option Bool → H (Unit {0})
  split_master tracked none = ret tt
  split_master tracked (some true) = ret tt
  split_master (some id) (some false) = abort broke
  split_master none (some false) = exit broke

  unfoldable pub launched :
      SelectedFeatures → SpawnRequest → Child ⊎ SpawnFailure → H (Running Child)
  unfolding refuse identify split_master
  launched features request (inr failure) =
      refuse (spawn_failed failure features.structured_spawn_errors)
  launched features request (inl child) =
      deed (spawned request)
      >> (identify features child >>= λ tracked.
          split_master tracked (outside.clone_master child)
          >> ret
              (record { features = features; request = request; child = child; tracked = tracked }))

  -- `run_with_capabilities`, up to the threads.
  unfoldable pub start : H (Running Child)
  unfolding negotiate launched
  start = negotiate >>= λ r. launched r.0 r.1 (outside.spawn_child r.1 r.0.structured_spawn_errors)
