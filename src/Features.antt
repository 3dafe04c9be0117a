-- ===== src/Features.antt =====
-- The features that a session can select, `supported_features_with_probe` and `select_features` of
-- native/forcola_shim/src/supervisor.rs.
pub mod Laws
mod Tests
use Prim.Native.String.{String}
use text.Mathlib.Text.{◌==◌}
use forcola.Prelude.{
  ℕ, List, [], ◌∷◌, ◌++◌, Bool, true, false, ◌||◌, Option, none, some, if◌then◌else◌,
}
use forcola.Protocol.{HelloRequest}

abbrev pub has : List String → String → Bool
has [] feature = false
has (f ∷ fs) feature = (f == feature) || has fs feature

-- `OnceLock::get_or_init`: the value, which is kept.
abbrev pub get_or_init : Option Bool → Bool → Bool
get_or_init none probed = probed
get_or_init (some kept) probed = kept

-- `cached` is the lock's value so far; `identity_ok` and `tracking_ok` are what the two probes find.
-- The second list is the features; the first result is what the lock then holds.
unfoldable pub supported_features_with_probe : Option Bool → Bool → Bool → Option Bool × List String
supported_features_with_probe cached identity_ok tracking_ok =
    let available = get_or_init cached identity_ok in
    let base = "bounded_run_v1" ∷ "env_unset_v1" ∷ "structured_spawn_errors_v1" ∷ [] in
    (
      some available,
      if available
          then base
            ++ "spawn_identity_v1" ∷ (if tracking_ok then "track_descendants_v1" ∷ [] else [])
          else base,
    )

pub record SelectedFeatures : Type 0 where
  pub spawn_identity : Bool
  pub structured_spawn_errors : Bool
  pub track_descendants : Bool

pub data Selection : Type 0 where
  selected : SelectedFeatures → Selection
  invalid_payload : Selection
  unsupported : (feature : String) → Selection

-- The first feature that is not supported.
abbrev pub first_unsupported : List String → List String → Option String
first_unsupported supported [] = none
first_unsupported supported (f ∷ fs) =
    if has supported f then first_unsupported supported fs else some f

unfoldable pub select_request : List String → List String → Selection
select_request features supported = elim (first_unsupported supported features) [
  | some feature ↦ unsupported feature
  | none ↦ selected (record {
    spawn_identity = has features "spawn_identity_v1";
    structured_spawn_errors = has features "structured_spawn_errors_v1";
    track_descendants = has features "track_descendants_v1";
  })
]

-- `decode` is `serde_json::from_slice`; an empty payload is the default request.
unfoldable pub select_features : (List ℕ → Option HelloRequest) → List ℕ → List String → Selection
unfolding select_request
select_features decode [] supported = select_request [] supported
select_features decode (b ∷ bs) supported = elim (decode (b ∷ bs)) [
  | none ↦ invalid_payload
  | some request ↦ select_request request.features supported
]
