-- ===== src/Features/Tests.antt =====
-- A HELLO that selects tracking.
use Prim.Native.String.{String}
use forcola.Prelude.{ℕ, refl, List, [], ◌∷◌, true, false, Option, some}
use forcola.Protocol.{HelloRequest}
use forcola.Features.{SelectedFeatures, select_features}
use forcola.Features.Laws.{Announced, select_features-Announced}

abbrev decode : List ℕ → Option HelloRequest
decode payload = some (record { features = "track_descendants_v1" ∷ [] })

abbrev supported : List String
supported = "spawn_identity_v1" ∷ "track_descendants_v1" ∷ []

abbrev tracks : SelectedFeatures
tracks = record {
  spawn_identity = false;
  structured_spawn_errors = false;
  track_descendants = true;
}

select_features-Announced_example : Announced supported tracks
unfolding select_features
select_features-Announced_example =
    select_features-Announced decode (123 ∷ []) supported tracks refl
