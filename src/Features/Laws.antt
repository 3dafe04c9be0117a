-- ===== src/Features/Laws.antt =====
-- A session uses only features that the shim has announced.
use Prim.Native.String.{String}
use text.Mathlib.Text.{◌==◌}
use text.Mathlib.TextEquality.{eq_iff}
use forcola.Prelude.{
  ℕ, ◌≡◌, ap, sym, ◌∙◌, List, [], ◌∷◌, true, ◌||◌, Option, none, some, if◌then◌else◌, Bool-cases,
  Option-cases, inl, inr,
}
use forcola.Protocol.{HelloRequest}
use forcola.Features.{
  has, SelectedFeatures, selected, first_unsupported, select_request, select_features,
}

has-supported :
    (supported fs : List String) (feature : String)
    → first_unsupported supported fs ≡ none
    → has fs feature ≡ true
    → has supported feature ≡ true
has-supported supported [] feature n h = cc
has-supported supported (f ∷ fs) feature n h = elim (Bool-cases (has supported f)) [
  | inr hidden ↦
      let found : first_unsupported supported (f ∷ fs) ≡ some f =
        ap (λ b. if b then first_unsupported supported fs else some f) hidden in
      cc
  | inl known ↦
      let later : first_unsupported supported fs ≡ none =
        sym (ap (λ b. if b then first_unsupported supported fs else some f) known) ∙ n in
      elim (Bool-cases (f == feature)) [
        | inl same ↦ ap (has supported) (sym ((eq_iff f feature).0 same)) ∙ known
        | inr other ↦
            has-supported supported fs feature later (sym (ap (λ b. b || has fs feature) other) ∙ h)
      ]
]

-- A selected feature, and what was asked for.
pub record Announced (supported : List String) (s : SelectedFeatures) : Type 0 where
  pub identity : s.spawn_identity ≡ true → has supported "spawn_identity_v1" ≡ true
  pub errors : s.structured_spawn_errors ≡ true → has supported "structured_spawn_errors_v1" ≡ true
  pub tracking : s.track_descendants ≡ true → has supported "track_descendants_v1" ≡ true

selected_injective : {a b : SelectedFeatures} → selected a ≡ selected b → a ≡ b
selected_injective e = cc

select_request-Announced :
    (fs supported : List String) (s : SelectedFeatures)
    → select_request fs supported ≡ selected s
    → Announced supported s
unfolding select_request
select_request-Announced fs supported s = elim (Option-cases (first_unsupported supported fs)) [
  | inr (f, e) ↦ rw (e, select_request) (λ x. cc)
  | inl e ↦
      rw (e, select_request)
        (λ x. rw (sym (selected_injective x)) (record {
          identity = has-supported supported fs "spawn_identity_v1" e;
          errors = has-supported supported fs "structured_spawn_errors_v1" e;
          tracking = has-supported supported fs "track_descendants_v1" e;
        }))
]

-- Whatever HELLO asks for, a feature that the selection turns on is one that the shim supports.
pub select_features-Announced :
    (decode : List ℕ → Option HelloRequest) (payload : List ℕ) (supported : List String)
    (s : SelectedFeatures)
    → select_features decode payload supported ≡ selected s
    → Announced supported s
unfolding select_features
select_features-Announced decode [] supported s = select_request-Announced [] supported s
select_features-Announced decode (b ∷ bs) supported s = elim (Option-cases (decode (b ∷ bs))) [
  | inl e ↦ rw (e, select_features) (λ x. cc)
  | inr (r, e) ↦ rw (e, select_features) (select_request-Announced r.features supported s)
]
