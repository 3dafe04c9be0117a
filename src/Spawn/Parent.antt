-- ===== src/Spawn/Parent.antt =====
-- What the parent does for a spawn: `spawn_child` and `window_size` of
-- native/forcola_shim/src/supervisor.rs.
use Prim.Native.String.{String}
use forcola.Prelude.{
  ℕ, List, [], ◌∷◌, Bool, true, false, Option, none, some, mapped, or_zero, if◌then◌else◌, ◌⊎◌, inl,
  inr,
}
use forcola.Errors.{simple, invalid_input, Result, ok, err}
use forcola.PrivDrop.{DropPlan}
use forcola.Protocol.{SpawnRequest, EnvMode, inherit, replace, CgroupMode, best_effort, required}
use forcola.SpawnError.{Stage, spawn, cwd, privdrop, pty, SpawnFailure}
use forcola.Spawn.{ChildSetup, finish_spawn}

-- `std::process::Command` as `spawn_child` sets it up.
pub record Command : Type 0 where
  pub program : String
  pub args : List String
  pub current_dir : Option String
  pub env_cleared : Bool
  pub env : List (String × Option String)
  pub on_pty : Bool

pub record Parent (Cgroup Pty Handle : Type 0) : Type 0 where
  pub resolve : Result (Option DropPlan)  -- `privdrop::resolve` of the request's user and group
  pub prepare : Option Cgroup
  pub prepare_required : Cgroup ⊎ SpawnFailure
  pub placement_path : Cgroup → String
  pub prepare_child_pty : Result Pty
  pub channel : Result (Unit {0})
  pub has_nul : String → Bool
  pub spawn : Command → ChildSetup → Result Handle × List ℕ  -- with what the report pipe holds

-- The operator `?` on a result with a failure.
infixl 5 ◌>>=◌ ◌>>◌
unfoldable pub ◌>>=◌ : {A B : Type 0} → A ⊎ SpawnFailure → (A → B ⊎ SpawnFailure) → B ⊎ SpawnFailure
inl a >>= f = f a
inr e >>= f = inr e

abbrev pub ◌>>◌ : {B : Type 0} → Unit {0} ⊎ SpawnFailure → B ⊎ SpawnFailure → B ⊎ SpawnFailure
m >> k = m >>= λ _. k

-- `map_err(|error| SpawnFailure::new(stage, error, None))`
abbrev pub at_stage : {A : Type 0} → Stage → Result A → A ⊎ SpawnFailure
at_stage s (ok a) = inl a
at_stage s (err e) = inr (record { stage = s; error = e; path = none })

abbrev size : Option ℕ → Option ℕ → Option (ℕ × ℕ)
size none none = none
size rows cols = some (or_zero rows, or_zero cols)

unfoldable pub window_size : SpawnRequest → Option (ℕ × ℕ)
window_size request = size request.pty_rows request.pty_cols

abbrev pub is_some : {A : Type 0} → Option A → Bool
is_some none = false
is_some (some a) = true

abbrev is_replace : EnvMode → Bool
is_replace inherit = false
is_replace replace = true

-- What is ready before the fork.
pub record Prepared (Cgroup Pty : Type 0) : Type 0 where
  pub command : Command
  pub setup : ChildSetup
  pub master : Option Pty
  pub contained_in : Option Cgroup

module _ {Cgroup Pty Handle : Type 0} (parent : Parent Cgroup Pty Handle) where
  unfoldable pub contained : CgroupMode → Option Cgroup ⊎ SpawnFailure
  contained (best_effort false) = inl none
  contained (best_effort true) = inl parent.prepare
  contained required = parent.prepare_required >>= λ c. inl (some c)

  unfoldable pub terminal : Bool → Option Pty ⊎ SpawnFailure
  terminal true = at_stage pty parent.prepare_child_pty >>= λ p. inl (some p)
  terminal false = inl none

  unfoldable pub reporting : Bool → Unit {0} ⊎ SpawnFailure
  reporting true = at_stage spawn parent.channel
  reporting false = inl tt

  -- The directory of a structured session, which the child changes to itself.
  unfoldable pub directory : Bool → Option String → Option String ⊎ SpawnFailure
  directory true (some cd) =
      if parent.has_nul cd
      then inr (record { stage = cwd; error = simple invalid_input; path = some cd })
      else inl (some cd)
  directory structured cd = inl none

  abbrev pub command : SpawnRequest → Bool → String → List String → Command
  command request structured program args = record {
    program = program;
    args = args;
    current_dir = if structured then none else request.cd;
    env_cleared = is_replace request.env_mode;
    env = request.env;
    on_pty = request.pty;
  }

  -- `spawn_child` up to the fork.
  unfoldable pub prepare_spawn :
      SpawnRequest → Bool → String → List String → Prepared Cgroup Pty ⊎ SpawnFailure
  unfolding contained terminal reporting directory window_size
  prepare_spawn request structured program args = do
    plan ← at_stage privdrop parent.resolve
    cg ← contained request.cgroup
    master ← terminal request.pty
    reporting structured
    cd ← directory structured request.cd
    inl (record {
      command = command request structured program args;
      setup = record {
        cwd = cd;
        reporter = structured;
        plan = plan;
        placement = is_some cg;
        pty = request.pty;
        winsize = window_size request;
      };
      master = master;
      contained_in = cg;
    })

  unfoldable pub start :
      SpawnRequest
      → Bool
      → String
      → Prepared Cgroup Pty
      → (Handle × Option Pty × Option Cgroup) ⊎ SpawnFailure
  unfolding finish_spawn
  start request structured program p =
      let (result, pipe) = parent.spawn p.command p.setup in
      finish_spawn result (if structured then some pipe else none) program request.cd
        (mapped parent.placement_path p.contained_in)
      >>= λ handle. inl (handle, p.master, p.contained_in)

  unfoldable pub spawn_child :
      SpawnRequest → Bool → (Handle × Option Pty × Option Cgroup) ⊎ SpawnFailure
  unfolding prepare_spawn start
  spawn_child request structured = elim request.argv [
    | [] ↦ inr (record { stage = spawn; error = simple invalid_input; path = none })
    | program ∷ args ↦
        prepare_spawn request structured program args >>= start request structured program
  ]
