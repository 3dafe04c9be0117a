-- ===== src/Spawn/Prepared.antt =====
-- What a child that was spawned was set up with.
use Prim.Native.String.{String}
use mathlib.Core.Path.{subst}
use forcola.Prelude.{
  arith, ℕ, ◌≡◌, refl, List, [], ◌∷◌, Bool, true, false, Option, none, some, ◌≢◌, if◌then◌else◌,
  ◌⊎◌, inl, inr,
}
use forcola.Errors.{simple, invalid_input, Result, ok, err}
use forcola.Protocol.{SpawnRequest, CgroupMode, best_effort, required}
use forcola.SpawnError.{Stage, spawn, privdrop, SpawnFailure}
use forcola.Spawn.{finish_spawn}
use forcola.Spawn.Parent.{
  Parent, ◌>>=◌, at_stage, Prepared, is_some, contained, terminal, reporting, directory,
  prepare_spawn, start, spawn_child,
}

-- What holds of a child that is ready for its fork: its identity is the one resolved, a required cgroup is there and is the one
-- that it joins, a pty has its master, and with structured errors it changes the directory itself, and else the library does.
pub record IsPrepared {Cgroup Pty Handle : Type 0} (parent : Parent Cgroup Pty Handle)
    (request : SpawnRequest) (structured : Bool) (p : Prepared Cgroup Pty) : Type 0 where
  pub identity : parent.resolve ≡ ok p.setup.plan
  pub joins : p.setup.placement ≡ is_some p.contained_in
  pub strict : request.cgroup ≡ required → p.contained_in ≢ none
  pub free : request.cgroup ≡ best_effort false → p.contained_in ≡ none
  pub on_terminal : (request.pty ≡ true → p.master ≢ none) × (request.pty ≡ false → p.master ≡ none)
  pub reporter : p.setup.reporter ≡ structured
  pub places :
      if structured
      then (p.setup.cwd ≡ request.cd) × (p.command.current_dir ≡ none)
      else (p.setup.cwd ≡ none) × (p.command.current_dir ≡ request.cd)

-- What holds of every result of a computation that may fail.
Yields : {B : Type 0} → B ⊎ SpawnFailure → (B → Type 0) → Type 0
Yields {B} m P = (b : B) → m ≡ inl b → P b

Yields->>= :
    {A B : Type 0} (P : B → Type 0) (m : A ⊎ SpawnFailure) (f : A → B ⊎ SpawnFailure)
    → ((a : A) → m ≡ inl a → Yields (f a) P)
    → Yields (m >>= f) P
unfolding ◌>>=◌ Yields
Yields->>= P (inl a) f h b e = h a refl b e
Yields->>= P (inr x) f h b e = cc

inl-Yields : {B : Type 0} (P : B → Type 0) (b : B) → P b → Yields (inl b) P
unfolding Yields
inl-Yields P b p b' e = subst P (cc) p

module _ {Cgroup Pty Handle : Type 0} (parent : Parent Cgroup Pty Handle)
    (request : SpawnRequest) where
  at_stage-ok : {A : Type 0} (s : Stage) (r : Result A) (a : A) → at_stage s r ≡ inl a → r ≡ ok a
  at_stage-ok s (ok b) a e = cc
  at_stage-ok s (err x) a e = cc

  contained_strict :
      (mode : CgroupMode) (cg : Option Cgroup)
      → contained parent mode ≡ inl cg
      → mode ≡ required
      → cg ≢ none
  unfolding contained ◌>>=◌
  contained_strict (best_effort false) cg e q = cc
  contained_strict (best_effort true) cg e q = cc
  contained_strict required cg e q = ground arith

  contained_free :
      (mode : CgroupMode) (cg : Option Cgroup)
      → contained parent mode ≡ inl cg
      → mode ≡ best_effort false
      → cg ≡ none
  unfolding contained ◌>>=◌
  contained_free (best_effort false) cg e q = cc
  contained_free (best_effort true) cg e q = cc
  contained_free required cg e q = cc

  on_master :
      (b : Bool) (m : Option Pty)
      → terminal parent b ≡ inl m
      → (b ≡ true → m ≢ none) × (b ≡ false → m ≡ none)
  unfolding terminal ◌>>=◌
  on_master b m e = ground arith

  directory_places :
      (structured : Bool) (o cd : Option String)
      → directory parent structured o ≡ inl cd
      → if structured
        then (cd ≡ o) × ((if structured then none else o) ≡ none)
        else (cd ≡ none) × ((if structured then none else o) ≡ o)
  unfolding directory
  directory_places true none cd e = (cc, refl)
  directory_places true (some d) cd e = (ground arith, refl)
  directory_places false o cd e = (cc, refl)

  prepare_spawn-IsPrepared :
      (structured : Bool) (program : String) (args : List String)
      → Yields
          (prepare_spawn parent request structured program args)
          (IsPrepared parent request structured)
  unfolding prepare_spawn
  prepare_spawn-IsPrepared structured program args =
      let goal = IsPrepared parent request structured in
      Yields->>= goal (at_stage privdrop parent.resolve) _ λ plan e1.
        Yields->>= goal (contained parent request.cgroup) _ λ cg e2.
          Yields->>= goal (terminal parent request.pty) _ λ master e3.
            Yields->>= goal (reporting parent structured) _ λ u e4.
              Yields->>= goal (directory parent structured request.cd) _ λ cd e5.
                inl-Yields (IsPrepared parent request structured) _ (record {
                  identity = at_stage-ok privdrop parent.resolve plan e1;
                  joins = refl;
                  strict = contained_strict request.cgroup cg e2;
                  free = contained_free request.cgroup cg e2;
                  on_terminal = on_master request.pty master e3;
                  reporter = refl;
                  places = directory_places structured request.cd cd e5;
                })

-- What holds of a child that was spawned: it was forked with a setup that meets the request, and its handle, its pty
-- and its cgroup are the answer.
pub record IsSpawned {Cgroup Pty Handle : Type 0} (parent : Parent Cgroup Pty Handle)
    (request : SpawnRequest) (structured : Bool) (r : Handle × Option Pty × Option Cgroup)
    : Type 0 where
  pub prepared : Prepared Cgroup Pty
  pub meets : IsPrepared parent request structured prepared
  pub forked : (parent.spawn prepared.command prepared.setup).0 ≡ ok r.0
  pub parts : (prepared.master ≡ r.1) × (prepared.contained_in ≡ r.2)
  pub argv : request.argv ≡ prepared.command.program ∷ prepared.command.args

module _ {Cgroup Pty Handle : Type 0} (parent : Parent Cgroup Pty Handle) (request : SpawnRequest)
    (structured : Bool) where
  program-args :
      (program : String) (args : List String)
      → Yields
          (prepare_spawn parent request structured program args)
          (λ p. (p.command.program ≡ program) × (p.command.args ≡ args))
  unfolding prepare_spawn
  program-args program args =
      let P : Prepared Cgroup Pty → Type 0 =
        λ p. (p.command.program ≡ program) × (p.command.args ≡ args) in
      Yields->>= P (at_stage privdrop parent.resolve) _ λ plan e1.
        Yields->>= P (contained parent request.cgroup) _ λ cg e2.
          Yields->>= P (terminal parent request.pty) _ λ master e3.
            Yields->>= P (reporting parent structured) _ λ u e4.
              Yields->>= P (directory parent structured request.cd) _
                λ cd e5. inl-Yields P _ (refl, refl)

  finish_spawn-ok :
      (r : Result Handle) (reader : Option (List ℕ)) (argv0 : String)
      (cwd_path cgroup_path : Option String) (h : Handle)
      → finish_spawn r reader argv0 cwd_path cgroup_path ≡ inl h
      → r ≡ ok h
  unfolding finish_spawn
  finish_spawn-ok (ok a) reader argv0 cwd_path cgroup_path h e = cc
  finish_spawn-ok (err x) none argv0 cwd_path cgroup_path h e = cc
  finish_spawn-ok (err x) (some pipe) argv0 cwd_path cgroup_path h e = cc

  start-IsSpawned :
      (program : String) (args : List String) (p : Prepared Cgroup Pty)
      → request.argv ≡ program ∷ args
      → IsPrepared parent request structured p
      → (p.command.program ≡ program) × (p.command.args ≡ args)
      → Yields (start parent request structured program p) (IsSpawned parent request structured)
  unfolding start finish_spawn
  start-IsSpawned program args p a m (q, r) =
      Yields->>= (IsSpawned parent request structured) _ _ λ handle e.
        inl-Yields (IsSpawned parent request structured) _ (record {
          prepared = p;
          meets = m;
          forked =
              finish_spawn-ok (parent.spawn p.command p.setup).0 _ program request.cd _ handle e;
          parts = (refl, refl);
          argv = cc;
        })

  -- A child is spawned only for a request with a program, and only with the setup that `IsPrepared` asks for.
  pub spawn_child-IsSpawned :
      (r : Handle × Option Pty × Option Cgroup)
      → spawn_child parent request structured ≡ inl r
      → IsSpawned parent request structured r
  unfolding spawn_child Yields
  spawn_child-IsSpawned r e = at_argv request.argv refl r e
    where
      at_argv :
          (argv : List String)
          → request.argv ≡ argv
          → Yields
              (elim argv [
                | [] ↦ inr (record { stage = spawn; error = simple invalid_input; path = none })
                | program ∷ args ↦
                    prepare_spawn parent request structured program args
                    >>= start parent request structured program
              ])
              (IsSpawned parent request structured)
      at_argv [] a = λ r e. cc
      at_argv (program ∷ args) a =
          Yields->>= (IsSpawned parent request structured)
            (prepare_spawn parent request structured program args) _
            λ p q.
              start-IsSpawned program args p a
                (prepare_spawn-IsPrepared parent request structured program args p q)
                (program-args program args p q)
