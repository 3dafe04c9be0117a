-- ===== src/PrivDrop/Tests.antt =====
-- Requests for a user and a group, against a small database.
use forcola.Prelude.{ℕ, ◌≡◌, refl, [], ◌∷◌, true, none, some, ◌==◌, if◌then◌else◌}
use forcola.Protocol.{UserSpec, GroupSpec}
use forcola.Errors.{ok}
use forcola.PrivDrop.{
  Credentials, Database, Process, Kernel, apply, plan_from_current, resolve_credentials, resolve,
}
use forcola.PrivDrop.Laws.{
  Became, plan_from_current-Became, Ran, apply-Ran, calls, Asked, resolve_credentials-Asked,
}

-- One user with two groups, one group.
abbrev db : Database ℕ
db = record {
  new = λ s. some 7;
  getpwnam = λ n. ok (some (1000, 100));
  getpwuid = λ u. ok none;
  getgrnam = λ n. ok (some 50);
  getgrouplist = λ n g. ok (100 ∷ 4 ∷ []);
}

abbrev root : Process
root = record { uid = 0; gid = 0; groups = 0 ∷ [] }

abbrev creds : Credentials
creds = record { uid = some 1000; gid = 50; groups = 100 ∷ 4 ∷ 50 ∷ []; group_requested = true }

-- The kernel of a process that only root may change.
abbrev kernel : Kernel
kernel c p = if p.uid == 0 then none else some 1

resolved :
    resolve db 0 0 (some (UserSpec.id 3)) none
    ≡ ok (some (record { groups = some (3 ∷ []); gid = some 3; uid = some 3 }))
unfolding resolve
resolved = refl

plan_from_current-Became_example :
    Became creds root (apply kernel (plan_from_current root.uid root.gid creds) root)
plan_from_current-Became_example = plan_from_current-Became kernel creds root

apply-Ran_example :
    Ran kernel root
      (calls (plan_from_current 0 0 creds))
      (apply kernel (plan_from_current 0 0 creds) root)
apply-Ran_example = apply-Ran kernel (plan_from_current 0 0 creds) root

resolve_credentials-Asked_example :
    Asked (some (UserSpec.name "web")) (some (GroupSpec.name "www")) creds
unfolding resolve_credentials
resolve_credentials-Asked_example =
    resolve_credentials-Asked db (some (UserSpec.name "web")) (some (GroupSpec.name "www")) creds
      refl
