-- ===== src/SpawnError/Laws.antt =====
-- What the parent makes of a child's report.
use Prim.Native.String.{String}
use forcola.Prelude.{
  ℕ, ◌≤◌, ◌<◌, ◌≡◌, refl, ap, ◌∙◌, List, [], ◌∷◌, Bool, true, false, ◌&&◌, Option, some, ◌==◌,
  i32_max, to_be_bytes, from_be_bytes, from_be_bytes-to_be_bytes, arith, Bool-cases, inl, inr,
}
use forcola.Errors.{IoError, os, ok, err}
use forcola.SpawnError.{
  Stage, spawn, cwd, exec, privdrop, cgroup, pty, stage_code, WriteAnswer, whole, refused, eintr,
  report_bytes, write, check, is_errno, stage_of, read_stage, path_of, failure,
}

-- Writes that are interrupted any number of times and then complete.
pub data Completes : List WriteAnswer → Type 0 where
  at_once : {later : List WriteAnswer} → Completes (whole ∷ later)
  again : {answers : List WriteAnswer} → Completes answers → Completes (refused eintr ∷ answers)

pub write-Completes :
    (stage : Stage) (errno : ℕ) (answers : List WriteAnswer)
    → Completes answers
    → write stage errno [] answers ≡ (some (ok tt), report_bytes stage errno)
unfolding write
write-Completes stage errno _ at_once = refl
write-Completes stage errno _ (again c) = write-Completes stage errno _ c

-- The stages of an operation that fails with its own errno.
abbrev pub is_operation : Stage → Bool
is_operation spawn = false
is_operation exec = false
is_operation _ = true

pub read_stage-report_bytes :
    (stage : Stage) (n : ℕ) (e : IoError)
    → n ≤ i32_max
    → read_stage (report_bytes stage n) e ≡ stage_of (stage_code stage) n e
unfolding read_stage report_bytes to_be_bytes
read_stage-report_bytes stage n e l =
    ap (λ m. stage_of (stage_code stage) m e) (from_be_bytes-to_be_bytes 4 n (omega arith))

stage_of-operation :
    (stage : Stage) (n : ℕ)
    → is_operation stage ≡ true
    → 0 < n
    → n ≤ i32_max
    → stage_of (stage_code stage) n (os n) ≡ stage
unfolding stage_of
stage_of-operation spawn n o p l = cc
stage_of-operation exec n o p l = cc
stage_of-operation cwd n o p l = ground arith
stage_of-operation privdrop n o p l = ground arith
stage_of-operation cgroup n o p l = ground arith
stage_of-operation pty n o p l = ground arith

-- The failure of an operation of the child that has a stage of its own (not `setsid` or exec), with a positive errno, is told to the
-- parent however often the write is interrupted before it completes: the
-- parent, which has the same errno from the spawn, reads the stage of the operation and gives its path.
pub failure-check :
    (stage : Stage) (n : ℕ) (answers : List WriteAnswer) (argv0 : String)
    (cwd_path cgroup_path : Option String)
    → is_operation stage ≡ true
    → 0 < n
    → n ≤ i32_max
    → Completes answers
    → failure (check stage (err (os n)) [] answers).1 (os n) argv0 cwd_path cgroup_path
      ≡ record { stage = stage; error = os n; path = path_of stage argv0 cwd_path cgroup_path }
unfolding failure check
failure-check stage n answers argv0 cwd_path cgroup_path o p l c =
    let told : read_stage (write stage n [] answers).1 (os n) ≡ stage =
      ap (λ r. read_stage r.1 (os n)) (write-Completes stage n answers c)
      ∙ read_stage-report_bytes stage n (os n) l
      ∙ stage_of-operation stage n o p l in
    ap (λ s. record { stage = s; error = os n; path = path_of s argv0 cwd_path cgroup_path }) told

-- What names a stage: its code, with the errno of an operation or the zero of the exec marker.
abbrev pub Names : ℕ → ℕ → IoError → Stage → Type 0
Names code n error spawn = Unit {0}
Names code n error exec = (code ≡ 3) × (n ≡ 0)
Names code n error stage = (code ≡ stage_code stage) × (is_errno n error ≡ true)

stage_of-Names : (code n : ℕ) (error : IoError) → Names code n error (stage_of code n error)
unfolding stage_of
stage_of-Names code n error = elim (Bool-cases ((code == 2) && is_errno n error)) [
  | inl a ↦ rw a (ground arith)
  | inr a ↦ elim (Bool-cases ((code == 3) && (n == 0))) [
    | inl b ↦ rw (a, b) (ground arith)
    | inr b ↦ elim (Bool-cases ((code == 4) && is_errno n error)) [
      | inl c ↦ rw (a, b, c) (ground arith)
      | inr c ↦ elim (Bool-cases ((code == 5) && is_errno n error)) [
        | inl d ↦ rw (a, b, c, d) (ground arith)
        | inr d ↦ elim (Bool-cases ((code == 6) && is_errno n error)) [
          | inl e ↦ rw (a, b, c, d, e) (ground arith)
          | inr e ↦ rw (a, b, c, d, e) tt
        ]
      ]
    ]
  ]
]

-- A stage that the pipe stands for: nothing for `spawn`, and else the eight bytes of the report.
-- What a pipe holds that stands for a stage: anything for `spawn`, and else the mark of a report with
-- the stage's code and its errno.
pub data Marked (error : IoError) : Stage → List ℕ → Type 0 where
  unknown : {pipe : List ℕ} → Marked error spawn pipe
  told :
      {stage : Stage} (code a b c d : ℕ) {rest : List ℕ}
      → Names code (from_be_bytes (a ∷ b ∷ c ∷ d ∷ [])) error stage
      → Marked error stage (70 ∷ 83 ∷ code ∷ 0 ∷ a ∷ b ∷ c ∷ d ∷ rest)

full-Marked :
    (f s code z a b c d : ℕ) (rest : List ℕ) (error : IoError)
    → Marked error
        (read_stage (f ∷ s ∷ code ∷ z ∷ a ∷ b ∷ c ∷ d ∷ rest) error)
        (f ∷ s ∷ code ∷ z ∷ a ∷ b ∷ c ∷ d ∷ rest)
unfolding read_stage
full-Marked f s code z a b c d rest error =
    elim (Bool-cases ((f == 70) && ((s == 83) && (z == 0)))) [
      | inr no_mark ↦ rw no_mark unknown
      | inl mark ↦
          let f_mark : f ≡ 70 = ground arith in
          let s_mark : s ≡ 83 = ground arith in
          let z_mark : z ≡ 0 = ground arith in
          rw (f_mark, s_mark, z_mark)
            (told code a b c d (stage_of-Names code (from_be_bytes (a ∷ b ∷ c ∷ d ∷ [])) error))
    ]

-- No failure is attributed without evidence: a stage other than `spawn` is read only from a pipe that
-- starts with a whole report, which carries the code of the stage and, for an operation, the errno
-- that the spawn itself failed with, for exec a zero.
pub read_stage-Marked :
    (pipe : List ℕ) (error : IoError) → Marked error (read_stage pipe error) pipe
unfolding read_stage
read_stage-Marked (f ∷ s ∷ code ∷ z ∷ a ∷ b ∷ c ∷ d ∷ rest) error =
    full-Marked f s code z a b c d rest error
read_stage-Marked [] error = unknown
read_stage-Marked (x₁ ∷ []) error = unknown
read_stage-Marked (x₁ ∷ x₂ ∷ []) error = unknown
read_stage-Marked (x₁ ∷ x₂ ∷ x₃ ∷ []) error = unknown
read_stage-Marked (x₁ ∷ x₂ ∷ x₃ ∷ x₄ ∷ []) error = unknown
read_stage-Marked (x₁ ∷ x₂ ∷ x₃ ∷ x₄ ∷ x₅ ∷ []) error = unknown
read_stage-Marked (x₁ ∷ x₂ ∷ x₃ ∷ x₄ ∷ x₅ ∷ x₆ ∷ []) error = unknown
read_stage-Marked (x₁ ∷ x₂ ∷ x₃ ∷ x₄ ∷ x₅ ∷ x₆ ∷ x₇ ∷ []) error = unknown
