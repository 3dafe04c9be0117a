-- ===== src/Handshake/Tests.antt =====
-- A session that asks for the identity of its child.
use forcola.Prelude.{ℕ, ◌≡◌, refl, [], ◌∷◌, false, none, some, inl, inr, from_be_bytes, to_be_bytes}
use forcola.Frame
use forcola.Frame.{bytes, read_frame, fill, write_frame}
use forcola.Features.{select_features}
use forcola.Protocol.{SpawnRequest, inherit, best_effort}
use forcola.Errors.{ok}
use forcola.Identity.{ProcessIdentity}
use forcola.Handshake.{
  Outside, Session, spawned, aborted, broke, start, ◌>>=◌, ◌>>◌, ret, exit, deed,
}
use forcola.Handshake.Safety.{Started, start-Started}

abbrev request : SpawnRequest
request = record {
  argv = "/bin/true" ∷ [];
  cd = none;
  env = [];
  merge_stderr = false;
  env_mode = inherit;
  interrupt_signal = none;
  interrupt_grace_ms = none;
  timeout_ms = none;
  kill_grace_ms = 5000;
  pty = false;
  pty_rows = none;
  pty_cols = none;
  user = none;
  group = none;
  cgroup = best_effort false;
  window_bytes = none;
  stderr_window_bytes = none;
  strict_output = false;
}

abbrev identity : ProcessIdentity
identity = record { pid = 42; pgid = 42; start_time = record { boot_id = 7 ∷ []; ticks = 100 } }

-- Children are numbers.
abbrev outside : Outside ℕ
outside = record {
  capabilities = "spawn_identity_v1" ∷ [];
  decode_hello = λ p. some (record { features = "spawn_identity_v1" ∷ [] });
  decode_spawn = λ p. some request;
  encode_capabilities = λ c. some (1 ∷ []);
  encode_error = λ r. some (2 ∷ []);
  encode_identity = λ i. some (3 ∷ []);
  prepare_tracking = ok identity;
  spawn_child = λ r b. inl 42;
  read_identity = λ c. ok identity;
  clone_master = λ c. none;
}

-- A shim that cannot have another descriptor.
abbrev exhausted : Outside ℕ
exhausted = record outside { clone_master = λ c. some false }

-- HELLO and SPAWN in one piece, and a BEAM that reads `room` bytes.
abbrev session : ℕ → Session
session room = record {
  input = bytes (0 ∷ 0 ∷ 0 ∷ 2 ∷ 7 ∷ 9 ∷ 0 ∷ 0 ∷ 0 ∷ 2 ∷ 1 ∷ 8 ∷ []) ∷ [];
  out = record { written = []; room = room };
  deeds = [];
}

-- With room for CAPABILITIES and SPAWNED the child stays, and without room for SPAWNED it is aborted.
started_test : (start outside (session 12)).1.deeds ≡ spawned request ∷ []
unfolding start ◌>>=◌ ◌>>◌ ret exit deed read_frame fill Frame.read from_be_bytes select_features
    write_frame to_be_bytes
started_test = refl

aborted_test : (start outside (session 8)).1.deeds ≡ aborted ∷ spawned request ∷ []
unfolding start ◌>>=◌ ◌>>◌ ret exit deed read_frame fill Frame.read from_be_bytes select_features
    write_frame to_be_bytes
aborted_test = refl

-- A child behind a pty whose master cannot be duplicated is left, neither aborted nor supervised.
stranded_test : (start exhausted (session 12)).1.deeds ≡ spawned request ∷ []
unfolding start ◌>>=◌ ◌>>◌ ret exit deed read_frame fill Frame.read from_be_bytes select_features
    write_frame to_be_bytes
stranded_test = refl

stranded_exit_test : (start exhausted (session 12)).0 ≡ inr broke
unfolding start ◌>>=◌ ◌>>◌ ret exit deed read_frame fill Frame.read from_be_bytes select_features
    write_frame to_be_bytes
stranded_exit_test = refl

start-Started_example : Started outside (session 8).input (start outside (session 8))
start-Started_example = start-Started outside (session 8) refl
