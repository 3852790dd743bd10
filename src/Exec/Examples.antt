-- ===== src/Exec/Examples.antt =====
-- Tests of the execution of commands, and its theorems at concrete inputs.
use reglet_hostlib.Base.{◌*◌, ◌≡◌, refl, false, none, some, List, [], ◌∷◌, any}
use reglet_hostlib.Base.Text.{Str, codes, text_eq, cut, has_prefix, one_of}
use reglet_hostlib.Base.Int.{pos}
use reglet_hostlib.BoundedBuffer.{new_bounded_buffer, write_all, bytes}
use reglet_hostlib.ExecSecurity.{is_always_blocked_env, to_upper, sanitize_env}
use reglet_hostlib.Exec.{
  ExecCommandRequest, ExecOption, with_max_output_size, default_exec_config, apply_option,
  apply_options, Command, Ran, exit_error, exec_env, exec_command, exec_response,
  perform_exec_command, perform_secure_exec_command,
}
use reglet_hostlib.Exec.Secure.{Contained, last_sanitizer, perform_secure-Contained}
use reglet_hostlib.Exec.Bounded.{Bounded, output_limit, perform_exec_command-Bounded}

abbrev process : Command → Ran
process cmd = record {
  stdout = codes "12" ∷ codes "345" ∷ [];
  stderr = [];
  duration_ms = pos 7;
  deadline_exceeded = false;
  error = some (exit_error (pos 2));
}

abbrev request : ExecCommandRequest
request = record {
  command = codes "/bin/ls";
  args = codes "-l" ∷ [];
  dir = [];
  env = codes "LD_PRELOAD=/tmp/x.so" ∷ codes "TERM=dumb" ∷ [];
  timeout = pos 100;
}

abbrev command : List Str → Command
command env = record {
  path = codes "/bin/ls";
  args = codes "-l" ∷ [];
  dir = [];
  env = env;
  timeout = pos 100000000;
}

abbrev four : List ExecOption
four = with_max_output_size (pos 4) ∷ []

secure :
    ((perform_secure_exec_command (λ s. s) process request [] none four).started
      ≡ some (command (codes "TERM=dumb" ∷ [])))
    × ((perform_secure_exec_command (λ s. s) process request [] none four).response.stdout
        ≡ codes "1234")
unfolding perform_secure_exec_command perform_exec_command default_exec_config apply_option
    apply_options exec_env exec_command exec_response is_always_blocked_env to_upper sanitize_env
    text_eq new_bounded_buffer write_all bytes cut has_prefix one_of any
secure = (refl, refl)

plain : (perform_exec_command (λ s. s) process request []).started ≡ some (command request.env)
unfolding perform_exec_command default_exec_config apply_options exec_env exec_command text_eq
plain = refl

perform_secure-Contained_example :
    Contained
      (λ s. s)
      request
      (last_sanitizer four (record { plugin = []; getter = none }))
      (command (codes "TERM=dumb" ∷ []))
perform_secure-Contained_example =
    perform_secure-Contained (λ s. s) process request [] none four
      (command (codes "TERM=dumb" ∷ [])) secure.0

perform_exec_command-Bounded_example :
    Bounded request
      (output_limit [] (10 * 1024 * 1024))
      (command request.env)
      (process (command request.env))
      (perform_exec_command (λ s. s) process request []).response
perform_exec_command-Bounded_example =
    perform_exec_command-Bounded (λ s. s) process request [] (command request.env) plain
