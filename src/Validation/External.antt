-- ===== src/Validation/External.antt =====
-- validation.py: what the transports use, and the command transport. The
-- environment, the processes and the sockets are parameters.
use coldsnap.Base.{
  ℕ, String, Bool, ◌||◌, not, Option, some, List, [], ◌∷◌, ◌++◌, Result, ok, raised, raise_if,
  string_eq, ℤ, pos, show_ℤ, Float, Json, eqb_ℤ, nat_eq,
}
use coldsnap.Coordinator.Wire.{Bytes}
use coldsnap.Coordinator.Actions.{Action, ◌>>=◌, ◌>>◌, lift}
use coldsnap.Validation.Stats.{
  ValidationError, system_error, invalid_external_configuration, invalid_external_admission,
  external_validation_failed, System,
}
use coldsnap.Validation.Payloads.{Admission}
use coldsnap.Validation.Admissions.{Conversions, normalize_external_admission}

-- A finished process
pub record Completed : Type 0 where
  pub returncode : ℤ
  pub stdout : String
  pub stderr : String

-- What the transports use: variables, the parts of a path, `shlex.split`, processes, a socket, the decoding
-- of bytes and `secrets`. A failed `run`, `connect`, `sendall`, `shutdown` or `recv` is an `OSError`.
pub record Outside (W D : Type 0) : Type 0 where
  pub environ : String → Option String
  pub lower : String → String
  pub read_float : String → Option Float
  pub in_day : Float → Bool
  pub shlex_split : String → Option (List String)
  pub is_clean : String → Bool
  pub is_file : String → W → Bool
  pub run : List String → Float → Action W ValidationError Completed
  pub token_hex : W → String × W
  pub socket : Float → W → W
  pub connect : String → Action W ValidationError (Unit {0})
  pub sendall : Json → Action W ValidationError (Unit {0})
  pub shutdown : Action W ValidationError (Unit {0})
  pub recv : ℕ → Action W ValidationError Bytes
  pub close_socket : W → W
  pub decode : Bytes → Option String
  pub loads_bytes : Bytes → Option Json
  pub conversions : Conversions

abbrev pub or_given : String → Option String → String
or_given given (some s) = s
or_given given _ = given

abbrev pub demand {ℓ} : {A : Type ℓ} → ValidationError → Option A → Result ValidationError A
demand e (some x) = ok x
demand e _ = raised e

-- An error of the operating system becomes one of the code's own.
abbrev pub reported :
    {W A : Type 0} → ValidationError → Result ValidationError A × W → Result ValidationError A × W
reported as_error (ok x, w) = (ok x, w)
reported as_error (raised (system_error message), w) = (raised as_error, w)
reported as_error (raised e, w) = (raised e, w)

module _ {W D : Type 0} (sys : System W D) (out : Outside W D) where
  unfoldable pub validation_timeout : Action W ValidationError Float
  validation_timeout = do
    value ← lift (
        demand invalid_external_configuration (
          out.read_float
            (or_given "1800" (out.environ "COLDSNAP_PAYLOAD_VALIDATION_TIMEOUT_SECONDS"))))
    lift (raise_if (not (out.in_day value)) invalid_external_configuration)
    lift (ok value)

  abbrev pub check_command : List String → W → Result ValidationError (Unit {0}) × W
  check_command [] w = (raised invalid_external_configuration, w)
  check_command (executable ∷ arguments) w = (
    raise_if (not (out.is_clean executable) || not (out.is_file executable w))
        invalid_external_configuration,
    w,
  )

  abbrev pub options : String → String → String → ℤ → List String
  options blob marker expected bytes =
      "--path"
      ∷ blob
      ∷ "--record"
      ∷ marker
      ∷ "--expected-sha256"
      ∷ expected
      ∷ "--expected-bytes"
      ∷ show_ℤ bytes
      ∷ []

  -- `_validate_payload_cli`
  unfoldable pub validate_payload_cli :
      String → String → String → ℤ → Action W ValidationError Admission
  unfolding validation_timeout show_ℤ normalize_external_admission
  validate_payload_cli blob marker expected bytes = do
    command ← lift (
        demand invalid_external_configuration
          (out.shlex_split (or_given "" (out.environ "COLDSNAP_PAYLOAD_VALIDATION_COMMAND"))))
    check_command command
    timeout ← validation_timeout
    completed ← λ w.
        reported external_validation_failed
          (out.run (command ++ options blob marker expected bytes) timeout w)
    lift (raise_if (not (eqb_ℤ completed.returncode (pos 0))) external_validation_failed)
    admission ← lift (demand invalid_external_admission (sys.loads completed.stdout))
    lift (normalize_external_admission out.conversions blob marker expected bytes admission)
