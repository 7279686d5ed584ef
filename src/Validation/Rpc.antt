-- ===== src/Validation/Rpc.antt =====
-- validation.py: the RPC transport, `validate_payload`, which chooses one, and `verify_validation_record`.
use coldsnap.Base.{
  some, Fields, with_last, ℕ, zero, suc, ◌+◌, ◌-◌, ◌/◌, ◌%◌, String, Bool, true, false, ◌&&◌, ◌||◌,
  not, Option, [], ◌∷◌, ◌++◌, length, Result, ok, raised, raise_if, if◌then◌else◌, ltb, eqb, ◌==◌,
  string_eq, strip, text_length, append, ℤ, pos, leb_ℤ, ltb_ℤ, Json, obj, int, str, bool, end,
  field, member, nat_eq,
}
use Prim.Native.Char.{code}
use coldsnap.Coordinator.Wire.{Bytes}
use coldsnap.Coordinator.Actions.{Action, ◌>>=◌, ◌>>◌, lift}
use coldsnap.Validation.Stats.{
  record_unreadable, not_a_dict, removeprefix, ValidationError, hash_unfinished, system_error,
  invalid_external_configuration, invalid_external_admission, external_validation_failed, Stat,
  is_regular, is_private, System, closing, normalize_sha256,
}
use coldsnap.Validation.Records.{equals_int, equals_str}
use coldsnap.Validation.Payloads.{
  Admission, Transport, python, cli, rpc, validation_transport, validate_payload_python,
}
use coldsnap.Validation.Admissions.{item, normalize_external_admission}
use coldsnap.Validation.External.{
  Outside, or_given, demand, reported, validation_timeout, validate_payload_cli,
}

module _ {W D : Type 0} (sys : System W D) (out : Outside W D) where
  abbrev pub is_socket : Stat → Bool
  is_socket st = eqb (st.st_mode / 4096 % 16) 12

  abbrev pub private_or_close : D → Result ValidationError Stat × W → Result ValidationError D × W
  private_or_close d (ok st, w) =
      if is_regular st && is_private st && ltb_ℤ (pos 0) st.st_size && leb_ℤ st.st_size (pos 4096)
      then (ok d, w)
      else (
        raised (system_error "RPC token file must be a small private regular file"),
        sys.close d w,
      )
  private_or_close d (raised e, w) = (raised e, sys.close d w)

  -- `_open_private_rpc_token`
  unfoldable pub open_private_rpc_token : String → Action W ValidationError D
  open_private_rpc_token path = sys.open_file path >>= λ d w. private_or_close d (sys.fstat d w)

  unfoldable pub load_token : String → String → Action W ValidationError String
  unfolding open_private_rpc_token strip
  load_token rpc_path token_path = do
    st ← sys.lstat rpc_path
    lift (
        raise_if (not (is_socket st) || not (is_private st))
          (system_error "RPC socket must be a private Unix socket"))
    d ← open_private_rpc_token token_path
    bytes ← λ w. closing sys d (sys.read d 4097 w)
    text ← lift (demand (system_error "token") (out.decode bytes))
    lift (ok (strip text))

  unfoldable pub has_separator : String → Bool
  has_separator String.[] = false
  has_separator (String.◌∷◌ c s) = member (code c) (32 ∷ 9 ∷ 13 ∷ 10 ∷ 0 ∷ []) || has_separator s

  abbrev pub rpc_request : String → String → String → String → String → ℤ → Json
  rpc_request identifier token blob marker expected bytes = obj (
      field "format" (int (pos 1)) (
        field "id" (str identifier) (
          field "token" (str token) (
            field "options"
              (obj (
                field "path" (str blob) (
                  field "record" (str marker) (
                    field "expected_sha256" (str expected)
                      (field "expected_bytes" (int bytes) end)))))
              end))))

  abbrev pub at_most_64k : ℕ → ℕ
  at_most_64k n = if ltb 65536 n then 65536 else n

  abbrev pub after_part :
      ℕ → (ℕ → Action W ValidationError Bytes) → Bytes → Action W ValidationError Bytes
  after_part received more [] = lift (ok [])
  after_part received more (b ∷ chunk) =
      if ltb 1048576 (received + length (b ∷ chunk))
      then lift (raised invalid_external_admission)
      else more (received + length (b ∷ chunk)) >>= λ rest. lift (ok ((b ∷ chunk) ++ rest))

  -- The reply up to the end of the stream; more rounds than it may have bytes are enough.
  unfoldable pub receive : ℕ → ℕ → Action W ValidationError Bytes
  receive zero received = lift (raised hash_unfinished)
  receive (suc rounds) received =
      out.recv (at_most_64k (1048577 - received)) >>= after_part received (receive rounds)

  unfoldable pub converse : String → Json → Action W ValidationError Bytes
  unfolding receive
  converse rpc_path request = do
    out.connect rpc_path
    out.sendall request
    out.shutdown
    receive 1048578 0

  abbrev pub closing_socket :
      {A : Type 0} → Result ValidationError A × W → Result ValidationError A × W
  closing_socket (result, w) = (result, out.close_socket w)

  abbrev pub is_true : Json → Bool
  is_true (bool true) = true
  is_true _ = false

  unfoldable pub admission_in : String → Json → Action W ValidationError Json
  unfolding item
  admission_in identifier response = do
    format ← lift (item "format" response)
    id ← lift (item "id" response)
    lift (
        raise_if
          (not (equals_int out.conversions.float_is (pos 1) format)
            || not (equals_str identifier id))
          invalid_external_admission)
    accepted ← lift (item "ok" response)
    lift (raise_if (not (is_true accepted)) external_validation_failed)
    lift (item "admission" response)

  -- `_validate_payload_rpc`
  unfoldable pub validate_payload_rpc :
      String → String → String → ℤ → Action W ValidationError Admission
  unfolding validation_timeout load_token has_separator converse admission_in
      normalize_external_admission
  validate_payload_rpc blob marker expected bytes =
      let rpc_path = or_given "" (out.environ "COLDSNAP_PAYLOAD_VALIDATION_RPC_SOCKET") in
      let token_path = or_given "" (out.environ "COLDSNAP_PAYLOAD_VALIDATION_RPC_TOKEN_FILE") in
      do
        lift (
            raise_if (not (out.is_clean rpc_path) || not (out.is_clean token_path))
              invalid_external_configuration)
        token ← λ w. reported invalid_external_configuration (load_token rpc_path token_path w)
        lift (
            raise_if (ltb (text_length token) 16 || has_separator token)
              invalid_external_configuration)
        identifier ← λ w. (ok (out.token_hex w).0, (out.token_hex w).1)
        timeout ← validation_timeout sys out
        body ← λ w. closing_socket (
            reported external_validation_failed (
              converse rpc_path (rpc_request identifier token blob marker expected bytes)
                (out.socket timeout w)))
        response ← lift (demand invalid_external_admission (out.loads_bytes body))
        admission ← admission_in identifier response
        lift (normalize_external_admission out.conversions blob marker expected bytes admission)

  unfoldable pub validation_record_path : String → String
  unfolding append
  validation_record_path blob = append blob ".coldsnap-validation.json"

  abbrev pub by_transport :
      Transport
      → Bool
      → Action W ValidationError Admission
      → Action W ValidationError Admission
      → Action W ValidationError Admission
      → Action W ValidationError Admission
  by_transport python local inside command remote = inside
  by_transport cli local inside command remote = if local then inside else command
  by_transport rpc local inside command remote = if local then inside else remote

  -- `validate_payload`: another record or chunk size than the default is for the local validation.
  unfoldable pub validate_payload :
      ℕ → String → String → ℤ → Option String → ℕ → Action W ValidationError Admission
  unfolding normalize_sha256 validation_transport validate_payload_python validate_payload_cli
      validate_payload_rpc validation_record_path
  validate_payload rounds blob expected bytes record_path chunk_bytes =
      let marker = or_given (validation_record_path blob) record_path in
      do
        digest ← lift (normalize_sha256 expected)
        transport ← lift (
            validation_transport out.lower (out.environ "COLDSNAP_PAYLOAD_VALIDATION_TRANSPORT")
              (out.environ "COLDSNAP_PAYLOAD_VALIDATION_RPC_SOCKET")
              (out.environ "COLDSNAP_PAYLOAD_VALIDATION_COMMAND"))
        by_transport transport
            (not (marker == validation_record_path blob) || not (eqb chunk_bytes 16777216))
            (validate_payload_python sys rounds chunk_bytes blob digest bytes marker)
            (validate_payload_cli sys out blob marker digest bytes)
            (validate_payload_rpc blob marker digest bytes)

  abbrev pub expected_size : String → Option ℤ → Action W ValidationError ℤ
  expected_size blob (some bytes) = lift (ok bytes)
  expected_size blob _ = sys.lstat blob >>= λ st. lift (ok st.st_size)

  abbrev pub record_entries : Json → Result ValidationError Fields
  record_entries (obj fs) = ok fs
  record_entries _ = raised not_a_dict

  -- The record's entries with the bare digest, and the result of the validation
  unfoldable pub verify_validation_record :
      ℕ → String → String → String → Option ℤ → Action W ValidationError (Fields × Admission)
  unfolding validate_payload normalize_sha256 removeprefix
  verify_validation_record rounds blob expected marker expected_bytes = do
    bytes ← expected_size blob expected_bytes
    result ← validate_payload rounds blob expected bytes (some marker) 16777216
    text ← λ w. reported record_unreadable (sys.read_text marker w)
    value ← lift (demand record_unreadable (sys.loads text))
    digest ← lift (normalize_sha256 expected)
    entries ← lift (record_entries value)
    lift (ok (with_last entries "sha256" (str (removeprefix "sha256:" digest)), result))
