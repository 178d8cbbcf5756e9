-- ===== src/Errors.antt =====
-- The error values of core/errors.go, mc and config, and those of Go's own packages that the code
-- tells apart. `fault` is a Go panic.
use ipojknm.Prelude.{◌≡◌, ℕ, ℕ_discrete, Bool, true, false}

pub data GoError : Type 0 where
  -- core/errors.go
  client_to_slow client_closed_conn no_server_found no_server_conn : GoError
  not_valid_handshake over_conn_rate_limit status_ping : GoError
  -- mc/type.go, mc/packet.go
  var_int_size invalid_packet_id packet_too_short : GoError
  -- fmt.Errorf with the verb %v: the message of the inner error without its identity
  read_content_failed : GoError
  -- io.EOF, os.ErrDeadlineExceeded, and any other error of a call outside the repository
  eof deadline_exceeded : GoError
  other : ℕ → GoError

pub GoError-discrete : Discrete GoError
GoError-discrete = hlevel ℕ_discrete

-- errors.Is(err, os.ErrDeadlineExceeded)
abbrev pub is_deadline : GoError → Bool
is_deadline deadline_exceeded = true
is_deadline _ = false

-- A Go call that returns (value, error): the value where the error is nil.
pub data Outcome {ℓ} (A : Type ℓ) : Type ℓ where
  ok : A → Outcome A
  err : GoError → Outcome A
  fault : Outcome A

abbrev pub continue {ℓ κ} : {A : Type ℓ} {B : Type κ} → Outcome A → (A → Outcome B) → Outcome B
continue (ok a) f = f a
continue (err e) f = err e
continue fault f = fault

abbrev pub is_ok {ℓ} : {A : Type ℓ} → Outcome A → Bool
is_ok (ok a) = true
is_ok (err e) = false
is_ok fault = false

pub ok_inj {ℓ} : {A : Type ℓ} {a b : A} → ok a ≡ ok b → a ≡ b
ok_inj e = cc
