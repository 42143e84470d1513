-- ===== src/Protocol.antt =====
-- game/protocol/protocol.go: the envelope of every message, and its constructors. encoding/json is a
-- parameter: what Marshal and Unmarshal do with the types that the code gives them.
use billiards_online.Base.{
  ℕ, ℤ, pos, negsuc, Bool, false, Option, none, some, List, [], Text, codes, ◌==◌,
}

abbrev pub version : ℕ
version = 1

pub record Envelope : Type 0 where
  pub v : ℤ
  pub type_name : Text
  pub seq : ℕ
  pub request_id : Text
  pub match_id : Text
  pub ts : ℤ
  -- raw JSON; empty when there is none
  pub payload : List ℕ

abbrev pub is_version : ℤ → Bool
is_version (pos n) = n == version
is_version (negsuc n) = false

abbrev pub type_auth_success : Text
type_auth_success = codes "auth.success"

abbrev pub type_error : Text
type_error = codes "error"

abbrev pub type_match_starting : Text
type_match_starting = codes "match.starting"

abbrev pub type_match_started : Text
type_match_started = codes "match.started"

abbrev pub type_turn_started : Text
type_turn_started = codes "turn.started"

abbrev pub type_match_ended : Text
type_match_ended = codes "match.ended"

abbrev pub err_code_version : Text
err_code_version = codes "protocol.version"

abbrev pub err_code_unknown_type : Text
err_code_unknown_type = codes "protocol.unknown_type"

abbrev pub err_code_malformed : Text
err_code_malformed = codes "protocol.malformed"

abbrev pub err_code_internal : Text
err_code_internal = codes "internal"

pub record ErrorPayload : Type 0 where
  pub code : Text
  pub message : Text
  pub request_id : Text

pub record AuthSuccessPayload : Type 0 where
  pub user_id : Text
  pub connection_id : Text

pub record MatchLifecyclePayload : Type 0 where
  pub match_id : Text
  pub state : Text

pub record TurnStartedPayload : Type 0 where
  pub match_id : Text
  pub side : ℕ
  pub player_idx : ℕ
  pub started_at_unix_milli : ℤ

-- json.Marshal at each type, and json.Unmarshal into an envelope.
pub record Json : Type 0 where
  pub marshal_envelope : Envelope → Option (List ℕ)
  pub marshal_error : ErrorPayload → Option (List ℕ)
  pub marshal_auth_success : AuthSuccessPayload → Option (List ℕ)
  pub marshal_match_lifecycle : MatchLifecyclePayload → Option (List ℕ)
  pub marshal_turn_started : TurnStartedPayload → Option (List ℕ)
  pub unmarshal_envelope : List ℕ → Option Envelope

abbrev pub envelope : Text → ℕ → Text → List ℕ → Envelope
envelope name seq match_id payload = record {
  v = pos version;
  type_name = name;
  seq = seq;
  request_id = [];
  match_id = match_id;
  ts = pos 0;
  payload = payload;
}

-- An envelope around a payload, if that was encoded.
unfoldable pub wrap : Text → ℕ → Text → Option (List ℕ) → Option Envelope
wrap name seq match_id none = none
wrap name seq match_id (some payload) = some (envelope name seq match_id payload)

module _ (json : Json) where
  unfoldable pub decode : List ℕ → Option Envelope
  decode bytes = json.unmarshal_envelope bytes

  unfoldable pub encode : Envelope → Option (List ℕ)
  encode env = json.marshal_envelope env

  unfoldable pub new_error : ℕ → Text → Text → Text → Option Envelope
  unfolding wrap
  new_error seq code message request_id =
      wrap type_error seq []
        (json.marshal_error (record { code = code; message = message; request_id = request_id }))

  unfoldable pub new_auth_success : ℕ → Text → Text → Option Envelope
  unfolding wrap
  new_auth_success seq user_id connection_id =
      wrap type_auth_success seq []
        (json.marshal_auth_success (record { user_id = user_id; connection_id = connection_id }))

  unfoldable pub new_match_lifecycle : Text → Text → Text → Option Envelope
  unfolding wrap
  new_match_lifecycle name match_id state =
      wrap name 0 match_id
        (json.marshal_match_lifecycle (record { match_id = match_id; state = state }))

  unfoldable pub new_match_starting : Text → Option Envelope
  unfolding new_match_lifecycle
  new_match_starting match_id = new_match_lifecycle type_match_starting match_id (codes "starting")

  unfoldable pub new_match_started : Text → Option Envelope
  unfolding new_match_lifecycle
  new_match_started match_id = new_match_lifecycle type_match_started match_id (codes "in_progress")

  unfoldable pub new_match_ended : Text → Text → Option Envelope
  unfolding new_match_lifecycle
  new_match_ended match_id state = new_match_lifecycle type_match_ended match_id state

  unfoldable pub new_turn_started : Text → ℕ → ℕ → ℤ → Option Envelope
  unfolding wrap
  new_turn_started match_id side player_idx started_at = wrap type_turn_started 0 match_id (
      json.marshal_turn_started (record {
        match_id = match_id;
        side = side;
        player_idx = player_idx;
        started_at_unix_milli = started_at;
      }))
