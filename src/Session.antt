-- ===== src/Session.antt =====
-- src/api.inc: the calls on a session. A pointer is present or not; what inference does is an
-- argument, a `Work` that answers and leaves the session in any state. The frame of a call and the
-- memory it releases are those of the tracked allocations; the references to the model are those of
-- the count.
pub mod Calls
pub mod Exclusion
use jev_bush.Prelude.{
  ℕ, ◌*◌, ◌<◌, ◌≡◌, List, [], ◌∷◌, Option, none, some, Bool, true, false, not, ◌&&◌, ◌||◌, ltb,
  ◌==◌, length, if◌then◌else◌,
}
use jev_bush.Track.{Status, invalid_argument, request_error, out_of_memory_error, internal}

-- `inference` stands for the messages of the code behind `dg_systemone`.
pub data Message : Type 0 where
  in_use unusable bad_arguments too_large no_schema bad_input empty_request large_request : Message
  no_memory : Message
  inference : ℕ → Message

pub data Reply (V : Type 0) : Type 0 where
  accepted : V → Reply V
  rejected : Status → Message → Reply V

pub record Session : Type 0 where
  pub busy : Bool
  pub poisoned : Bool
  pub active : Bool
  pub kv_active : Bool
  pub control_active : Bool
  pub has_questions : Bool
  pub error : Option Message

abbrev pub Work : Type 0 → Type 0
Work V = Session → Reply V × Session

abbrev pub max_json : ℕ
max_json = 64 * 1024 * 1024

abbrev pub max_batch_inputs : ℕ
max_batch_inputs = 16

unfoldable pub call_cleanup : Session → Session
call_cleanup s = record s {
  poisoned = s.poisoned || (s.active || s.kv_active || s.control_active);
  active = false;
  kv_active = false;
  control_active = false;
}

-- What follows `jb_cleanup_push`: a failure runs the cleanup.
unfoldable pub settle : {V : Type 0} → Reply V × Session → Reply V × Session
unfolding call_cleanup
settle (accepted v, s) = (accepted v, s)
settle (rejected code message, s) = (rejected code message, call_cleanup s)

abbrev pub invalid : {V : Type 0} → Message → Session → Reply V × Session
invalid message s = (rejected invalid_argument message, s)

pub record JsonRequest : Type 0 where
  pub has_text : Bool
  pub text_length : ℕ
  pub has_outputs : Bool

pub record JsonBatch : Type 0 where
  pub has_requests : Bool
  pub texts : List (Bool × ℕ)
  pub has_outputs : Bool

pub record Input : Type 0 where
  pub has_state : Bool
  pub state_length : ℕ
  pub has_id : Bool
  pub id_length : ℕ
  pub id_has_nul : Bool

unfoldable pub decide_json_call : {V : Type 0} → Work V → JsonRequest → Work V
unfolding settle
decide_json_call work r s =
    if not r.has_text || r.text_length == 0 || not r.has_outputs
    then invalid bad_arguments s
    else if ltb max_json r.text_length
    then invalid too_large s
    else settle (work s)

-- The first request of a batch that is refused.
unfoldable pub refused_text : List (Bool × ℕ) → Option Message
refused_text [] = none
refused_text ((present, n) ∷ rs) =
    let rest = refused_text rs in
    if not present || n == 0
    then some empty_request
    else if ltb max_json n
    then some large_request
    else rest

-- `memory` tells whether the two arrays can be allocated.
unfoldable pub decide_json_batch_call : {V : Type 0} → Bool → Work V → JsonBatch → Work V
unfolding settle refused_text
decide_json_batch_call memory work r s =
    let count = length r.texts in
    if not r.has_requests || count == 0 || ltb max_batch_inputs count || not r.has_outputs
    then invalid bad_arguments s
    else settle (
        if memory
        then elim (refused_text r.texts) [
          | none ↦ work s
          | some message ↦ (rejected request_error message, s)
        ]
        else (rejected out_of_memory_error no_memory, s))

unfoldable pub input_invalid : Input → Bool
input_invalid i =
    not i.has_state
    || i.state_length == 0
    || ltb max_json i.state_length
    || ltb max_json i.id_length
    || (not (i.id_length == 0) && not i.has_id)
    || (not (i.id_length == 0) && i.id_has_nul)

unfoldable pub decide_call : {V : Type 0} → Work V → Option Input → Bool → Work V
unfolding settle input_invalid
decide_call work none has_output s = invalid bad_arguments s
decide_call work (some i) has_output s =
    if not has_output
    then invalid bad_arguments s
    else if not s.has_questions
    then (rejected request_error no_schema, s)
    else if input_invalid i
    then (rejected request_error bad_input, s)
    else settle (work s)

unfoldable pub any_invalid : List Input → Bool
unfolding input_invalid
any_invalid [] = false
any_invalid (i ∷ is) = input_invalid i || any_invalid is

unfoldable pub decide_batch_call : {V : Type 0} → Bool → Work V → Bool → List Input → Bool → Work V
unfolding settle any_invalid
decide_batch_call memory work has_inputs inputs has_output s =
    let count = length inputs in
    if not has_inputs || count == 0 || ltb max_batch_inputs count || not has_output
    then invalid bad_arguments s
    else if not memory
    then (rejected out_of_memory_error no_memory, s)
    else if not s.has_questions || any_invalid inputs
    then (rejected request_error bad_input, s)
    else settle (work s)

-- Whether the session was free, which it is not any more.
unfoldable pub session_acquire : Session → Bool × Session
session_acquire s = (not s.busy, record s { busy = true })

unfoldable pub session_ready : {V : Type 0} → Session → Option (Reply V)
session_ready s = if s.poisoned then some (rejected internal unusable) else none

-- The report to the logger, and the reference to the model that is held meanwhile, are left out.
unfoldable pub session_release : {V : Type 0} → Reply V × Session → Reply V × Session
session_release (accepted v, s) = (accepted v, record s { error = none; busy = false })
session_release (rejected code message, s) =
    (rejected code message, record s { error = some message; busy = false })

pub data Request (V : Type 0) : Type 0 where
  json : Work V → JsonRequest → Request V
  json_batch : Bool → Work V → JsonBatch → Request V
  typed : Work V → Option Input → Bool → Request V
  typed_batch : Bool → Work V → Bool → List Input → Bool → Request V

unfoldable pub call : {V : Type 0} → Request V → Work V
unfolding decide_json_call decide_json_batch_call decide_call decide_batch_call
call (json work r) = decide_json_call work r
call (json_batch memory work r) = decide_json_batch_call memory work r
call (typed work i has_output) = decide_call work i has_output
call (typed_batch memory work has_inputs is has_output) =
    decide_batch_call memory work has_inputs is has_output

unfoldable pub answered : {V : Type 0} → Option (Reply V) → Request V → Work V
unfolding call
answered none r s = call r s
answered (some reply) r s = (reply, s)

-- `jb_session_decide_json`, `jb_session_decide_json_batch`, `jb_session_decide` and
-- `jb_session_decide_batch` on a session.
unfoldable pub decide : {V : Type 0} → Request V → Work V
unfolding session_acquire session_ready session_release answered
decide r s =
    let (free, t) = session_acquire s in
    if free then session_release (answered (session_ready t) r t) else invalid in_use t
