-- ===== src/Session/Calls.antt =====
-- What a call leaves behind, whichever of the four it is.
use jev_bush.Prelude.{
  ◌≡◌, ◌⊎◌, inl, inr, refl, sym, ap, subst, ◌∙◌, arith, List, [], ◌∷◌, Option, none, some, Bool,
  true, false, not, ◌||◌, ltb, ◌==◌, length, if◌then◌else◌,
}
use jev_bush.Track.{Status, invalid_argument, internal, request_error, out_of_memory_error}
use jev_bush.Session.{
  Message, unusable, no_memory, bad_arguments, too_large, no_schema, bad_input, max_json,
  max_batch_inputs, Reply, accepted, rejected, Session, Work, call_cleanup, settle,
  decide_json_call, refused_text, decide_json_batch_call, input_invalid, decide_call, any_invalid,
  decide_batch_call, session_acquire, session_ready, session_release, Request, json, json_batch,
  typed, typed_batch, call, answered, decide,
}

-- No workspace of the session is handed out.
abbrev pub IsQuiet : Session → Type 0
IsQuiet s = (s.active ≡ false) × (s.kv_active ≡ false) × (s.control_active ≡ false)

-- The inference that a request asks for.
abbrev pub work_of : {V : Type 0} → Request V → Work V
work_of (json work r) = work
work_of (json_batch memory work r) = work
work_of (typed work i has_output) = work
work_of (typed_batch memory work has_inputs is has_output) = work

-- The answer of a request beside the state it leaves: that of before, or that after inference,
-- cleaned up on a failure.
data Outcome (V : Type 0) (s u : Session) : Reply V × Session → Type 0 where
  answers : (v : V) → Outcome V s u (accepted v, u)
  refuses : (code : Status) (message : Message) → Outcome V s u (rejected code message, s)
  cleans :
      (code : Status) (message : Message) → Outcome V s u (rejected code message, call_cleanup s)
  fails :
      (code : Status) (message : Message) → Outcome V s u (rejected code message, call_cleanup u)

if-Outcome :
    {V : Type 0} {s u : Session} {x y : Reply V × Session} (b : Bool)
    → Outcome V s u x
    → Outcome V s u y
    → Outcome V s u (if b then x else y)
if-Outcome true p q = p
if-Outcome false p q = q

-- A test whose failure answers at once.
guard-Outcome :
    {V : Type 0} {s u : Session} {y : Reply V × Session} (b : Bool) (code : Status)
    (message : Message)
    → Outcome V s u y
    → Outcome V s u (if b then (rejected code message, s) else y)
guard-Outcome b code message q = if-Outcome b (refuses code message) q

settle-Outcome : {V : Type 0} (s : Session) (r : Reply V × Session) → Outcome V s r.1 (settle r)
unfolding settle
settle-Outcome s (accepted v, t) = answers v
settle-Outcome s (rejected code message, t) = fails code message

refused-Outcome :
    {V : Type 0} (o : Option Message) (work : Work V) (s : Session)
    → Outcome V s
        (work s).1
        (settle (elim o [ none ↦ work s | some message ↦ (rejected request_error message, s) ]))
unfolding settle
refused-Outcome none work s = settle-Outcome s (work s)
refused-Outcome (some message) work s = cleans request_error message

batch-Outcome :
    {V : Type 0} (memory : Bool) (o : Option Message) (work : Work V) (s : Session)
    → Outcome V s (work s).1 (
        settle (
          if memory
          then (elim o [ none ↦ work s | some message ↦ (rejected request_error message, s) ])
          else (rejected out_of_memory_error no_memory, s)))
batch-Outcome false o work s = unfold settle in cleans out_of_memory_error no_memory
batch-Outcome true o work s = refused-Outcome o work s

call-Outcome : {V : Type 0} (r : Request V) (s : Session) → Outcome V s (work_of r s).1 (call r s)
unfolding call decide_json_call decide_json_batch_call decide_call decide_batch_call
call-Outcome (json work r) s =
    guard-Outcome (not r.has_text || r.text_length == 0 || not r.has_outputs) invalid_argument
      bad_arguments
      (guard-Outcome (ltb max_json r.text_length) invalid_argument too_large
        (settle-Outcome s (work s)))
call-Outcome (json_batch memory work r) s =
    let count = length r.texts in
    guard-Outcome
      (not r.has_requests || count == 0 || ltb max_batch_inputs count || not r.has_outputs)
      invalid_argument bad_arguments (batch-Outcome memory (refused_text r.texts) work s)
call-Outcome (typed work none has_output) s = refuses invalid_argument bad_arguments
call-Outcome (typed work (some i) has_output) s =
    guard-Outcome (not has_output) invalid_argument bad_arguments (
      guard-Outcome (not s.has_questions) request_error no_schema
        (guard-Outcome (input_invalid i) request_error bad_input (settle-Outcome s (work s))))
call-Outcome (typed_batch memory work has_inputs is has_output) s =
    let count = length is in
    guard-Outcome (not has_inputs || count == 0 || ltb max_batch_inputs count || not has_output)
      invalid_argument bad_arguments
      (guard-Outcome (not memory) out_of_memory_error no_memory (
        guard-Outcome (not s.has_questions || any_invalid is) request_error bad_input
          (settle-Outcome s (work s))))

abbrev pub any_active : Session → Bool
any_active s = s.active || s.kv_active || s.control_active

-- The session after a call, where it was `s` before and inference would leave it as `u`.
abbrev pub Settled : {V : Type 0} → Session → Session → Reply V × Session → Type 0
Settled s u (accepted v, t) = t ≡ record u { error = none; busy = false }
Settled s u (rejected code message, t) =
    (t.busy ≡ false)
    × (t.error ≡ some message)
    × IsQuiet t
    × ((t.poisoned ≡ s.poisoned) ⊎ (t.poisoned ≡ (u.poisoned || any_active u)))

release-Settled :
    {V : Type 0} (s s' u : Session) (r : Reply V × Session)
    → IsQuiet s'
    → s'.poisoned ≡ s.poisoned
    → Outcome V s' u r
    → Settled s u (session_release r)
unfolding session_release
release-Settled s s' u r quiet same (answers v) = refl
release-Settled s s' u r quiet same (refuses code message) = (refl, refl, quiet, inl same)
release-Settled s s' u r quiet same (cleans code message) =
    unfold call_cleanup in
    (refl, refl, (refl, refl, refl), inl (ground (arith, quiet.0, quiet.1, quiet.2)))
release-Settled s s' u r quiet same (fails code message) =
    unfold call_cleanup in (refl, refl, (refl, refl, refl), inr refl)

decide_runs :
    {V : Type 0} (r : Request V) (s : Session)
    → s.busy ≡ false
    → s.poisoned ≡ false
    → decide r s ≡ session_release (call r (record s { busy = true }))
unfolding decide session_acquire session_ready answered
decide_runs r s free sound = rw (free, sound) refl

-- Each of the four decision calls on a session that is free, not poisoned and has no workspace in
-- use: an accepted call leaves what inference left, with the error text cleared and the session
-- free. A rejected one, whatever the reason, leaves the session free with its message as error text
-- and no workspace in use; it is not poisoned unless inference ran and left it so or left a
-- workspace in use.
pub decide-Settled :
    {V : Type 0} (r : Request V) (s : Session)
    → s.busy ≡ false
    → s.poisoned ≡ false
    → IsQuiet s
    → Settled s (work_of r (record s { busy = true })).1 (decide r s)
decide-Settled r s free sound quiet =
    let s' = record s { busy = true } in
    subst (Settled s (work_of r s').1) (sym (decide_runs r s free sound))
      (release-Settled s s' (work_of r s').1 (call r s') quiet refl (call-Outcome r s'))

-- Calls one after the other, with their answers.
unfoldable pub decide_all : {V : Type 0} → List (Request V) → Session → List (Reply V) × Session
unfolding decide
decide_all [] s = ([], s)
decide_all (r ∷ rs) s =
    let (reply, t) = decide r s in let (replies, u) = decide_all rs t in (reply ∷ replies, u)

abbrev pub unusable_for : {V : Type 0} → List (Request V) → List (Reply V)
unusable_for [] = []
unusable_for (r ∷ rs) = rejected internal unusable ∷ unusable_for rs

abbrev pub error_after : {V : Type 0} → List (Request V) → Option Message → Option Message
error_after [] e = e
error_after (r ∷ rs) e = error_after rs (some unusable)

decide_poisoned :
    {V : Type 0} (r : Request V) (s : Session)
    → s.busy ≡ false
    → s.poisoned ≡ true
    → decide r s ≡ (rejected internal unusable, record s { error = some unusable; busy = false })
unfolding decide session_acquire session_ready answered session_release
decide_poisoned r s free bad = rw (free, bad) refl

-- A poisoned session never recovers: every call of any sequence of decision calls on it is refused
-- as an internal error, without running inference, and changes nothing but the error text.
pub decide_all-poisoned :
    {V : Type 0} (rs : List (Request V)) (s : Session)
    → s.busy ≡ false
    → s.poisoned ≡ true
    → decide_all rs s ≡ (unusable_for rs, record s { error = error_after rs s.error; busy = false })
unfolding decide_all
decide_all-poisoned {V} [] s free bad =
    ap (λ b. let r : List (Reply V) × Session = ([], record s { busy = b }) in r) free
decide_all-poisoned {V} (r ∷ rs) s free bad =
    let t = record s { error = some unusable; busy = false } in
    let first = decide_poisoned r s free bad in
    let later = decide_all-poisoned rs t refl bad in
    ap
      (λ x.
        let y : List (Reply V) × Session = (x.0 ∷ (decide_all rs x.1).0, (decide_all rs x.1).1) in
        y)
      first
    ∙ ap (λ x. let y : List (Reply V) × Session = (rejected internal unusable ∷ x.0, x.1) in y)
        later
