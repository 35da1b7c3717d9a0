-- ===== src/Sidecar.antt =====
-- src/sidecar-client.ts: the requests of `SidecarClient` and what settles their promises. The state
-- has the promises themselves: `settled` lists each call of `resolve` or `reject`, in order. The
-- child process is the number of its start; the JSON parser is the argument `parse`, whose texts
-- that are no objects count as no response. The clock and the process act by steps (see Requests).
pub mod Answers
pub mod Requests
use omnibase.Prelude.{
  ℕ, zero, suc, ◌+◌, Bool, true, false, not, ◌&&◌, ◌||◌, Option, none, some, List, [], ◌∷◌, ◌++◌,
  ◌==◌, if◌then◌else◌,
}
use omnibase.Text.{Text}
use omnibase.Values.{Value}
use omnibase.Types.{Error, database, sidecar_crash, sidecar_timeout}

pub record JsonRpcResponse : Type 0 where
  pub id : Option ℕ
  pub result : Value
  pub error : Option (Text × Text)

pub data Settlement : Type 0 where
  resolved : Value → Settlement
  rejected : Error → Settlement

pub record Client : Type 0 where
  pub process : Option ℕ
  pub started : ℕ
  pub stopping : Bool
  pub request_id : ℕ
  pub pending : List ℕ
  pub settled : List (ℕ × Settlement)
  -- how often the crash handler was called
  pub crashes : ℕ

abbrev pub new_client : Client
new_client = record {
  process = none;
  started = 0;
  stopping = false;
  request_id = 0;
  pending = [];
  settled = [];
  crashes = 0;
}

unfoldable pub waits : ℕ → List ℕ → Bool
waits id [] = false
waits id (j ∷ ids) = j == id || waits id ids

-- `this.pending.delete(id)`
unfoldable pub without : ℕ → List ℕ → List ℕ
without id [] = []
without id (j ∷ ids) = let rest = without id ids in if j == id then rest else j ∷ rest

-- `this.pending.set(id, …)`
unfoldable pub with_id : ℕ → List ℕ → List ℕ
with_id id ids = if waits id ids then ids else ids ++ id ∷ []

unfoldable pub start : Client → Client
start c = record c { stopping = false; process = some (suc c.started); started = suc c.started }

unfoldable pub stop : Client → Client
stop c = record c { stopping = true; process = none }

-- `exited` is whether the exit code of the process is set.
abbrev pub runs : Option ℕ → Bool → Bool
runs none exited = false
runs (some p) exited = not exited

unfoldable pub ensure_running : Bool → Client → Client
ensure_running exited c = if runs c.process exited then c else start c

abbrev pub enqueue : Option ℕ → Client → Client
enqueue none c = c
enqueue (some p) c = record c {
  request_id = suc c.request_id;
  pending = with_id (suc c.request_id) c.pending;
}

-- `send` behind `ensureRunning`; with no process it throws and changes nothing.
unfoldable pub send : Client → Client
send c = enqueue c.process c

abbrev pub settle : ℕ → Settlement → Client → Client
settle id outcome c = record c {
  pending = without id c.pending;
  settled = c.settled ++ (id, outcome) ∷ [];
}

-- The callback of the timer of a request.
unfoldable pub time_out : ℕ → Client → Client
time_out id c = settle id (rejected sidecar_timeout) c

abbrev pub outcome_of : JsonRpcResponse → Option (Text × Text) → Settlement
outcome_of response none = resolved response.result
outcome_of response (some (code, message)) = rejected (database code message)

abbrev pub answer_to : JsonRpcResponse → Option ℕ → Client → Client
answer_to response none c = c
answer_to response (some id) c =
    let answered = settle id (outcome_of response response.error) c in
    if waits id c.pending then answered else c

abbrev pub on_response : Option JsonRpcResponse → Client → Client
on_response none c = c
on_response (some response) c = answer_to response response.id c

unfoldable pub handle_response : (Text → Option JsonRpcResponse) → Text → Client → Client
handle_response parse line c = on_response (parse line) c

abbrev pub crash_all : List ℕ → List (ℕ × Settlement)
crash_all [] = []
crash_all (id ∷ ids) = (id, rejected sidecar_crash) ∷ crash_all ids

-- The handler of "exit", whichever process it is that exited.
unfoldable pub on_exit : Client → Client
on_exit c = record c {
  settled = c.settled ++ crash_all c.pending;
  pending = [];
  process = none;
  crashes = if c.stopping then c.crashes else suc c.crashes;
}

-- Opens what this file defines, to evaluate it on concrete inputs.
unfoldable pub sidecar_runs : Unit {0}
unfolding waits without with_id start stop ensure_running send time_out handle_response on_exit
sidecar_runs = tt
