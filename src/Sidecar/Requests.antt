-- ===== src/Sidecar/Requests.antt =====
-- Each request is settled once, whatever the order of answers, timeouts and crashes.
use Prim.Native.Nat.{◌≤◌}
use omnibase.Prelude.{
  ℕ, suc, ◌+◌, ◌≡◌, refl, inl, inr, Bool, true, false, ◌&&◌, Option, none, some, List, [], ◌∷◌,
  ◌++◌, ◌==◌, ltb, leb, if◌then◌else◌, arith, Bool-cases,
}
use omnibase.Text.{Text}
use omnibase.Types.{sidecar_timeout}
use omnibase.Sidecar.{
  JsonRpcResponse, Settlement, rejected, Client, new_client, waits, without, with_id, start, stop,
  runs, ensure_running, send, enqueue, settle, time_out, outcome_of, answer_to, on_response,
  handle_response, crash_all, on_exit,
}

-- One event: a call of a method, a line of the sidecar, the exit of a process, or a timer, which
-- only a request that is still pending has.
pub data Step (parse : Text → Option JsonRpcResponse) : Client → Client → Type 0 where
  starts : (c : Client) → Step parse c (start c)
  stops : (c : Client) → Step parse c (stop c)
  ensures : (exited : Bool) (c : Client) → Step parse c (ensure_running exited c)
  sends : (c : Client) → Step parse c (send c)
  reads : (line : Text) (c : Client) → Step parse c (handle_response parse line c)
  fires : (id : ℕ) (c : Client) → waits id c.pending ≡ true → Step parse c (time_out id c)
  exits : (c : Client) → Step parse c (on_exit c)

pub data Steps (parse : Text → Option JsonRpcResponse) (a : Client) : Client → Type 0 where
  none_yet : Steps parse a a
  then_step : (b c : Client) → Steps parse a b → Step parse b c → Steps parse a c

-- How often an id is pending.
unfoldable pub times : ℕ → List ℕ → ℕ
times id [] = 0
times id (j ∷ ids) = (if j == id then 1 else 0) + times id ids

-- How often the promise of an id was settled.
unfoldable pub settlements : ℕ → List (ℕ × Settlement) → ℕ
settlements id [] = 0
settlements id ((j, outcome) ∷ log) = (if j == id then 1 else 0) + settlements id log

-- Whether a request with this id was sent.
abbrev pub was_sent : ℕ → ℕ → ℕ
was_sent id last = if ltb 0 id && leb id last then 1 else 0

-- Every request that was sent is pending once or settled once, and no other id is either.
pub record IsBalanced (c : Client) : Type 0 where
  pub balance : (id : ℕ) → times id c.pending + settlements id c.settled ≡ was_sent id c.request_id

times-append : (id : ℕ) (xs ys : List ℕ) → times id (xs ++ ys) ≡ times id xs + times id ys
unfolding times
times-append id [] ys = omega arith
times-append id (x ∷ xs) ys = omega (arith, times-append id xs ys)

settlements-append :
    (id : ℕ) (xs ys : List (ℕ × Settlement))
    → settlements id (xs ++ ys) ≡ settlements id xs + settlements id ys
unfolding settlements
settlements-append id [] ys = omega arith
settlements-append id ((j, outcome) ∷ xs) ys = omega (arith, settlements-append id xs ys)

settlements-crash_all : (id : ℕ) (ids : List ℕ) → settlements id (crash_all ids) ≡ times id ids
unfolding settlements times
settlements-crash_all id [] = refl
settlements-crash_all id (j ∷ ids) = omega (arith, settlements-crash_all id ids)

waits-times : (id : ℕ) (ids : List ℕ) → waits id ids ≡ true → 1 ≤ times id ids
unfolding waits times
waits-times id [] h = ground arith
waits-times id (j ∷ ids) h = ground (arith, waits-times id ids)

times-without :
    (id k : ℕ) (ids : List ℕ) → times k (without id ids) ≡ (if id == k then 0 else times k ids)
unfolding times without
times-without id k [] = ground arith
times-without id k (j ∷ ids) = ground (arith, times-without id k ids)

waits-false : (id : ℕ) (ids : List ℕ) → times id ids ≡ 0 → waits id ids ≡ false
unfolding waits times
waits-false id [] h = refl
waits-false id (j ∷ ids) h = ground (arith, waits-false id ids)

start-IsBalanced : (c : Client) → IsBalanced c → IsBalanced (start c)
unfolding start
start-IsBalanced c h = record { balance = h.balance }

enqueue-IsBalanced :
    (process : Option ℕ) (c : Client) → IsBalanced c → IsBalanced (enqueue process c)
enqueue-IsBalanced none c h = h
enqueue-IsBalanced (some p) c h =
    let next = suc c.request_id in
    let fresh : waits next c.pending ≡ false =
      waits-false next c.pending (ground (arith, h.balance next)) in
    record {
      balance = λ id.
          unfold with_id in
          rw (fresh, times-append id c.pending (next ∷ []))
            (unfold times in ground (arith, h.balance id));
    }

settle-IsBalanced :
    (id : ℕ) (outcome : Settlement) (c : Client)
    → waits id c.pending ≡ true
    → IsBalanced c
    → IsBalanced (settle id outcome c)
settle-IsBalanced id outcome c waiting h = record {
  balance = λ k.
      rw (times-without id k c.pending, settlements-append k c.settled ((id, outcome) ∷ []))
        (unfold settlements in ground (arith, h.balance k, waits-times id c.pending waiting));
}

answer_to-IsBalanced :
    (response : JsonRpcResponse) (id : Option ℕ) (c : Client)
    → IsBalanced c
    → IsBalanced (answer_to response id c)
answer_to-IsBalanced response none c h = h
answer_to-IsBalanced response (some id) c h = elim (Bool-cases (waits id c.pending)) [
  | inl waiting ↦ rw waiting (settle-IsBalanced id (outcome_of response response.error) c waiting h)
  | inr gone ↦ rw gone h
]

on_response-IsBalanced :
    (response : Option JsonRpcResponse) (c : Client)
    → IsBalanced c
    → IsBalanced (on_response response c)
on_response-IsBalanced none c h = h
on_response-IsBalanced (some response) c h = answer_to-IsBalanced response response.id c h

on_exit-IsBalanced : (c : Client) → IsBalanced c → IsBalanced (on_exit c)
unfolding on_exit
on_exit-IsBalanced c h = record {
  balance = λ id.
      rw (settlements-append id c.settled (crash_all c.pending))
        (unfold times in omega (arith, h.balance id, settlements-crash_all id c.pending));
}

Step-IsBalanced :
    (parse : Text → Option JsonRpcResponse) (a b : Client)
    → Step parse a b
    → IsBalanced a
    → IsBalanced b
unfolding stop ensure_running send time_out handle_response
Step-IsBalanced parse a b (starts c) h = start-IsBalanced c h
Step-IsBalanced parse a b (stops c) h = record { balance = h.balance }
Step-IsBalanced parse a b (ensures exited c) h = elim (Bool-cases (runs c.process exited)) [
  | inl alive ↦ rw alive h
  | inr dead ↦ rw dead (start-IsBalanced c h)
]
Step-IsBalanced parse a b (sends c) h = enqueue-IsBalanced c.process c h
Step-IsBalanced parse a b (reads line c) h = on_response-IsBalanced (parse line) c h
Step-IsBalanced parse a b (fires id c waiting) h =
    settle-IsBalanced id (rejected sidecar_timeout) c waiting h
Step-IsBalanced parse a b (exits c) h = on_exit-IsBalanced c h

Steps-keep-balance :
    (parse : Text → Option JsonRpcResponse) (a b : Client)
    → Steps parse a b
    → IsBalanced a
    → IsBalanced b
Steps-keep-balance parse a b none_yet h = h
Steps-keep-balance parse a b (then_step mid last steps step) h =
    Step-IsBalanced parse mid last step (Steps-keep-balance parse a mid steps h)

-- After any sequence of calls, answers, timeouts and exits from a new client, every request that was
-- sent is either pending or settled, and that once; no other id is pending or settled.
pub Steps-IsBalanced :
    (parse : Text → Option JsonRpcResponse) (c : Client) → Steps parse new_client c → IsBalanced c
Steps-IsBalanced parse c steps =
    Steps-keep-balance parse new_client c steps
      (record { balance = λ id. unfold times settlements in ground arith })

-- When a process exits after any sequence of events, every request that was sent has been settled
-- once: none is left to wait, and none is answered twice.
pub on_exit-settles :
    (parse : Text → Option JsonRpcResponse) (c : Client)
    → Steps parse new_client c
    → (id : ℕ) → settlements id (on_exit c).settled ≡ was_sent id c.request_id
unfolding on_exit
on_exit-settles parse c steps id =
    let after = on_exit-IsBalanced c (Steps-IsBalanced parse c steps) in
    unfold times in omega (arith, after.balance id)
