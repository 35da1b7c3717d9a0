-- ===== src/Watcher/Delivered.antt =====
-- What a watcher delivers, and when.
use omnibase.Prelude.{
  ◌≡◌, refl, ap, ℕ, true, false, Bool-cases, inl, inr, ◌⊎◌, Option, none, some, List, [], ◌∷◌, ◌++◌,
  ◌==◌, All, any, length, ◌≤◌, arith,
}
use omnibase.Types.{OmnibaseConfig, Error}
use omnibase.Exec.{Result, ok, err}
use omnibase.Tools.Validation.{validate_custom_tools}
use omnibase.Watcher.{
  Notice, changed, failed, Watcher, start, clear, on_event, stop, reported, validated, notice_of,
  handle_change, Step, starts, notes, fires, stops, Reach, fresh, later,
}

-- A configuration that is delivered passed the validation of its custom tools.
abbrev pub IsValidated : Notice → Type 0
IsValidated (changed config) = validate_custom_tools config ≡ some (ok tt)
IsValidated (failed e) = Unit

-- No timer, or the one that the watcher knows.
abbrev IsSole : Option ℕ → List ℕ → Type 0
IsSole timer armed = (armed ≡ []) ⊎ ((t : ℕ) × (armed ≡ t ∷ []) × (timer ≡ some t))

record IsQuiet (w : Watcher) : Type 0 where
  sole : IsSole w.debounce_timer w.armed
  silent : w.watching ≡ false → w.armed ≡ []
  valid : All IsValidated w.notices

All-append :
    (xs ys : List Notice) → All IsValidated xs → All IsValidated ys → All IsValidated (xs ++ ys)
All-append [] ys h k = k
All-append (x ∷ xs) ys (hx, h) k = (hx, All-append xs ys h k)

reported-IsValidated : (thrown : Option Error) → All IsValidated (reported thrown)
reported-IsValidated none = tt
reported-IsValidated (some e) = (tt, tt)

validated-IsValidated :
    (thrown : Option Error) (config : OmnibaseConfig) (answer : Option (Result (Unit {0})))
    → validate_custom_tools config ≡ answer
    → All IsValidated (validated thrown config answer)
validated-IsValidated thrown config none h = tt
validated-IsValidated thrown config (some (ok done)) h = (h, reported-IsValidated thrown)
validated-IsValidated thrown config (some (err e)) h = (tt, tt)

notice_of-IsValidated :
    (thrown : Option Error) (loaded : Result OmnibaseConfig)
    → All IsValidated (notice_of thrown loaded)
unfolding notice_of
notice_of-IsValidated thrown (ok config) =
    validated-IsValidated thrown config (validate_custom_tools config) refl
notice_of-IsValidated thrown (err e) = (tt, tt)

-- The timer that the watcher knows is cleared, and so is the one that fires.
clear-sole : (timer : Option ℕ) (armed : List ℕ) → IsSole timer armed → clear timer armed ≡ []
clear-sole none armed (inl none_armed) = none_armed
clear-sole (some t) armed (inl none_armed) = rw none_armed refl
clear-sole timer armed (inr (t, one, known)) = rw one (rw known (ground arith))

clear-fired :
    (timer : Option ℕ) (armed : List ℕ) (t : ℕ)
    → IsSole timer armed
    → any (λ a. a == t) armed ≡ true
    → clear (some t) armed ≡ []
clear-fired timer armed t (inl none_armed) due = rw none_armed refl
clear-fired timer armed t (inr (u, one, known)) due =
    let same : any (λ a. a == t) (u ∷ []) ≡ true = rw one at due in rw one (ground arith)

Step-IsQuiet : (w v : Watcher) → Step w v → IsQuiet w → IsQuiet v
unfolding start on_event stop handle_change
Step-IsQuiet w v (starts idle) inv = record {
  sole = inv.sole;
  silent = λ h. ground arith;
  valid = inv.valid;
}
Step-IsQuiet w v (notes watching) inv = record {
  sole = inr (
    w.timers,
    ap (λ armed. armed ++ w.timers ∷ []) (clear-sole w.debounce_timer w.armed inv.sole),
    refl,
  );
  silent = λ h. ground arith;
  valid = inv.valid;
}
Step-IsQuiet w v (fires t loaded thrown due) inv =
    let fired = clear-fired w.debounce_timer w.armed t inv.sole due in
    record {
      sole = inl fired;
      silent = λ h. fired;
      valid =
          All-append w.notices (notice_of thrown loaded) inv.valid
            (notice_of-IsValidated thrown loaded);
    }
Step-IsQuiet w v stops inv =
    let cleared = clear-sole w.debounce_timer w.armed inv.sole in
    record { sole = inl cleared; silent = λ h. cleared; valid = inv.valid }

Reach-IsQuiet : (w : Watcher) → Reach w → IsQuiet w
Reach-IsQuiet w fresh = record { sole = inl refl; silent = λ h. refl; valid = tt }
Reach-IsQuiet w (later {w = before} steps step) =
    Step-IsQuiet before w step (Reach-IsQuiet before steps)

-- However the file changes, timers fire and the watcher starts and stops: there is never more than
-- one timer that could deliver anything, there is none where the watcher does not watch, and every
-- configuration that was ever delivered is one that the validator of custom tools accepts.
pub Reach-quiet_and_valid :
    (w : Watcher)
    → Reach w
    → (length w.armed ≤ 1) × ((w.watching ≡ true) ⊎ (w.armed ≡ [])) × All IsValidated w.notices
Reach-quiet_and_valid w steps =
    let inv = Reach-IsQuiet w steps in
    (
      elim inv.sole [
        | inl none_armed ↦ rw none_armed (omega arith)
        | inr (t, one, known) ↦ rw one (omega arith)
      ],
      elim (Bool-cases w.watching) [
        | inl watching ↦ inl watching
        | inr idle ↦ inr (inv.silent idle)
      ],
      inv.valid,
    )
