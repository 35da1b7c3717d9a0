-- ===== src/Watcher.antt =====
-- src/config-watcher.ts: `ConfigWatcher`. Timers are numbered in the order of their creation. What
-- `loadConfig` gives when a timer fires is an argument of the step, and so is what `onChange` throws.
-- The watcher is not started again while it watches.
pub mod Delivered
use omnibase.Prelude.{
  ℕ, suc, ◌≡◌, Bool, true, false, Option, none, some, List, [], ◌∷◌, ◌++◌, ◌==◌, not, keep, any,
}
use omnibase.Types.{OmnibaseConfig, Error}
use omnibase.Exec.{Result, ok, err}
use omnibase.Tools.Validation.{validate_custom_tools}

-- A call of `onChange` or of `onError`.
pub data Notice : Type 0 where
  changed : OmnibaseConfig → Notice
  failed : Error → Notice

pub record Watcher : Type 0 where
  pub watching : Bool
  pub debounce_timer : Option ℕ
  -- the timers that will fire
  pub armed : List ℕ
  pub timers : ℕ
  pub notices : List Notice

abbrev pub new_watcher : Watcher
new_watcher = record {
  watching = false;
  debounce_timer = none;
  armed = [];
  timers = 0;
  notices = [];
}

unfoldable pub start : Watcher → Watcher
start w = record w { watching = true }

-- `clearTimeout(t)`, where there is a timer
abbrev pub clear : Option ℕ → List ℕ → List ℕ
clear none armed = armed
clear (some t) armed = keep (λ a. not (a == t)) armed

-- The callback of the file's watch: the timer that runs is replaced by a new one.
unfoldable pub on_event : Watcher → Watcher
on_event w = record w {
  debounce_timer = some w.timers;
  armed = clear w.debounce_timer w.armed ++ w.timers ∷ [];
  timers = suc w.timers;
}

unfoldable pub stop : Watcher → Watcher
stop w = record w {
  watching = false;
  debounce_timer = none;
  armed = clear w.debounce_timer w.armed;
}

-- What `onChange` throws is reported too.
abbrev pub reported : Option Error → List Notice
reported none = []
reported (some e) = failed e ∷ []

-- What validation lets through. The validator always answers (see Tools.Validation).
abbrev pub validated : Option Error → OmnibaseConfig → Option (Result (Unit {0})) → List Notice
validated thrown config none = []
validated thrown config (some (ok done)) = changed config ∷ reported thrown
validated thrown config (some (err e)) = failed e ∷ []

unfoldable pub notice_of : Option Error → Result OmnibaseConfig → List Notice
notice_of thrown (ok config) = validated thrown config (validate_custom_tools config)
notice_of thrown (err e) = failed e ∷ []

-- `handleChange`, when an armed timer fires.
unfoldable pub handle_change : ℕ → Result OmnibaseConfig → Option Error → Watcher → Watcher
handle_change t loaded thrown w = record w {
  armed = clear (some t) w.armed;
  notices = w.notices ++ notice_of thrown loaded;
}

pub data Step (w : Watcher) : Watcher → Type 0 where
  starts : w.watching ≡ false → Step w (start w)
  notes : w.watching ≡ true → Step w (on_event w)
  fires :
      (t : ℕ) (loaded : Result OmnibaseConfig) (thrown : Option Error)
      → any (λ a. a == t) w.armed ≡ true
      → Step w (handle_change t loaded thrown w)
  stops : Step w (stop w)

pub data Reach : Watcher → Type 0 where
  fresh : Reach new_watcher
  later : {w v : Watcher} → Reach w → Step w v → Reach v
