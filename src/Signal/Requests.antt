-- ===== src/Signal/Requests.antt =====
-- The signals that are watched, and what they ask for, against the table in zevinit/README.md.
use zevory_linux.Prelude.{
  ◌≡◌, List, [], ◌∷◌, Bool, true, false, ◌||◌, ℤ, ◌==ℤ◌, if◌then◌else◌, arith,
}
use zevory_linux.Os.{Os}
use zevory_linux.Power.Actions.{reboot, power_off, halt}
use zevory_linux.Signal.{Request, child_changed, reload, shutdown, unknown, watched, classify}

-- The rows of the table under "Signals"
abbrev pub readme : Os → List (ℤ × Request)
readme o =
    (o.sigchld, child_changed)
    ∷ (o.sigterm, shutdown reboot)
    ∷ (o.sigint, shutdown reboot)
    ∷ (o.sigusr2, shutdown power_off)
    ∷ (o.sigusr1, shutdown halt)
    ∷ (o.sigpwr, shutdown halt)
    ∷ (o.sighup, reload)
    ∷ []

-- "Anything else is left alone."
abbrev pub meaning : List (ℤ × Request) → ℤ → Request
meaning [] signal = unknown signal
meaning (row ∷ rows) signal = if signal ==ℤ row.0 then row.1 else meaning rows signal

abbrev pub is_among : ℤ → List ℤ → Bool
is_among signal [] = false
is_among signal (s ∷ ss) = (signal ==ℤ s) || is_among signal ss

abbrev pub is_wired : Request → Bool
is_wired child_changed = true
is_wired reload = true
is_wired (shutdown a) = true
is_wired (unknown signal) = false

-- Whatever numbers libc gives the signals, classify reads a signal as the first row for it in the
-- README's table of signals does, and as unknown where there is none; and the signals that are
-- watched are exactly those that it knows.
pub classify_lem :
    (o : Os) (signal : ℤ)
    → (classify o signal ≡ meaning (readme o) signal)
      × (is_among signal (watched o) ≡ is_wired (classify o signal))
unfolding classify watched
classify_lem o signal = (ground arith, ground arith)
