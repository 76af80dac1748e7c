-- ===== src/Main/Shells.antt =====
-- How many shells supervision keeps alive: one at most, and none is started while one is alive.
use zevory_linux.Prelude.{
  Bool, ℕ, zero, suc, ◌+◌, ◌≤◌, ◌≡◌, refl, List, [], ◌∷◌, ◌++◌, Option, none, some, ℤ, inl, inr, ap,
  ◌==◌, leb, keep, arith,
}
use zevory_linux.Os.{Text, Os, Process, aborted, parked, M, pure, out_of_fuel, ◌>>=◌}
use zevory_linux.Os.Rules.{
  Meets-any, Meets, Meets-pure, Meets-stop, Meets-bind, Meets-elim, Meets-result, Meets-mono,
}
use zevory_linux.Sys.Io.{is_interrupted, Result, ok, err}
use zevory_linux.Proc.{
  Table, Spec, is_running, running_count, forget_finished, tracked, track, spawn, state_from,
}
use zevory_linux.Proc.Entries.{finish_lem, state_from-not_running}
use zevory_linux.Signal.{
  Signals, Request, child_changed, reload, shutdown, unknown, classify, reap_all,
}
use zevory_linux.Signal.Reaping.{reaps, after_exit, after_exits}
use zevory_linux.Signal.Refinement.{AnyStop, reap_all_lem}
use zevory_linux.Main.Setup.{panic, pause_forever, park}
use zevory_linux.Shell.{Rescue}
use zevory_linux.Power.Actions.{Action}
use zevory_linux.Main.Supervise.{
  Watch, Round, again, going_down, start, respawn, after_reaping, obey, heed, round,
  supervise_rounds, supervise,
}

running_count-forget : (t : Table) → running_count (forget_finished t) ≡ running_count t
unfolding running_count forget_finished keep
running_count-forget [] = refl
running_count-forget (e ∷ t) = ground (arith, running_count-forget t)

running_count-track :
    (name : Text) (owns : Bool) (pid : ℤ) (now : ℕ) (t : Table)
    → running_count (t ++ tracked name pid owns now ∷ []) ≡ running_count t + 1
unfolding running_count keep tracked is_running
running_count-track name owns pid now [] = refl
running_count-track name owns pid now (e ∷ t) =
    ground (arith, running_count-track name owns pid now t)

module _ (o : Os) where
  running_count-after_exit :
      (t : Table) (x : ℤ × ℤ) → running_count (after_exit o t x) ≤ running_count t
  running_count-after_exit t (pid, status) =
      elim (finish_lem pid (state_from o status) (state_from-not_running o status) t) [
        | inl (absent, nothing) ↦ rw (nothing, after_exit) (omega arith)
        | inr (e, t', found, taken, left, fewer) ↦ rw (taken, after_exit) (omega (arith, fewer))
      ]

  running_count-after_exits :
      (t : Table) (exits : List (ℤ × ℤ)) → running_count (after_exits o t exits) ≤ running_count t
  running_count-after_exits t [] = omega arith
  running_count-after_exits t (x ∷ older) =
      omega (
        arith,
        running_count-after_exit (after_exits o t older) x,
        running_count-after_exits t older,
      )

-- Of runs about which only their results matter
abbrev Always : Process → Type 0
Always s = Unit

-- A result of which something is known, whatever was called.
abbrev pub Gives : {A : Type 0} → M A → (A → Type 0) → Type 0
Gives m V = Meets Always m (λ a s. V a) AnyStop

module _ {A : Type 0} where
  Gives-any : (m : M A) → Gives m (λ a. Unit)
  Gives-any m = Meets-any m

  Gives-pure : {V : A → Type 0} (a : A) → V a → Gives (pure a) V
  Gives-pure a v = Meets-pure a (λ s h. v)

module _ {A B : Type 0} {W : B → Type 0} where
  -- what is known of the first result is known for the rest
  Gives-then :
      {V : A → Type 0} (m : M A) (f : A → M B)
      → Gives m V
      → ((a : A) → V a → Gives (f a) W)
      → Gives (m >>= f) W
  Gives-then m f km kf = Meets-bind m f km λ a. record { at = λ s v. (kf a v).at s tt }

  Gives-whatever : (m : M A) (f : A → M B) → ((a : A) → Gives (f a) W) → Gives (m >>= f) W
  Gives-whatever m f kf = Meets-bind m f (Gives-any m) λ a. kf a

module _ (o : Os) where
  pub Gives-panic : {A : Type 0} {V : A → Type 0} (info : Text) → Gives (panic o {A = A} info) V
  unfolding panic
  Gives-panic info = Gives-whatever _ _ λ _. Meets-stop aborted (λ s h. tt)

  Gives-pause_forever :
      {A : Type 0} {V : A → Type 0} (rounds : ℕ) → Gives (pause_forever o {A = A} rounds) V
  unfolding pause_forever
  Gives-pause_forever zero = Meets-stop parked (λ s h. tt)
  Gives-pause_forever (suc rounds) = Gives-whatever _ _ λ _. Gives-pause_forever rounds

  pub Gives-park :
      {A : Type 0} {V : A → Type 0} (fuel : ℕ) (why : Text) → Gives (park o fuel {A = A} why) V
  unfolding park
  Gives-park fuel why =
      Gives-whatever _ _
        λ _. Gives-whatever _ _ λ _. Gives-whatever _ _ λ _. Gives-pause_forever fuel

  -- Spawning adds one running child, or none where it fails.
  pub Gives-spawn :
      (t : Table) (spec : Spec)
      → Gives (spawn o t spec) (λ r. running_count r.1 ≤ running_count t + 1)
  unfolding spawn track
  Gives-spawn t spec = Gives-whatever _ _ λ started.
      Meets-result started _ _
        (λ pid e.
          Gives-then {V = λ t'. running_count t' ≡ running_count t + 1} _ _
            (Gives-whatever _ _
              λ now. Gives-pure _ (running_count-track spec.name spec.wants_own_session pid now t))
            λ t' e'. Gives-pure _ (omega (arith, e')))
        (λ e e'. Gives-pure _ (omega arith))

  pub Gives-reap_all :
      (fuel : ℕ) (t : Table) → Gives (reap_all o fuel t) (λ r. running_count r.1 ≤ running_count t)
  Gives-reap_all fuel t = record {
    at = λ s h.
        (Meets-mono _ (λ _ e. e)
            (λ r s' g. omega (
              arith,
              ap running_count g.2,
              running_count-forget (after_exits o t g.0),
              running_count-after_exits o t g.0,
            ))
            (λ why s' g. tt) (reap_all_lem o fuel t (reaps s.trace))).at
          s refl;
  }

module _ (o : Os) (fuel : ℕ) where
  Gives-start :
      (t : Table) (r : Rescue)
      → Gives (start o fuel t r) (λ t'. running_count t' ≤ running_count t + 1)
  unfolding start
  Gives-start t r = Gives-whatever _ _ λ spec. Gives-then _ _ (Gives-spawn o t spec) λ started few.
      Meets-result started.0 _ _ (λ pid e. Gives-pure _ few) (λ e e'. Gives-park o fuel _)

  abbrev OneShell : Watch → Type 0
  OneShell w = running_count w.table ≤ 1

  Gives-respawn : (w : Watch) → OneShell w → Gives (respawn o fuel w) OneShell
  unfolding respawn
  Gives-respawn w one =
      Meets-elim (running_count w.table == 0) _ _
        (λ idle. Gives-whatever _ _ λ now.
          Meets-elim (leb w.respawn_at now) _ _
            (λ over.
              Gives-then _ _ (Gives-start w.table w.rescue)
                λ t' few. Gives-pure _ (ground (arith, few)))
            (λ early. Gives-pure w one))
        (λ busy. Gives-pure w one)

  Gives-after_reaping :
      (w : Watch) (shortest : Option ℕ)
      → OneShell w
      → Gives (after_reaping o fuel w shortest) OneShell
  unfolding after_reaping
  Gives-after_reaping w none one = Gives-pure w one
  Gives-after_reaping w (some ran_for) one =
      Meets-elim (leb 1 ran_for) _ _ (λ long. Gives-pure _ one)
        (λ short. Gives-whatever _ _ λ now. Gives-whatever _ _ λ r. Gives-pure _ one)

  -- what a round leaves: at most one shell alive
  abbrev pub Left : Round → Type 0
  Left (again w) = OneShell w
  Left (going_down a t) = running_count t ≤ 1

  Gives-request :
      (r : Request) (m n : M Round) (f : Action → M Round) (g : ℤ → M Round)
      → Gives m Left
      → Gives n Left
      → ((a : Action) → Gives (f a) Left)
      → ((s : ℤ) → Gives (g s) Left)
      → Gives (elim r [ child_changed ↦ m | reload ↦ n | shutdown a ↦ f a | unknown s ↦ g s ]) Left
  Gives-request child_changed m n f g km kn kf kg = km
  Gives-request reload m n f g km kn kf kg = kn
  Gives-request (shutdown a) m n f g km kn kf kg = kf a
  Gives-request (unknown s) m n f g km kn kf kg = kg s

  Gives-obey : (w : Watch) (signal : ℤ) → OneShell w → Gives (obey o fuel w signal) Left
  unfolding obey
  Gives-obey w signal one =
      Gives-request (classify o signal) _ _ _ _
        (Gives-then _ _ (Gives-reap_all o fuel w.table) λ reaped few.
          Gives-then _ _
            (Gives-after_reaping (record w { table = reaped.1 }) reaped.0.shortest_life
              (omega (arith, few)))
            λ w' one'. Gives-pure _ one')
        (Gives-whatever _ _ λ _. Gives-pure _ one) (λ a. Gives-pure _ one)
        (λ s. Gives-whatever _ _ λ _. Gives-pure _ one)

  Gives-heed : (w : Watch) (r : Result (Option ℤ)) → OneShell w → Gives (heed o fuel w r) Left
  unfolding heed
  Gives-heed w (ok (some signal)) one = Gives-obey w signal one
  Gives-heed w (ok none) one = Gives-pure _ one
  Gives-heed w (err e) one =
      Meets-elim (is_interrupted o e) _ _ (λ yes. Gives-pure _ one) (λ no. Gives-park o fuel _)

  -- A round of supervision that begins with at most one running child in the table leaves at most
  -- one, if it returns.
  pub round_one_shell :
      (signals : Signals) (w : Watch)
      → running_count w.table ≤ 1
      → Gives (round o fuel signals w) Left
  unfolding round
  round_one_shell signals w one =
      Gives-then _ _ (Gives-respawn w one)
        λ w' one'. Gives-whatever _ _ λ arrived. Gives-heed w' arrived one'

  Gives-next :
      (r : Round) (f : Watch → M (Action × Table))
      → ((w : Watch) → OneShell w → Gives (f w) (λ d. running_count d.1 ≤ 1))
      → Left r
      → Gives (elim r [ again w ↦ f w | going_down a t ↦ pure (a, t) ]) (λ d. running_count d.1 ≤ 1)
  Gives-next (again w) f k one = k w one
  Gives-next (going_down a t) f k one = Gives-pure _ one

  Gives-supervise_rounds :
      (rounds : ℕ) (signals : Signals) (w : Watch)
      → OneShell w
      → Gives (supervise_rounds o fuel rounds signals w) (λ d. running_count d.1 ≤ 1)
  unfolding supervise_rounds
  Gives-supervise_rounds zero signals w one = Meets-stop out_of_fuel (λ s h. tt)
  Gives-supervise_rounds (suc rounds) signals w one =
      Gives-then _ _ (round_one_shell signals w one)
        λ next left. Gives-next next _ (Gives-supervise_rounds rounds signals) left

  -- Where supervision begins with at most one running child in the table and returns, the table
  -- that it hands on for the way down has at most one.
  pub supervise_one_shell :
      (t : Table) (signals : Signals) (r : Rescue)
      → running_count t ≤ 1
      → Gives (supervise o fuel t signals r) (λ d. running_count d.1 ≤ 1)
  unfolding supervise
  supervise_one_shell t signals r one = Gives-supervise_rounds fuel signals _ one
