-- ===== src/Lifecycle/Supervision.antt =====
-- Supervising: pid 1 stays up until it has read a signal that asks for a way down, and returns the
-- action that was asked for. The choice of shells stays valid, so no index panics.
use zevory_linux.Prelude.{
  ℕ, zero, suc, ◌≡◌, refl, ◌≢◌, inl, inr, Option, none, some, Bool, true, false, ℤ, pos, negsuc,
  ◌==ℤ◌, ◌==◌, leb, is_negative, arith,
}
use zevory_linux.Os.{Call, Reply, Os, Process, M, pure, out_of_fuel, ◌>>=◌}
use zevory_linux.Os.Rules.{
  Meets-given, Meets, Keeps-pure, Keeps-bind, Meets-pure, Meets-bind, Meets-of_Keeps,
  Keeps-of_Meets, Keeps-result, Meets-elim, Meets-stop,
}
use zevory_linux.Sys.{poll_readable, read_signal, signal_read}
use zevory_linux.Sys.Io.{Result, ok, err, try, is_interrupted}
use zevory_linux.Proc.{Table, Spec, running_count}
use zevory_linux.Shell.{Rescue, Verdict, keep_trying, moved_on, out_of_options}
use zevory_linux.Os.{Stop}
use zevory_linux.Shell.Chances.{
  IsValid, shell-of_IsValid, Fails, failed-Fails, Fails-IsValid, survived-IsValid,
}
use zevory_linux.Signal.{Signals, Request, child_changed, reload, shutdown, unknown, classify, wait}
use zevory_linux.Power.Actions.{Action}
use zevory_linux.Main.Setup.{or_panic}
use zevory_linux.Main.Supervise.{
  Watch, Round, again, going_down, start, give_up_or_fall_back, respawn, after_reaping, obey, heed,
  round, supervise_rounds, supervise,
}
use zevory_linux.Lifecycle.{Phase, up, down, asked, turn, In, Ended}
use zevory_linux.Lifecycle.Calls.{Moves-call_then, Stays}
use zevory_linux.Lifecycle.Logging.{Stays-call_then, Stays-error, Stays-info, Stays-monotonic_secs}
use zevory_linux.Lifecycle.Setup.{Stays-park, Ends-park}
use zevory_linux.Lifecycle.Children.{Stays-spawn, Stays-reap_all}

module _ (o : Os) where
  -- where a wait has led to
  abbrev arrival : Result (Option ℤ) → Phase
  arrival (ok (some s)) = asked o (classify o s)
  arrival (ok none) = up
  arrival (err e) = up

  abbrev taken : Result ℤ → Phase
  taken (ok s) = asked o (classify o s)
  taken (err e) = up

  read_taken :
      (rc errno out : ℤ)
      → let r : Reply = record { rc = rc; errno = errno; out = out } in
        turn o up (Call.read (pos 0) 0) (some r) ≡ taken (signal_read o r)
  unfolding signal_read is_negative ◌==ℤ◌
  read_taken (pos n) errno out = ground arith
  read_taken (negsuc n) errno out = refl

  Meets-read : (fd : ℤ) → Meets (In o up) (read_signal o fd) (λ r. In o (taken r)) (Ended o)
  unfolding read_signal
  Meets-read fd = Moves-call_then o up _ _ taken tt λ r. read_taken r.rc r.errno r.out

  Meets-taken :
      (r : Result ℤ)
      → Meets (In o (taken r)) (try r (λ s. pure (ok (some s)))) (λ a. In o (arrival a)) (Ended o)
  Meets-taken (ok s) = Meets-pure _ (λ s h. h)
  Meets-taken (err e) = Meets-pure _ (λ s h. h)

  Meets-readable :
      (fd : ℤ) (r : Result Bool)
      → Meets
          (In o up)
          (try r λ readable. elim readable [
            | true ↦ (read_signal o fd >>= λ r. try r (λ s. pure (ok (some s))))
            | false ↦ pure (ok none)
          ])
          (λ a. In o (arrival a))
          (Ended o)
  Meets-readable fd (ok true) = Meets-bind _ _ (Meets-read fd) Meets-taken
  Meets-readable fd (ok false) = Meets-pure _ (λ s h. h)
  Meets-readable fd (err e) = Meets-pure _ (λ s h. h)

  pub Meets-wait :
      (signals : Signals) (millis : ℤ)
      → Meets (In o up) (wait o signals millis) (λ r. In o (arrival r)) (Ended o)
  unfolding wait poll_readable
  Meets-wait signals millis =
      Meets-bind _ _ (Meets-of_Keeps _ (Stays-call_then o up _ _ (λ r. refl) tt))
        (Meets-readable signals.fd)

  abbrev Good : Watch → Process → Type 0
  Good w s = In o up s × IsValid w.rescue

  -- After a round: still up with a valid choice of shells, or on the way down that was asked for.
  abbrev Rounded : Round → Process → Type 0
  Rounded (again w) = Good w
  Rounded (going_down a t) = In o (down a)

module _ {B : Type 0} {P : Process → Type 0} {E : Stop → Process → Type 0} where
  -- Where there is a value, `or_panic` gives it.
  pub Meets-or_panic :
      {A : Type 0} {Q : B → Process → Type 0} (o : Os) (x : Option A) (f : A → M B) (a : A)
      → x ≡ some a
      → Meets P (f a) Q E
      → Meets P (or_panic o x >>= f) Q E
  unfolding or_panic ◌>>=◌
  Meets-or_panic o x f a e k = rw e k

  Meets-verdict :
      {Q : B → Process → Type 0} (v : Verdict) (m n : M B) (f : Spec → M B)
      → (v ≢ out_of_options → Meets P m Q E)
      → ((s : Spec) → v ≢ out_of_options → Meets P (f s) Q E)
      → Meets P n Q E
      → Meets P (elim v [ keep_trying ↦ m | moved_on s ↦ f s | out_of_options ↦ n ]) Q E
  Meets-verdict keep_trying m n f km kf kn = km (λ e. cc)
  Meets-verdict (moved_on s) m n f km kf kn = kf s (λ e. cc)
  Meets-verdict out_of_options m n f km kf kn = kn

module _ (o : Os) (fuel : ℕ) where
  pub Stays-start : (t : Table) (r : Rescue) → IsValid r → Stays o up (start o fuel t r)
  unfolding start
  Stays-start t r v =
      let (spec, here) = shell-of_IsValid r v in
      Keeps-of_Meets _ (
        Meets-or_panic o _ _ spec here (
          Meets-of_Keeps _ (
            Keeps-bind _ _ (Stays-spawn o t spec) λ started.
              Keeps-result started.0 _ _ (λ pid. Keeps-pure _)
                (λ e. Stays-park o up fuel _ (inr refl)))))

  pub Meets-give_up :
      (r : Rescue)
      → IsValid r
      → Meets (In o up) (give_up_or_fall_back o fuel r) (λ r' s. In o up s × IsValid r') (Ended o)
  unfolding give_up_or_fall_back
  Meets-give_up r v =
      let (spec, here) = shell-of_IsValid r v in
      let (verdict, r', e, fails) = failed-Fails r v in
      let still = λ (going : verdict ≢ out_of_options). still_valid fails going in
      Meets-or_panic o _ _ spec here (
        Meets-or_panic o _ _ (verdict, r') e
          (Meets-verdict verdict _ _ _ (λ going. Meets-pure r' (λ s h. (h, still going)))
            (λ next going.
              Meets-bind _ _ (Meets-of_Keeps _ (Stays-error o up _))
                λ _. Meets-pure r' (λ s h. (h, still going)))
            (Ends-park o up fuel _ (inr refl))))
    where
      still_valid : {w : Verdict} {r' : Rescue} → Fails r w r' → w ≢ out_of_options → IsValid r'
      still_valid f going = elim (Fails-IsValid r v f) [
        | inl gone ↦ absurd (going gone)
        | inr valid ↦ valid
      ]

  Meets-respawn :
      (w : Watch) → IsValid w.rescue → Meets (In o up) (respawn o fuel w) (Good o) (Ended o)
  unfolding respawn
  Meets-respawn w v =
      Meets-elim (running_count w.table == 0) _ _
        (λ idle. Meets-bind _ _ (Meets-of_Keeps _ (Stays-monotonic_secs o up)) λ now.
          Meets-elim (leb w.respawn_at now) _ _
            (λ over.
              Meets-bind _ _ (Meets-of_Keeps _ (Stays-start w.table w.rescue v))
                λ t'. Meets-pure _ (λ s h. (h, v)))
            (λ early. Meets-pure w (λ s h. (h, v))))
        (λ busy. Meets-pure w (λ s h. (h, v)))

  Meets-after_reaping :
      (w : Watch) (shortest : Option ℕ)
      → IsValid w.rescue
      → Meets (In o up) (after_reaping o fuel w shortest) (Good o) (Ended o)
  unfolding after_reaping
  Meets-after_reaping w none v = Meets-pure w (λ s h. (h, v))
  Meets-after_reaping w (some ran_for) v =
      Meets-elim (leb 1 ran_for) _ _ (λ long. Meets-pure _ (λ s h. (h, survived-IsValid v)))
        (λ short.
          Meets-bind _ _ (Meets-of_Keeps _ (Stays-monotonic_secs o up))
            λ now. Meets-bind _ _ (Meets-give_up w.rescue v) λ r'. Meets-pure _ (λ s h. h))

  Meets-request :
      (w : Watch) (r : Request) (m n : M Round) (f : Action → M Round) (g : ℤ → M Round)
      → Meets (In o up) m (Rounded o) (Ended o)
      → Meets (In o up) n (Rounded o) (Ended o)
      → ((a : Action) → Meets (In o (down a)) (f a) (Rounded o) (Ended o))
      → ((s : ℤ) → Meets (In o up) (g s) (Rounded o) (Ended o))
      → Meets
          (In o (asked o r))
          (elim r [ child_changed ↦ m | reload ↦ n | shutdown a ↦ f a | unknown s ↦ g s ])
          (Rounded o)
          (Ended o)
  Meets-request w child_changed m n f g km kn kf kg = km
  Meets-request w reload m n f g km kn kf kg = kn
  Meets-request w (shutdown a) m n f g km kn kf kg = kf a
  Meets-request w (unknown s) m n f g km kn kf kg = kg s

  Meets-obey :
      (w : Watch) (signal : ℤ)
      → IsValid w.rescue
      → Meets (In o (asked o (classify o signal))) (obey o fuel w signal) (Rounded o) (Ended o)
  unfolding obey
  Meets-obey w signal v =
      Meets-request w (classify o signal) _ _ _ _
        (Meets-bind _ _ (Meets-of_Keeps _ (Stays-reap_all o up fuel w.table tt)) λ reaped.
          Meets-bind _ _
            (Meets-after_reaping (record w { table = reaped.1 }) reaped.0.shortest_life v)
            λ w'. Meets-pure (again w') (λ s h. h))
        (Meets-bind _ _ (Meets-of_Keeps _ (Stays-info o up _))
          λ _. Meets-pure (again w) (λ s h. (h, v)))
        (λ a. Meets-pure (going_down a w.table) (λ s h. h))
        (λ other.
          Meets-bind _ _ (Meets-of_Keeps _ (Stays-info o up _))
            λ _. Meets-pure (again w) (λ s h. (h, v)))

  Meets-heed :
      (w : Watch) (r : Result (Option ℤ))
      → IsValid w.rescue
      → Meets (In o (arrival o r)) (heed o fuel w r) (Rounded o) (Ended o)
  unfolding heed
  Meets-heed w (ok (some signal)) v = Meets-obey w signal v
  Meets-heed w (ok none) v = Meets-pure (again w) (λ s h. (h, v))
  Meets-heed w (err e) v =
      Meets-elim (is_interrupted o e) _ _ (λ _. Meets-pure (again w) (λ s h. (h, v)))
        (λ _. Ends-park o up fuel _ (inr refl))

  pub Meets-round :
      (signals : Signals) (w : Watch)
      → IsValid w.rescue
      → Meets (In o up) (round o fuel signals w) (Rounded o) (Ended o)
  unfolding round
  Meets-round signals w v = Meets-bind _ _ (Meets-respawn w v) λ w'.
      Meets-given (IsValid w'.rescue) _
        λ v'. Meets-bind _ _ (Meets-wait o signals _) λ arrived. Meets-heed w' arrived v'

  Meets-next :
      (r : Round) (f : Watch → M (Action × Table))
      → ((w : Watch) → IsValid w.rescue → Meets (In o up) (f w) (λ d. In o (down d.0)) (Ended o))
      → Meets
          (Rounded o r)
          (elim r [ again w ↦ f w | going_down a t ↦ pure (a, t) ])
          (λ d. In o (down d.0))
          (Ended o)
  Meets-next (again w) f k = Meets-given (IsValid w.rescue) (f w) (k w)
  Meets-next (going_down a t) f k = Meets-pure (a, t) (λ s h. h)

  Meets-supervise_rounds :
      (rounds : ℕ) (signals : Signals) (w : Watch)
      → IsValid w.rescue
      → Meets (In o up) (supervise_rounds o fuel rounds signals w) (λ d. In o (down d.0)) (Ended o)
  unfolding supervise_rounds
  Meets-supervise_rounds zero signals w v =
      Meets-stop out_of_fuel (λ s h. record { orderly = h.orderly; well = tt })
  Meets-supervise_rounds (suc rounds) signals w v =
      Meets-bind _ _ (Meets-round signals w v)
        λ next. Meets-next next _ λ w' v'. Meets-supervise_rounds rounds signals w' v'

  -- From a time when pid 1 is up, with a valid choice of shells, supervision makes allowed calls
  -- only and does not panic; it returns only with the action of a signal that was read, and the
  -- life is then on the way down for that action.
  pub supervise-Orderly :
      (t : Table) (signals : Signals) (r : Rescue)
      → IsValid r
      → Meets (In o up) (supervise o fuel t signals r) (λ d. In o (down d.0)) (Ended o)
  unfolding supervise
  supervise-Orderly t signals r v = Meets-supervise_rounds fuel signals _ v
