-- ===== src/Os/Rules.antt =====
-- Statements about code that calls the kernel, and a rule for each way to build such code.
use zevory_linux.Prelude.{
  ◌≡◌, refl, Bool, true, false, Option, none, some, Option-cases, inl, inr, ◌∷◌,
}
use zevory_linux.Os.{
  Call, Reply, Os, Process, Stop, never_returned, Outcome, done, stopped, M, pure, stop, continue,
  ◌>>=◌, when, event, call,
}
use zevory_linux.Sys.Io.{IoError, Result, ok, err, try, attempt}

-- What holds where a run gives a result, and where it stops.
abbrev pub After :
    {A : Type 0} → (A → Process → Type 0) → (Stop → Process → Type 0) → Outcome A → Process → Type 0
After Q E (done a) = Q a
After Q E (stopped why) = E why

-- From a process in `P`, `m` gives a result in `Q` or stops in `E`.
pub record Meets {A : Type 0} (P : Process → Type 0) (m : M A) (Q : A → Process → Type 0)
    (E : Stop → Process → Type 0) : Type 0 where
  pub at : (s : Process) → P s → After Q E (m s).0 (m s).1

-- `m` keeps `I`, and stops in `E` only.
pub record Keeps {A : Type 0} (I : Process → Type 0) (E : Stop → Process → Type 0) (m : M A)
    : Type 0 where
  pub at : (s : Process) → I s → After (λ _. I) E (m s).0 (m s).1

module _ {A : Type 0} {P : Process → Type 0} {E : Stop → Process → Type 0} where
  pub Meets-pure :
      {Q : A → Process → Type 0} (a : A) → ((s : Process) → P s → Q a s) → Meets P (pure a) Q E
  unfolding pure
  Meets-pure a h = record { at = h }

  pub Meets-stop :
      {Q : A → Process → Type 0} (why : Stop)
      → ((s : Process) → P s → E why s)
      → Meets P (stop why) Q E
  unfolding stop
  Meets-stop why h = record { at = h }

  pub Meets-of_Keeps : (m : M A) → Keeps P E m → Meets P m (λ _. P) E
  Meets-of_Keeps m k = record { at = k.at }

  pub Keeps-of_Meets : (m : M A) → Meets P m (λ _. P) E → Keeps P E m
  Keeps-of_Meets m k = record { at = k.at }

module _ {P : Process → Type 0} {E : Stop → Process → Type 0} where
  -- A call that is not answered is one that the environment has no answer to.
  pub Meets-call_as :
      (o : Os) (c : Call) {Q : Reply → Process → Type 0}
      → ((s : Process)
          → P s
          → o.answer s.trace c ≡ none
          → E never_returned (record s { trace = event c none ∷ s.trace }))
      → ((s : Process) (r : Reply)
          → P s
          → o.answer s.trace c ≡ some r
          → Q r (record s { trace = event c (some r) ∷ s.trace }))
      → Meets P (call o c) Q E
  unfolding call
  Meets-call_as o c gone returned = record {
    at = λ s h. elim (Option-cases (o.answer s.trace c)) [
      | inl e ↦ rw e (gone s h e)
      | inr (r, e) ↦ rw e (returned s r h e)
    ];
  }

  pub Meets-call :
      (o : Os) (c : Call) {Q : Reply → Process → Type 0}
      → ((s : Process) → P s → E never_returned (record s { trace = event c none ∷ s.trace }))
      → ((s : Process) (r : Reply)
          → P s
          → o.answer s.trace c ≡ some r
          → Q r (record s { trace = event c (some r) ∷ s.trace }))
      → Meets P (call o c) Q E
  Meets-call o c gone returned = Meets-call_as o c (λ s h e. gone s h) returned

module _ {A B : Type 0} {R : A → Process → Type 0} {Q : B → Process → Type 0}
    {E : Stop → Process → Type 0} where
  After-continue :
      (r : Outcome A) (s : Process) (f : A → M B)
      → After R E r s
      → ((a : A) → Meets (R a) (f a) Q E)
      → After Q E (continue r f s).0 (continue r f s).1
  After-continue (done a) s f h k = (k a).at s h
  After-continue (stopped why) s f h k = h

module _ {A B : Type 0} {P : Process → Type 0} {R : A → Process → Type 0} {Q : B → Process → Type 0}
    {E : Stop → Process → Type 0} where
  pub Meets-bind :
      (m : M A) (f : A → M B)
      → Meets P m R E
      → ((a : A) → Meets (R a) (f a) Q E)
      → Meets P (m >>= f) Q E
  unfolding ◌>>=◌
  Meets-bind m f km kf = record {
    at = λ s h. let (r, s') = m s in After-continue r s' f (km.at s h) kf;
  }

module _ {A : Type 0} {Q R : A → Process → Type 0} {E E' : Stop → Process → Type 0} where
  After-mono :
      ((a : A) (s : Process) → Q a s → R a s)
      → ((why : Stop) (s : Process) → E why s → E' why s)
      → (r : Outcome A) (s : Process) → After Q E r s
      → After R E' r s
  After-mono q e (done a) s h = q a s h
  After-mono q e (stopped why) s h = e why s h

  pub Meets-mono :
      {P P' : Process → Type 0} (m : M A)
      → ((s : Process) → P' s → P s)
      → ((a : A) (s : Process) → Q a s → R a s)
      → ((why : Stop) (s : Process) → E why s → E' why s)
      → Meets P m Q E
      → Meets P' m R E'
  Meets-mono m p q e k = record { at = λ s h. After-mono q e (m s).0 (m s).1 (k.at s (p s h)) }

-- Two accounts of the same run
module _ {A : Type 0} (Q Q' : A → Process → Type 0) (E E' : Stop → Process → Type 0) where
  After-both :
      (r : Outcome A) (s : Process)
      → After Q E r s
      → After Q' E' r s
      → After (λ a s'. Q a s' × Q' a s') E' r s
  After-both (done a) s h h' = (h, h')
  After-both (stopped why) s h h' = h'

module _ {A : Type 0} {Q Q' : A → Process → Type 0} {E E' : Stop → Process → Type 0} where
  pub Meets-both :
      {P P' : Process → Type 0} (m : M A)
      → Meets P m Q E
      → Meets P' m Q' E'
      → Meets (λ s. P s × P' s) m (λ a s. Q a s × Q' a s) E'
  Meets-both m k k' = record {
    at = λ s h. After-both Q Q' E E' (m s).0 (m s).1 (k.at s h.0) (k'.at s h.1);
  }

-- Nothing is asked of a run.
module _ {A : Type 0} where
  After-any : (r : Outcome A) (s : Process) → After (λ _ _. Unit {0}) (λ _ _. Unit {0}) r s
  After-any (done a) s = tt
  After-any (stopped why) s = tt

  pub Meets-any : {P : Process → Type 0} (m : M A) → Meets P m (λ _ _. Unit {0}) (λ _ _. Unit {0})
  Meets-any m = record { at = λ s h. After-any (m s).0 (m s).1 }

-- A split on a value keeps what was found out about it.
module _ {A : Type 0} {P : Process → Type 0} {Q : A → Process → Type 0}
    {E : Stop → Process → Type 0} where
  pub Meets-elim :
      (b : Bool) (m n : M A)
      → (b ≡ true → Meets P m Q E)
      → (b ≡ false → Meets P n Q E)
      → Meets P (elim b [ true ↦ m | false ↦ n ]) Q E
  Meets-elim true m n km kn = km refl
  Meets-elim false m n km kn = kn refl

  pub Meets-result :
      {B : Type 0} (r : Result B) (f : B → M A) (g : IoError → M A)
      → ((b : B) → r ≡ ok b → Meets P (f b) Q E)
      → ((e : IoError) → r ≡ err e → Meets P (g e) Q E)
      → Meets P (elim r [ ok b ↦ f b | err e ↦ g e ]) Q E
  Meets-result (ok b) f g kf kg = kf b refl
  Meets-result (err e) f g kf kg = kg e refl

  pub Meets-option :
      {B : Type 0} (r : Option B) (f : B → M A) (g : M A)
      → ((b : B) → r ≡ some b → Meets P (f b) Q E)
      → (r ≡ none → Meets P g Q E)
      → Meets P (elim r [ some b ↦ f b | none ↦ g ]) Q E
  Meets-option (some b) f g kf kg = kf b refl
  Meets-option none f g kf kg = kg refl

-- What is known of values, apart from the process, is carried along.
module _ {A : Type 0} {I : Process → Type 0} {Q : A → Process → Type 0}
    {E : Stop → Process → Type 0} where
  pub Meets-given : (V : Type 0) (m : M A) → (V → Meets I m Q E) → Meets (λ s. I s × V) m Q E
  Meets-given V m k = record { at = λ s h. (k h.1).at s h.0 }

module _ {A X : Type 0} {P : X → Process → Type 0} {Q : A → Process → Type 0}
    {E : Stop → Process → Type 0} where
  pub Meets-exists : (m : M A) → ((x : X) → Meets (P x) m Q E) → Meets (λ s. (x : X) × P x s) m Q E
  Meets-exists m k = record { at = λ s h. (k h.0).at s h.1 }

module _ {I : Process → Type 0} {E : Stop → Process → Type 0} where
  pub Keeps-pure : {A : Type 0} (a : A) → Keeps I E (pure a)
  unfolding pure
  Keeps-pure a = record { at = λ s h. h }

  pub Keeps-bind :
      {A B : Type 0} (m : M A) (f : A → M B)
      → Keeps I E m
      → ((a : A) → Keeps I E (f a))
      → Keeps I E (m >>= f)
  Keeps-bind m f km kf =
      Keeps-of_Meets (m >>= f)
        (Meets-bind m f (Meets-of_Keeps m km) (λ a. Meets-of_Keeps (f a) (kf a)))

  pub Keeps-elim :
      {A : Type 0} (b : Bool) (m n : M A)
      → Keeps I E m
      → Keeps I E n
      → Keeps I E (elim b [ true ↦ m | false ↦ n ])
  Keeps-elim true m n km kn = km
  Keeps-elim false m n km kn = kn

  pub Keeps-result :
      {A B : Type 0} (r : Result B) (f : B → M A) (g : IoError → M A)
      → ((b : B) → Keeps I E (f b))
      → ((e : IoError) → Keeps I E (g e))
      → Keeps I E (elim r [ ok b ↦ f b | err e ↦ g e ])
  Keeps-result (ok b) f g kf kg = kf b
  Keeps-result (err e) f g kf kg = kg e

  pub Keeps-option :
      {A B : Type 0} (r : Option B) (f : B → M A) (g : M A)
      → ((b : B) → Keeps I E (f b))
      → Keeps I E g
      → Keeps I E (elim r [ some b ↦ f b | none ↦ g ])
  Keeps-option (some b) f g kf kg = kf b
  Keeps-option none f g kf kg = kg

  pub Keeps-try :
      {A B : Type 0} (r : Result A) (f : A → M (Result B))
      → ((a : A) → Keeps I E (f a))
      → Keeps I E (try r f)
  Keeps-try (ok a) f k = k a
  Keeps-try (err e) f k = Keeps-pure (err e)

  pub Keeps-attempt :
      {A B : Type 0} (m : M (Result A)) (f : A → M (Result B))
      → Keeps I E m
      → ((a : A) → Keeps I E (f a))
      → Keeps I E (attempt m f)
  Keeps-attempt m f km kf = Keeps-bind m (λ r. try r f) km (λ r. Keeps-try r f kf)

  pub Keeps-when : (b : Bool) (m : M Unit) → Keeps I E m → Keeps I E (when b m)
  Keeps-when true m k = k
  Keeps-when false m k = Keeps-pure tt
