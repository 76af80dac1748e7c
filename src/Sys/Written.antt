-- ===== src/Sys/Written.antt =====
-- `write_fd` writes the whole text, over as many calls as the kernel needs, or says that it did not.
use zevory_linux.Prelude.{
  ℕ, zero, suc, ◌+◌, ◌≤◌, ◌<◌, ◌≡◌, refl, ◌∙◌, sym, ap, List, [], ◌∷◌, ◌++◌, Bool, true, false,
  Option, some, ℤ, pos, negsuc, ◌==ℤ◌, ==ℤ_iff, is_positive, pos_part, ltb, length, take, drop,
  length-drop, take-take-drop, take_all, if◌then◌else◌, arith, append_assoc, append-nil,
  is_positive→lt,
}
use zevory_linux.Os.{Text, Call, Reply, Event, Os, Process, Stop, never_returned, call}
use zevory_linux.Os.Rules.{
  Meets, Meets-pure, Meets-bind, Meets-call, Meets-elim, Meets-given, Meets-mono,
}
use zevory_linux.Sys.Output.{write_from, write_fd}

-- What one call has put out on `fd`.
abbrev put_out : ℤ → Call → Option Reply → Text
put_out fd (Call.write fd' text) (some r) = if fd' ==ℤ fd then take (pos_part r.rc) text else []
put_out fd _ _ = []

-- What all calls have put out on `fd`, in their order.
abbrev pub output : ℤ → List Event → Text
output fd [] = []
output fd (e ∷ t) = output fd t ++ put_out fd e.made e.reply

-- The documented bound of write(2): it takes no more than it is given.
abbrev pub TakesWhatIsGiven : Os → Type 0
TakesWhatIsGiven o =
    (t : List Event) (fd : ℤ) (text : Text) (r : Reply)
    → o.answer t (Call.write fd text) ≡ some r
    → pos_part r.rc ≤ length text

-- The newest call gave the kernel `text` on `fd`, and it took nothing.
abbrev pub Refused : ℤ → Text → List Event → Type 0
Refused fd text [] = ⊥
Refused fd text (e ∷ t) =
    (e.made ≡ Call.write fd text) × ((r : Reply) × (e.reply ≡ some r) × (is_positive r.rc ≡ false))

-- A result tells how much has gone out: all of the text, or a part of it that leaves something,
-- and then what is left was given to the kernel and refused.
pub record Wrote (fd : ℤ) (before : Text) (text : Text) (all : Bool) (s : Process) : Type 0 where
  pub count : ℕ
  pub out : output fd s.trace ≡ before ++ take count text
  pub whole : all ≡ true → output fd s.trace ≡ before ++ text
  pub part : all ≡ false → count < length text
  pub refused : all ≡ false → Refused fd (drop count text) s.trace

abbrev pub NeverCut : Stop → Process → Type 0
NeverCut why s = why ≡ never_returned

module _ (o : Os) (bounded : TakesWhatIsGiven o) (fd : ℤ) (text before : Text) where
  abbrev OutSoFar : ℕ → Process → Type 0
  OutSoFar n s = output fd s.trace ≡ before ++ take n text

  put_out_self :
      (n : ℕ) (r : Reply)
      → put_out fd (Call.write fd (drop n text)) (some r) ≡ take (pos_part r.rc) (drop n text)
  put_out_self n r = rw ((==ℤ_iff fd fd).1 refl)

  Meets-write :
      (n : ℕ)
      → Meets
          (OutSoFar n)
          (call o (Call.write fd (drop n text)))
          (λ r s.
            (OutSoFar (n + pos_part r.rc) s
              × (is_positive r.rc ≡ false → Refused fd (drop n text) s.trace))
            × (pos_part r.rc ≤ length (drop n text)))
          NeverCut
  Meets-write n =
      Meets-call o _ (λ s h. refl)
        (λ s r h e. (
          (
            ap (λ k. output fd s.trace ++ k) (put_out_self n r)
                ∙ ap (λ k. k ++ take (pos_part r.rc) (drop n text)) h
                ∙ append_assoc before _ _
                ∙ ap (λ k. before ++ k) (take-take-drop n (pos_part r.rc) text),
            λ refused. (refl, (r, refl, refused)),
          ),
          bounded s.trace fd (drop n text) r e,
        ))

  Wrote-all : (n : ℕ) (s : Process) → length text ≤ n → OutSoFar n s → Wrote fd before text true s
  Wrote-all n s h e = record {
    count = n;
    out = e;
    whole = λ _. e ∙ ap (λ k. before ++ k) (take_all n text h);
    part = λ e'. cc;
    refused = λ e'. cc;
  }

  Wrote-part :
      (n : ℕ) (s : Process)
      → n < length text
      → OutSoFar n s
      → Refused fd (drop n text) s.trace
      → Wrote fd before text false s
  Wrote-part n s h e last = record {
    count = n;
    out = e;
    whole = λ e'. cc;
    part = λ _. h;
    refused = λ _. last;
  }

  unchanged : (n : ℕ) (rc : ℤ) → is_positive rc ≡ false → n + pos_part rc ≡ n
  unfolding is_positive
  unchanged n (pos zero) e = omega arith
  unchanged n (pos (suc m)) e = cc
  unchanged n (negsuc m) e = omega arith

  Meets-write_from :
      (f n : ℕ)
      → length text ≤ n + f
      → n ≤ length text
      → Meets (OutSoFar n) (write_from o (suc f) fd text n) (Wrote fd before text) NeverCut
  unfolding write_from
  Meets-write_from zero n h k =
      Meets-elim (ltb n (length text)) _ _ (λ more. absurd (ground arith))
        (λ over. Meets-pure true (λ s e. Wrote-all n s (ground arith) e))
  Meets-write_from (suc f) n h k =
      Meets-elim (ltb n (length text)) _ _
        (λ more. Meets-bind _ _ (Meets-write n) λ r. Meets-given _ _ λ fits.
          Meets-elim (is_positive r.rc) _ _
            (λ wrote.
              let some_bytes = is_positive→lt r.rc wrote in
              Meets-mono _ (λ s e. e.0) (λ all s w. w) (λ why s e. e)
                (Meets-write_from f (n + pos_part r.rc) (omega arith)
                  (omega (arith, length-drop n text))))
            (λ refused. Meets-pure false (λ s e.
              Wrote-part n s (ground arith)
                (e.0 ∙ ap (λ m. before ++ take m text) (unchanged n r.rc refused)) (e.1 refused))))
        (λ over. Meets-pure true (λ s e. Wrote-all n s (ground arith) e))

-- Where write takes no more than it is given, write_fd returns unless a call does not: with true,
-- the whole text has gone out on the descriptor behind what had gone out before, in order and
-- once; with false, a proper part of it from the front has, and the last call is a write of the
-- rest, which was refused.
pub write_fd-Wrote :
    (o : Os) (fd : ℤ) (text before : Text)
    → TakesWhatIsGiven o
    → Meets (λ s. output fd s.trace ≡ before) (write_fd o fd text) (Wrote fd before text) NeverCut
unfolding write_fd
write_fd-Wrote o fd text before bounded =
    Meets-mono _ (λ s e. e ∙ sym (append-nil before)) (λ all s w. w) (λ why s e. e)
      (Meets-write_from o bounded fd text before (length text) 0 (omega arith) (omega arith))
