-- ===== src/Log/Opening.antt =====
-- The descriptor of the kernel's log: the one that is known, or one opened now.
use Prim.Native.Nat.{bit_or}
use zevory_linux.Prelude.{
  arith, Bool-cases, some, is_negative, ◌≡◌, refl, ap, sym, subst, ◌∙◌, append-nil, true, false, ℤ,
  ◌==ℤ◌, ==ℤ_iff, ◌⊎◌, inl, inr,
}
use zevory_linux.Os.{Call, Reply, Os, Process}
use zevory_linux.Os.Rules.{
  Meets, Meets-bind, Meets-call, Meets-elim, Meets-given, Meets-pure, Meets-result,
}
use zevory_linux.Sys.{checked_fd, cstr, open_append}
use zevory_linux.Sys.Io.{IoError, has_nul, Result, bytes, ok, err}
use zevory_linux.Sys.Written.{output, NeverCut}
use zevory_linux.Log.{not_open_yet, load_kmsg, store_kmsg, kmsg}

abbrev pub opening : Os → Call
opening o =
    Call.open_file (bytes "/dev/kmsg")
      (bit_or (bit_or (bit_or o.o_wronly o.o_append) o.o_cloexec) o.o_noctty)

-- The descriptor of the log: the one that was open, or one opened now.
abbrev pub IsLog : Os → ℤ → Process → Type 0
IsLog o fd first =
    (fd ≡ first.kmsg)
    ⊎ ((first.kmsg ≡ not_open_yet)
        × ((q : Reply) × (o.answer first.trace (opening o) ≡ some q)
            × (is_negative q.rc ≡ false)
            × (fd ≡ q.rc)))

-- The log was not open and cannot be opened.
abbrev pub NoLog : Os → Process → Type 0
NoLog o first =
    (first.kmsg ≡ not_open_yet)
    × ((q : Reply) × (o.answer first.trace (opening o) ≡ some q) × (is_negative q.rc ≡ true))

module _ (o : Os) (first : Process) where
  abbrev pub Same : Process → Type 0
  Same s = (d : ℤ) → output d s.trace ≡ output d first.trace

  abbrev Opened : Result ℤ → Type 0
  Opened r = (q : Reply) × (o.answer first.trace (opening o) ≡ some q) × (checked_fd q ≡ r)

  -- The descriptor to write to, which is that of the log where there is one
  abbrev pub Found : ℤ → Type 0
  Found fd = (¬ (fd ≡ not_open_yet) × IsLog o fd first) ⊎ ((fd ≡ not_open_yet) × NoLog o first)

  Meets-open :
      Meets (λ s. s ≡ first) (open_append o (bytes "/dev/kmsg")) (λ r s. Same s × Opened r) NeverCut
  unfolding open_append cstr has_nul bytes
  Meets-open =
      Meets-bind {R = λ q s. Same s × (o.answer first.trace (opening o) ≡ some q)} _ _
        (Meets-call o (opening o) (λ s h. refl)
          (λ s q h e. (
            λ d. append-nil (output d s.trace) ∙ ap (λ p. output d p.trace) h,
            subst (λ p. o.answer p.trace (opening o) ≡ some q) h e,
          )))
        λ q. Meets-pure _ (λ s h. (h.0, (q, h.1, refl)))

  opened_fd : (q : Reply) (fd : ℤ) → checked_fd q ≡ ok fd → (is_negative q.rc ≡ false) × (fd ≡ q.rc)
  unfolding checked_fd
  opened_fd q fd says = elim (Bool-cases (is_negative q.rc)) [
    | inl below ↦ ground arith
    | inr fine ↦ (fine, ground arith)
  ]

  Found-ok : (fd : ℤ) → first.kmsg ≡ not_open_yet → Opened (ok fd) → Found fd
  unfolding is_negative
  Found-ok fd none_open (q, answered, says) =
      let (fine, same) = opened_fd q fd says in
      inl ((λ z. cc), inr (none_open, (q, answered, fine, same)))

  Found-err : (e : IoError) → first.kmsg ≡ not_open_yet → Opened (err e) → Found not_open_yet
  unfolding checked_fd
  Found-err e none_open (q, answered, says) = elim (Bool-cases (is_negative q.rc)) [
    | inl below ↦ inr (refl, (none_open, (q, answered, below)))
    | inr fine ↦ ground arith
  ]

  pub Meets-kmsg : Meets (λ s. s ≡ first) (kmsg o) (λ fd s. Same s × Found fd) NeverCut
  unfolding kmsg load_kmsg store_kmsg
  Meets-kmsg =
      Meets-bind {R = λ known s. (s ≡ first) × (known ≡ first.kmsg)} _ _
        (record { at = λ s h. (h, ap (λ p. p.kmsg) h) })
        λ known. Meets-given _ _ λ loaded.
          Meets-elim (known ==ℤ not_open_yet) _ _
            (λ closed.
              let shut = sym loaded ∙ (==ℤ_iff known not_open_yet).0 closed in
              Meets-bind _ _ Meets-open λ opened.
                Meets-result opened _ _
                  (λ fd e.
                    Meets-bind {R = λ _ s. Same s × Opened opened} _ _ (record { at = λ s h. h })
                      λ _. Meets-pure fd (λ s h. (h.0, Found-ok fd shut (subst Opened e h.1))))
                  (λ e' e. Meets-pure _ (λ s h. (h.0, Found-err e' shut (subst Opened e h.1)))))
            (λ is_open. Meets-pure known (λ s h. (
              (λ d. ap (λ p. output d p.trace) h),
              inl ((λ e. cc ((==ℤ_iff known not_open_yet).1 e)), inl loaded),
            )))

  pub NoLog-Found : (fd : ℤ) → Found fd → fd ≡ not_open_yet → NoLog o first
  NoLog-Found fd (inl (known, is_log)) e = absurd (known e)
  NoLog-Found fd (inr (e', none_such)) e = none_such

  pub IsLog-Found : (fd : ℤ) → Found fd → ¬ (fd ≡ not_open_yet) → IsLog o fd first
  IsLog-Found fd (inl (known, is_log)) unlike = is_log
  IsLog-Found fd (inr (e, none_such)) unlike = absurd (unlike e)
