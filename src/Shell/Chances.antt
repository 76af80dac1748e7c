-- ===== src/Shell/Chances.antt =====
-- How many failures a choice of shells can take: three for each shell, one after the other.
use zevory_linux.Prelude.{
  ap, ltb, if◌then◌else◌, Option-cases, ℕ, zero, suc, ◌+◌, ◌*◌, ◌-◌, ◌/◌, ◌%◌, ◌<◌, ◌≡◌, refl, ◌⊎◌,
  inl, inr, List, [], ◌∷◌, Option, none, some, length, get_elem?, get_elem?-of_lt, arith, dec_lt,
  ◌∙◌, ◌≢◌,
}
use zevory_linux.Proc.{Spec}
use zevory_linux.Shell.{
  Rescue, Verdict, keep_trying, moved_on, out_of_options, over, shell, failed, survived,
}

pub record IsValid (r : Rescue) : Type 0 where
  pub in_range : r.at < length r.usable
  pub few_strikes : r.strikes < 3

pub over-IsValid : (specs : List Spec) (r : Rescue) → over specs ≡ some r → IsValid r
unfolding over
over-IsValid [] r e = cc
over-IsValid (s ∷ ss) r e = ground arith

pub survived-IsValid : {r : Rescue} → IsValid r → IsValid (survived r)
unfolding survived
survived-IsValid v = ground arith

-- The index is in range, so there is a shell: `usable[at]` does not panic.
pub shell-of_IsValid : (r : Rescue) → IsValid r → (s : Spec) × (shell r ≡ some s)
unfolding shell
shell-of_IsValid r v = get_elem?-of_lt r.usable r.at v.in_range

module _ (r : Rescue) (v : IsValid r) where
  failed_keeps : r.strikes < 2 → failed r ≡ some (keep_trying, record r { strikes = r.strikes + 1 })
  unfolding failed
  failed_keeps h = ground arith

  failed_out :
      r.strikes ≡ 2
      → r.at + 1 ≡ length r.usable
      → failed r ≡ some (out_of_options, record r { strikes = 3 })
  unfolding failed
  failed_out h e = ground arith

  failed_moves :
      (s : Spec)
      → r.strikes ≡ 2
      → r.at + 1 < length r.usable
      → get_elem? r.usable (r.at + 1) ≡ some s
      → failed r ≡ some (moved_on s, record r { at = r.at + 1; strikes = 0 })
  unfolding failed
  failed_moves s h e g = ground arith

-- What one failure does: a strike, the next shell, or the end.
pub data Fails (r : Rescue) : Verdict → Rescue → Type 0 where
  strike : r.strikes < 2 → Fails r keep_trying (record r { strikes = r.strikes + 1 })
  next :
      (s : Spec)
      → r.strikes ≡ 2
      → r.at + 1 < length r.usable
      → get_elem? r.usable (r.at + 1) ≡ some s
      → Fails r (moved_on s) (record r { at = r.at + 1; strikes = 0 })
  last :
      r.strikes ≡ 2 → r.at + 1 ≡ length r.usable → Fails r out_of_options (record r { strikes = 3 })

-- `failed` on a valid choice does not panic, and does one of the three.
pub failed-Fails :
    (r : Rescue)
    → IsValid r
    → (v : Verdict) × (r' : Rescue) × (failed r ≡ some (v, r')) × Fails r v r'
failed-Fails r v = elim (dec_lt r.strikes 2) [
  | yes few ↦ (_, _, failed_keeps r v few, strike few)
  | no many ↦ elim (dec_lt (r.at + 1) (length r.usable)) [
    | yes room ↦
        let (s, e) = get_elem?-of_lt r.usable (r.at + 1) room in
        let two : r.strikes ≡ 2 = omega (arith, v.few_strikes) in
        (_, _, failed_moves r v s two room e, next s two room e)
    | no full ↦
        let two : r.strikes ≡ 2 = omega (arith, v.few_strikes) in
        let end : r.at + 1 ≡ length r.usable = omega (arith, v.in_range) in
        (_, _, failed_out r v two end, last two end)
  ]
]

pub Fails-IsValid :
    (r : Rescue) {v : Verdict} {r' : Rescue}
    → IsValid r
    → Fails r v r'
    → (v ≡ out_of_options) ⊎ IsValid r'
Fails-IsValid r i (strike few) = inr (omega (arith, i.in_range))
Fails-IsValid r i (next s two room e) = inr (omega arith)
Fails-IsValid r i (last two end) = inl refl

-- Shell `k / 3` in use, with `k % 3` strikes against it.
abbrev pub after_failures : Rescue → ℕ → Rescue
after_failures r k = record r { at = k / 3; strikes = k % 3 }

-- Failures in a row, as long as none of them gives up.
unfoldable pub fails : ℕ → Rescue → Option Rescue
fails zero r = some r
fails (suc n) r = elim (failed r) [
  | none ↦ none
  | some (v, r') ↦ elim v [
    | keep_trying ↦ fails n r'
    | moved_on s ↦ fails n r'
    | out_of_options ↦ none
  ]
]

after_failures-IsValid :
    (r : Rescue) (k : ℕ) → k < 3 * length r.usable → IsValid (after_failures r k)
after_failures-IsValid r k h = omega arith

-- One failure short of the end moves on by one.
failed_short :
    (r : Rescue) (k : ℕ)
    → k + 1 < 3 * length r.usable
    → (v : Verdict) × (v ≢ out_of_options)
      × (failed (after_failures r k) ≡ some (v, after_failures r (k + 1)))
failed_short r k h = elim (dec_lt (k % 3) 2) [
  | yes few ↦ (
    keep_trying,
    (λ e. cc),
    failed_keeps (after_failures r k) (after_failures-IsValid r k (omega arith)) few ∙ ground arith,
  )
  | no many ↦
      let (s, e) = get_elem?-of_lt r.usable (k / 3 + 1) (omega arith) in
      (
        moved_on s,
        (λ e'. cc),
        failed_moves (after_failures r k) (after_failures-IsValid r k (omega arith)) s (omega arith)
              (omega arith) e
            ∙ ground arith,
      )
]

fails_from :
    (r : Rescue) (n k : ℕ)
    → k + n < 3 * length r.usable
    → fails n (after_failures r k) ≡ some (after_failures r (k + n))
unfolding fails
fails_from r zero k h = ground arith
fails_from r (suc n) k h =
    let (v, going, e) = failed_short r k (omega arith) in
    let ih = fails_from r n (k + 1) (omega arith) in
    let same : k + 1 + n ≡ k + suc n = omega arith in ground (arith, going)

over_start :
    (specs : List Spec) (r : Rescue)
    → over specs ≡ some r
    → (0 < length specs) × (r ≡ record { usable = specs; at = 0; strikes = 0 })
unfolding over
over_start [] r e = cc
over_start (s ∷ ss) r e = (omega arith, ground arith)

-- Once a run of failures has given up, more of them change nothing.
fails-none :
    (n m : ℕ) (r r' : Rescue)
    → fails n r ≡ some r'
    → failed r' ≡ some (out_of_options, record r' { strikes = 3 })
    → fails (n + suc m) r ≡ none
unfolding fails
fails-none zero m r r' e ended = ground (arith, e, ended)
fails-none (suc n) m r r' e ended =
    let same : suc n + suc m ≡ suc (n + suc m) = omega arith in
    ap (λ j. fails j r) same ∙ (elim (Option-cases (failed r)) [
      | inl nothing ↦ ground arith
      | inr ((keep_trying, r1), one) ↦ ground (arith, fails-none n m r1 r')
      | inr ((moved_on s, r1), one) ↦ ground (arith, fails-none n m r1 r')
      | inr ((out_of_options, r1), one) ↦ ground arith
    ])

-- With n shells to choose from, the choice survives exactly 3 * n - 1 failures in a row: after k
-- of them, for every k below 3 * n, shell k / 3 is in use with k % 3 strikes, and for every other
-- k it has given up; it is the failure after 3 * n - 1 that runs out of options.
pub three_chances_each :
    (specs : List Spec) (r : Rescue) (k : ℕ)
    → over specs ≡ some r
    → (fails k r ≡ (
        if ltb k (3 * length specs)
        then some (record { usable = specs; at = k / 3; strikes = k % 3 })
        else none))
      × (failed (record {
        usable = specs;
        at = (3 * length specs - 1) / 3;
        strikes = (3 * length specs - 1) % 3;
      })
          ≡ some (
            out_of_options,
            record { usable = specs; at = (3 * length specs - 1) / 3; strikes = 3 },
          ))
three_chances_each specs r k e =
    let (some_shell, start) = over_start specs r e in
    let first : Rescue = record { usable = specs; at = 0; strikes = 0 } in
    let ended : failed (after_failures first (3 * length specs - 1))
        ≡ some
            (out_of_options, record (after_failures first (3 * length specs - 1)) { strikes = 3 }) =
      failed_out (after_failures first (3 * length specs - 1)) (omega arith) (omega arith)
        (omega arith) in
    (
      rw start (elim (dec_lt k (3 * length specs)) [
        | yes few ↦ ground (arith, fails_from first k 0 (omega arith))
        | no many ↦
            let over_by : 3 * length specs - 1 + suc (k - 3 * length specs) ≡ k = omega arith in
            let gone =
              fails-none (3 * length specs - 1) (k - 3 * length specs) first
                (after_failures first (3 * length specs - 1))
                (ground (arith, fails_from first (3 * length specs - 1) 0 (omega arith))) ended in
            ground (arith, gone, over_by)
      ]),
      ended,
    )
