-- ===== src/UnitTests.antt =====
-- The unit tests of zevinit/src, as functions into Bool: `true` where no assertion of the test
-- fails, and `false` where one does or an `expect` finds nothing.
pub mod Shells
pub mod Children
pub mod Requests
pub mod Tables
use zevory_linux.Prelude.{
  ℕ, zero, suc, List, [], ◌∷◌, Bool, true, false, not, ◌&&◌, ◌||◌, ◌==◌, Option, none, some,
}
use zevory_linux.Os.{Text}

-- `a == b` of two `str`
unfoldable pub text_eq : Text → Text → Bool
text_eq [] [] = true
text_eq (a ∷ s) (b ∷ t) = a == b && text_eq s t
text_eq _ _ = false

unfoldable pub starts_with : Text → Text → Bool
starts_with s [] = true
starts_with [] (b ∷ t) = false
starts_with (a ∷ s) (b ∷ t) = a == b && starts_with s t

unfoldable pub ends_with : Text → Text → Bool
unfolding text_eq
ends_with [] t = text_eq [] t
ends_with (a ∷ s) t = text_eq (a ∷ s) t || ends_with s t

module _ {A : Type 0} where
  unfoldable pub contains : (A → A → Bool) → List A → A → Bool
  contains eq [] a = false
  contains eq (x ∷ xs) a = eq a x || contains eq xs a

  -- `assert!(seen.insert(x))` for each `x` of a list
  unfoldable pub insert_each : (A → A → Bool) → List A → List A → Bool
  unfolding contains
  insert_each eq seen [] = true
  insert_each eq seen (x ∷ xs) = not (contains eq seen x) && insert_each eq (x ∷ seen) xs

  -- an `assert!` for each element
  unfoldable pub each : (A → Bool) → List A → Bool
  each p [] = true
  each p (x ∷ xs) = p x && each p xs

-- An `expect`, and the assertions after it
abbrev pub expect : {A : Type 0} → Option A → (A → Bool) → Bool
expect none f = false
expect (some a) f = f a
