-- ===== src/Sys/Io.antt =====
-- The parts of Rust's standard library that zevinit reports errors with: `io::Error`, `io::Result`
-- with `?`, the decimal `Display` of an integer, and `CString::new`.
use Prim.Native.Char.{code}
use Prim.Native.String.{String}
use zevory_linux.Prelude.{
  ℕ, zero, suc, ◌+◌, ◌/◌, ◌%◌, ◌≡◌, refl, [], ◌∷◌, ◌++◌, Bool, true, false, ◌||◌, Option, none,
  some, ℤ, pos, negsuc, ◌==ℤ◌, ◌==◌, if◌then◌else◌,
}
use zevory_linux.Os.{Text, Os, M, pure, ◌>>=◌}

-- The bytes of a literal; every literal of the program is ASCII.
unfoldable pub bytes : String → Text
bytes String.[] = []
bytes (String.◌∷◌ c s) = code c ∷ bytes s

pub data ErrorKind : Type 0 where
  interrupted invalid_input unexpected_eof other : ErrorKind

-- An `errno`, or `io::Error::new(kind, message)`.
pub data IoError : Type 0 where
  os_error : ℤ → IoError
  simple : ErrorKind → Text → IoError

pub data Result (A : Type 0) : Type 0 where
  ok : A → Result A
  err : IoError → Result A

abbrev pub raw_os_error : IoError → Option ℤ
raw_os_error (os_error e) = some e
raw_os_error (simple k m) = none

-- `e.kind() == Interrupted`
unfoldable pub is_interrupted : Os → IoError → Bool
is_interrupted o (os_error e) = e ==ℤ o.eintr
is_interrupted o (simple interrupted m) = true
is_interrupted o (simple k m) = false

-- The digits of `n`, in front of `rest`. A number has no more digits than its value plus one.
digits : ℕ → ℕ → Text → Text
digits zero n rest = rest
digits (suc fuel) n rest =
    let more = digits fuel (n / 10) ((48 + n % 10) ∷ rest) in
    if n / 10 == 0 then (48 + n % 10) ∷ rest else more

-- `{n}` in a format string
unfoldable pub display : ℕ → Text
unfolding digits
display n = digits (suc n) n []

unfoldable pub display_int : ℤ → Text
unfolding display
display_int (pos n) = display n
display_int (negsuc n) = 45 ∷ display (suc n)

-- `{e}` in a format string
unfoldable pub display_error : Os → IoError → Text
display_error o (os_error e) = o.strerror e ++ (bytes " (os error " ++ (display_int e ++ bytes ")"))
display_error o (simple k m) = m

unfoldable pub has_nul : Text → Bool
has_nul [] = false
has_nul (b ∷ t) = b == 0 || has_nul t

-- `e?` where `e` is a value, and where it is a call
abbrev pub try : {A B : Type 0} → Result A → (A → M (Result B)) → M (Result B)
try (ok a) f = f a
try (err e) f = pure (err e)

abbrev pub attempt : {A B : Type 0} → M (Result A) → (A → M (Result B)) → M (Result B)
attempt m f = m >>= λ r. try r f

display_runs : display_int (negsuc 1233) ≡ bytes "-1234"
unfolding display_int bytes
display_runs = refl
