-- ===== src/Sys/Files.antt =====
-- zevinit/src/sys.rs: filesystems, nodes, descriptors and the terminal.
use Prim.Native.Nat.{bit_and, bit_or}
use zevory_linux.Prelude.{
  ℕ, ◌*◌, ◌^◌, ◌≡◌, refl, List, [], ◌∷◌, Bool, true, false, Option, none, some, ℤ, pos, ◌==ℤ◌,
  is_negative, ltb_int, if◌then◌else◌,
}
use zevory_linux.Os.{Text, Call, Reply, Os, M, pure, ◌>>=◌, ◌>>◌, when, call}
use zevory_linux.Sys.Io.{
  bytes, IoError, os_error, simple, invalid_input, Result, ok, err, has_nul, try, attempt,
}

unfoldable pub cstr : Text → Result Text
cstr s = if has_nul s then err (simple invalid_input (bytes "nul byte in string")) else ok s

abbrev pub last_os_error : Reply → IoError
last_os_error r = os_error r.errno

unfoldable pub checked : Reply → Result Unit
checked r = if r.rc ==ℤ pos 0 then ok tt else err (last_os_error r)

-- The wrappers that return a descriptor
unfoldable pub checked_fd : Reply → Result ℤ
checked_fd r = if is_negative r.rc then err (last_os_error r) else ok r.rc

-- `u32` arguments, so both are below 2^32
unfoldable pub makedev : ℕ → ℕ → ℕ
makedev major minor =
    bit_or
      (bit_or (bit_or (bit_and major 0xffff_f000 * 2 ^ 32) (bit_and major 0x0000_0fff * 2 ^ 8))
        (bit_and minor 0xffff_ff00 * 2 ^ 12))
      (bit_and minor 0x0000_00ff)

pub record MountOpts : Type 0 where
  pub source : Text
  pub target : Text
  pub fstype : Text
  pub flags : ℕ
  pub content : Option Text

-- `o.data.map(cstr).transpose()`
abbrev pub transpose_cstr : Option Text → Result (Option Text)
transpose_cstr none = ok none
transpose_cstr (some d) = elim (cstr d) [ ok t ↦ ok (some t) | err e ↦ err e ]

module _ (o : Os) where
  -- one call whose result is tested against 0
  unfoldable pub check : Call → M (Result Unit)
  check c = do r ← call o c; pure (checked r)

  unfoldable pub mount : MountOpts → M (Result Unit)
  mount m = try (cstr m.source) λ source. try (cstr m.target) λ target.
      try (cstr m.fstype) λ fstype.
        try (transpose_cstr m.content)
          λ content. check (Call.mount source target fstype m.flags content)

  unfoldable pub mknod_char : Text → ℕ → ℕ → ℕ → M (Result Unit)
  mknod_char path mode major minor =
      try (cstr path) λ p. check (Call.mknod p (bit_or o.s_ifchr mode) (makedev major minor))

  unfoldable pub open_append : Text → M (Result ℤ)
  open_append path = try (cstr path) λ p. do
    let flags = bit_or (bit_or (bit_or o.o_wronly o.o_append) o.o_cloexec) o.o_noctty
    r ← call o (Call.open_file p flags)
    pure (checked_fd r)

  unfoldable pub open_rw : Text → M (Result ℤ)
  open_rw path =
      try (cstr path)
        λ p. do r ← call o (Call.open_file p (bit_or o.o_rdwr o.o_noctty)); pure (checked_fd r)

  -- the loop of `dup2_stdio`, which returns at the first failure
  unfoldable pub dup2_each : ℤ → List ℤ → M (Result Unit)
  dup2_each fd [] = pure (ok tt)
  dup2_each fd (target ∷ targets) = do
    r ← call o (Call.dup2 fd target)
    elim (is_negative r.rc) [ true ↦ pure (err (last_os_error r)) | false ↦ dup2_each fd targets ]

  unfoldable pub dup2_stdio : ℤ → M (Result Unit)
  dup2_stdio fd =
      attempt (dup2_each fd (o.stdin_fileno ∷ o.stdout_fileno ∷ o.stderr_fileno ∷ []))
        λ _. do when (ltb_int o.stderr_fileno fd) (do call o (Call.close fd); pure tt); pure (ok tt)

  unfoldable pub new_session : M (Result Unit)
  new_session = do
    r ← call o Call.setsid
    pure (if is_negative r.rc then err (last_os_error r) else ok tt)

  unfoldable pub set_ctty : ℤ → Bool → M (Result Unit)
  set_ctty fd steal = check (Call.ioctl fd o.tiocsctty (if steal then pos 1 else pos 0))

  unfoldable pub take_ctty : ℤ → M (Result Unit)
  take_ctty fd = do new_session; set_ctty fd false

makedev_examples : (makedev 1 3 ≡ 0x0103) × (makedev 5 1 ≡ 0x0501) × (makedev 8 256 ≡ 0x10_0800)
unfolding makedev
makedev_examples = (refl, refl, refl)
