-- ===== src/Mount.antt =====
-- zevinit/src/mount.rs: the virtual filesystems.
pub mod Plain
pub mod Attempts
use Prim.Native.Nat.{bit_or}
use zevory_linux.Prelude.{
  ℕ, ◌+◌, List, [], ◌∷◌, ◌++◌, Bool, false, Option, none, some, ◌==ℤ◌, if◌then◌else◌,
}
use zevory_linux.Os.{Text, Call, Os, M, pure, ◌>>=◌, ◌>>◌, call}
use zevory_linux.Sys
use zevory_linux.Sys.{checked, MountOpts}
use zevory_linux.Sys.Io.{bytes, IoError, os_error, simple, Result, ok, err, display_error, attempt}
use zevory_linux.Log

pub record Vfs : Type 0 where
  pub source : Text
  pub target : Text
  pub fstype : Text
  pub flags : ℕ
  pub content : Option Text

abbrev vfs : Text → Text → Text → ℕ → Option Text → Vfs
vfs s t f fl d = record { source = s; target = t; fstype = f; flags = fl; content = d }

unfoldable pub opts_of : Vfs → MountOpts
opts_of v = record {
  source = v.source;
  target = v.target;
  fstype = v.fstype;
  flags = v.flags;
  content = v.content;
}

-- `Err(e) if e.raw_os_error() == Some(libc::EBUSY)`
unfoldable pub is_busy : Os → IoError → Bool
is_busy o (os_error e) = e ==ℤ o.ebusy
is_busy o (simple k m) = false

unfoldable pub forgive_busy : Os → Result Unit → Result Unit
unfolding is_busy
forgive_busy o (ok _) = ok tt
forgive_busy o (err e) = if is_busy o e then ok tt else err e

module _ (o : Os) where
  abbrev pub ro_ish : ℕ
  ro_ish = bit_or (bit_or o.ms_nosuid o.ms_nodev) o.ms_noexec

  abbrev pub tmpfs : ℕ
  tmpfs = bit_or o.ms_nosuid o.ms_nodev

  unfoldable pub table : List Vfs
  table =
      vfs (bytes "proc") (bytes "/proc") (bytes "proc") ro_ish none
      ∷ vfs (bytes "sysfs") (bytes "/sys") (bytes "sysfs") ro_ish none
      ∷ vfs (bytes "devtmpfs") (bytes "/dev") (bytes "devtmpfs") o.ms_nosuid
          (some (bytes "mode=0755"))
      ∷ vfs (bytes "tmpfs") (bytes "/run") (bytes "tmpfs") tmpfs (some (bytes "mode=0755"))
      ∷ vfs (bytes "tmpfs") (bytes "/tmp") (bytes "tmpfs") tmpfs none
      ∷ []

  unfoldable pub create_dir_all : Text → M (Result Unit)
  create_dir_all path = do r ← call o (Call.create_dir_all path); pure (checked r)

  unfoldable pub mount_one : Vfs → M (Result Unit)
  mount_one v =
      attempt (create_dir_all v.target) λ _. do r ← Sys.mount o (opts_of v); pure (forgive_busy o r)

  -- the loop of `mount_all`; `failed` counts at most the entries given
  unfoldable pub mount_each : List Vfs → ℕ → M ℕ
  mount_each [] failed = pure failed
  mount_each (v ∷ vs) failed = do
    r ← mount_one v
    elim r [
      | ok _ ↦ mount_each vs failed
      | err e ↦ (do
        Log.warn o (
            bytes "could not mount "
            ++ (v.target ++ (bytes " as " ++ (v.fstype ++ (bytes ": " ++ display_error o e)))))
        mount_each vs (failed + 1))
    ]

  unfoldable pub mount_all : M ℕ
  mount_all = mount_each table 0
