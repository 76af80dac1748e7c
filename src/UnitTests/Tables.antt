-- ===== src/UnitTests/Tables.antt =====
-- The tests of zevinit/src/mount.rs, console.rs, log.rs and sys.rs.
use Prim.Native.Nat.{bit_and}
use zevory_linux.Prelude.{
  ℕ, ◌≡◌, ◌≢◌, refl, List, [], ◌∷◌, Bool, true, not, ◌&&◌, ◌==◌, ltb, leb, keep, length, get_elem?,
  arith,
}
use zevory_linux.Prelude.Bits.{bit_and-bit_or, bit_and_self}
use zevory_linux.Os.{Text, Os}
use zevory_linux.Sys.{makedev}
use zevory_linux.Sys.Io.{bytes, display}
use zevory_linux.Log.{error_level, warn_level, info_level, priority, line_for}
use zevory_linux.Mount.{Vfs, table}
use zevory_linux.Console.{Node, nodes}
use zevory_linux.UnitTests.{text_eq, starts_with, ends_with, contains, insert_each, each, expect}

-- mount.rs
module _ (o : Os) where
  abbrev targets_of : List Vfs → List Text
  targets_of [] = []
  targets_of (v ∷ vs) = v.target ∷ targets_of vs

  abbrev pub targets_are_absolute_and_unique : Bool
  targets_are_absolute_and_unique =
      each (λ v. starts_with v.target (bytes "/")) (table o)
      && insert_each text_eq [] (targets_of (table o))

  abbrev pub proc_and_sys_come_first : Bool
  proc_and_sys_come_first =
      expect (get_elem? (table o) 0) (λ v. text_eq v.target (bytes "/proc"))
      && expect (get_elem? (table o) 1) (λ v. text_eq v.target (bytes "/sys"))

  abbrev pub nothing_is_mounted_suid : Bool
  nothing_is_mounted_suid = each (λ v. not (bit_and v.flags o.ms_nosuid == 0)) (table o)

  -- Where MS_NOSUID is some bit, the tests of mount.rs pass: the targets of the table are absolute
  -- paths, all different, the first of them /proc and /sys, and all are mounted with MS_NOSUID.
  pub mount_tests_pass :
      o.ms_nosuid ≢ 0
      → targets_are_absolute_and_unique && proc_and_sys_come_first && nothing_is_mounted_suid ≡ true
  unfolding table each insert_each contains text_eq starts_with bytes
  mount_tests_pass some_bit =
      let self = bit_and_self o.ms_nosuid in
      let two = bit_and-bit_or o.ms_nosuid o.ms_nosuid o.ms_nodev self in
      let three = bit_and-bit_or o.ms_nosuid _ o.ms_noexec two in ground (arith, self, two, three)

-- console.rs
abbrev node_is : Node → Text → ℕ → ℕ → ℕ → Bool
node_is n path mode major minor =
    text_eq n.path path && n.mode == mode && n.major == major && n.minor == minor

abbrev pub numbers_match_the_kernel_ones : Bool
numbers_match_the_kernel_ones =
    expect (get_elem? nodes 0) (λ n. node_is n (bytes "/dev/null") 0o666 1 3)
    && expect (get_elem? nodes 1) (λ n. node_is n (bytes "/dev/console") 0o600 5 1)
    && expect (get_elem? nodes 2) (λ n. node_is n (bytes "/dev/tty") 0o666 5 0)

-- `mode & !0o777`, of a `u32`
abbrev pub modes_carry_no_type_bits : Bool
modes_carry_no_type_bits = each (λ n. bit_and n.mode 0xffff_fe00 == 0) nodes

-- log.rs
abbrev pub the_priorities_are_the_ones_the_kernel_understands : Bool
the_priorities_are_the_ones_the_kernel_understands =
    priority error_level == 3 && priority warn_level == 4 && priority info_level == 6

abbrev pub quiet_hides_everything_except_errors : Bool
quiet_hides_everything_except_errors =
    ltb (priority error_level) 4 && leb 4 (priority warn_level) && leb 4 (priority info_level)

abbrev pub every_line_carries_its_priority_and_who_wrote_it : Bool
every_line_carries_its_priority_and_who_wrote_it =
    text_eq (line_for error_level (bytes "boom")) (bytes "<3>zevinit: boom\n")
    && text_eq (line_for info_level (bytes "fine")) (bytes "<6>zevinit: fine\n")

abbrev pub a_line_ends_exactly_once : Bool
a_line_ends_exactly_once =
    let line = line_for warn_level (bytes "careful") in
    ends_with line (bytes "\n") && length (keep (λ b. b == b'\n') line) == 1

-- sys.rs
abbrev pub makedev_matches_known_nodes : Bool
makedev_matches_known_nodes =
    makedev 1 3 == 0x0103 && makedev 5 1 == 0x0501 && makedev 5 0 == 0x0500

abbrev pub makedev_splits_wide_minor : Bool
makedev_splits_wide_minor = makedev 8 0 == 0x0800 && makedev 8 256 == 0x10_0800 && makedev 0 0 == 0

tests_pass :
    numbers_match_the_kernel_ones && modes_carry_no_type_bits
      && the_priorities_are_the_ones_the_kernel_understands && quiet_hides_everything_except_errors
      && every_line_carries_its_priority_and_who_wrote_it && a_line_ends_exactly_once
      && makedev_matches_known_nodes && makedev_splits_wide_minor
    ≡ true
unfolding nodes priority line_for makedev text_eq each ends_with keep bytes display
tests_pass = refl
