-- ===== src/Power/Actions.antt =====
-- `Action` of zevinit/src/power.rs: the three ways down.
use zevory_linux.Prelude.{ℤ}
use zevory_linux.Os.{Text, Os}
use zevory_linux.Sys.Io.{bytes}

pub data Action : Type 0 where
  reboot power_off halt : Action

unfoldable pub name : Action → Text
name reboot = bytes "reboot"
name power_off = bytes "poweroff"
name halt = bytes "halt"

unfoldable pub kernel_command : Os → Action → ℤ
kernel_command o reboot = o.rb_autoboot
kernel_command o power_off = o.rb_power_off
kernel_command o halt = o.rb_halt_system
