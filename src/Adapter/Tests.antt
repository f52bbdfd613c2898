-- ===== src/Adapter/Tests.antt =====
-- A system with one adapter, which goes into monitor mode when it is told to; the state is its mode.
use wifipi.Prelude.{
  length, nat_beq, if◌then◌else◌, ℕ, Bool, ◌≡◌, List, true, false, [], refl, list_eq,
}
use wifipi.Prelude.Equality.{list_beq}
use wifipi.Prelude.Result.{ok}
use wifipi.Routes.Entry.{Name}
use wifipi.Text.{
  int_of_text, digits, codes, has_text, starts_with, splitlines, pieces, split, nonempty, strip,
  strip_left,
}
use wifipi.Adapter.{
  Completed, iface_info, read_lines, read_line, verify, detach, set_monitor, confirm, enter_monitor,
  verify_and_configure,
}
use wifipi.Adapter.Usable.{IsWireless, IsMonitor, verify_and_configure-IsMonitor}

abbrev reply : ℕ → Name → Completed
reply code out = record { code = code; stdout = out; stderr = [] }

-- the commands, told by their length: `sh`, which finds no `nmcli`, `iw phy`, the report and the setting
abbrev run : List Name → Bool → Completed × Bool
run command mode =
    if nat_beq (length command) 2
    then (reply 0 (codes "Supported interface modes: monitor"), mode)
    else if nat_beq (length command) 3
    then (reply 1 [], mode)
    else if nat_beq (length command) 4
    then (
      reply 0 (
          if mode
          then codes "Interface wlan1\n type monitor\n channel 1 (2412 MHz)"
          else codes " type managed"),
      mode,
    )
    else if nat_beq (length command) 6
    then (reply 0 [], true)
    else (reply 0 [], mode)

abbrev exists : Name → Bool → Bool
exists path mode = true

abbrev realpath : Name → Bool → Name
realpath path mode = codes "/sys/devices/usb1/1-1"

abbrev which : Name → Bool → Bool
which name mode = true

configured : (verify_and_configure run exists realpath which (codes "wlan1") false).0 ≡ ok true
unfolding verify_and_configure verify enter_monitor iface_info detach set_monitor confirm read_lines
    read_line has_text starts_with splitlines pieces split nonempty strip strip_left list_beq
    int_of_text digits
configured = refl

verify_and_configure-IsMonitor_example :
    IsWireless run exists realpath which (codes "wlan1") false
    × IsMonitor run exists realpath which
        (codes "wlan1")
        (verify_and_configure run exists realpath which (codes "wlan1") false).1
verify_and_configure-IsMonitor_example =
    verify_and_configure-IsMonitor run exists realpath which (codes "wlan1") false configured
