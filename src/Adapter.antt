-- ===== src/Adapter.antt =====
-- beachedmesh/adapter.py, and `reload_driver` of beachedmesh/recover.py: the commands that check and set up
-- the radio.
pub mod Usable
mod Tests
use wifipi.Prelude.{
  ◌==◌, ◌&&◌, nat_beq, not, ◌++◌, Bool, Option, List, if◌then◌else◌, ℕ, some, none, true, false,
  ◌∷◌, [], list_eq,
}
use wifipi.Prelude.Int.{ℤ}
use wifipi.Prelude.Result.{◌>>=◌, Result, ok, err, index_error, and_then}
use wifipi.Routes.Entry.{Name}
use wifipi.Text.{codes, strip, starts_with, has_text, splitlines, split, int_of_text}

-- what `subprocess.run` returns
pub record Completed : Type 0 where
  -- 0 or another number
  pub code : ℕ
  pub stdout : Name
  pub stderr : Name

-- the second word of a line
abbrev pub second : List Name → Result Name
second (a ∷ b ∷ rest) = ok b
second _ = err index_error

-- what `iw` reports of an interface: the type, and the channel if there is one
pub record Info : Type 0 where
  pub itype : Name
  pub chan : Option ℤ

abbrev pub with_channel : Info → Result ℤ → Result Info
with_channel i (err e) = err e
with_channel i (ok c) = ok (record i { chan = some c })

abbrev pub with_type : Info → Result Name → Result Info
with_type i (err e) = err e
with_type i (ok s) = ok (record i { itype = s })

-- a line of the report, stripped
unfoldable pub read_line : Name → Info → Result Info
read_line line i =
    if starts_with (codes "type ") line
    then with_type i (second (split line))
    else if starts_with (codes "channel ") line
    then with_channel i (second (split line) >>= int_of_text)
    else ok i

unfoldable pub read_lines : List Name → Info → Result Info
read_lines [] i = ok i
read_lines (line ∷ lines) i = read_line (strip line) i >>= read_lines lines

-- The system: what a command returns and how it leaves the system, whether a path exists, what it links to,
-- and whether a program is found.
module _ {W : Type 0} (run : List Name → W → Completed × W) (exists : Name → W → Bool)
    (realpath : Name → W → Name) (which : Name → W → Bool) where
  unfoldable pub iface_info : Name → W → Result Info × W
  iface_info iface w =
      let (r, w1) = run (codes "iw" ∷ codes "dev" ∷ iface ∷ codes "info" ∷ []) w in
      (read_lines (splitlines r.stdout) (record { itype = codes "unknown"; chan = none }), w1)

  abbrev pub sys_path : Name → Name → Name
  sys_path iface rest = codes "/sys/class/net/" ++ (iface ++ rest)

  -- `verify`, without what it logs
  unfoldable pub verify : Name → W → Bool × W
  verify iface w =
      if not (exists (sys_path iface []) w)
      then (false, w)
      else if not (exists (sys_path iface (codes "/phy80211")) w)
      then (false, w)
      else if not (has_text (codes "usb") (realpath (sys_path iface (codes "/device")) w))
      then (false, w)
      else let (r, w1) = run (codes "iw" ∷ codes "phy" ∷ []) w in
        if not (has_text (codes "monitor") r.stdout) then (false, w1) else (true, w1)

  abbrev pub dev_set : Name → List Name → List Name
  dev_set iface rest = codes "iw" ∷ codes "dev" ∷ iface ∷ codes "set" ∷ rest

  -- the two ways into monitor mode; the answer is whether one of them worked
  unfoldable pub set_monitor : Name → W → Bool × W
  set_monitor iface w =
      let (r0, w0) = run (codes "ip" ∷ codes "link" ∷ codes "set" ∷ iface ∷ codes "down" ∷ []) w in
      let (r1, w1) = run (dev_set iface (codes "monitor" ∷ codes "otherbss" ∷ [])) w0 in
      if nat_beq r1.code 0
      then (true, w1)
      else let (r2, w2) = run (dev_set iface (codes "type" ∷ codes "monitor" ∷ [])) w1 in
        (nat_beq r2.code 0, w2)

  -- taking the interface from the programs that manage it
  unfoldable pub detach : Name → W → W
  detach iface w =
      let (r, w1) = run (codes "sh" ∷ codes "-c" ∷ codes "command -v nmcli" ∷ []) w in
      let w2 =
        if nat_beq r.code 0
        then (run
            (codes "nmcli"
              ∷ codes "device"
              ∷ codes "set"
              ∷ iface
              ∷ codes "managed"
              ∷ codes "no"
              ∷ [])
            w1).1
        else w1 in
      (run (codes "pkill" ∷ codes "-f" ∷ (codes "wpa_supplicant.*" ++ iface) ∷ []) w2).1

  -- `str(CHANNEL)` is "1"
  abbrev pub channel_command : Name → List Name
  channel_command iface = dev_set iface (codes "channel" ∷ codes "1" ∷ [])

  -- from the `ip link set ... up` on
  unfoldable pub confirm : Name → W → Result Bool × W
  confirm iface w =
      let (r, w1) = run (codes "ip" ∷ codes "link" ∷ codes "set" ∷ iface ∷ codes "up" ∷ []) w in
      and_then (iface_info iface w1) (λ i w2.
        if not (i.itype == codes "monitor")
        then (ok false, w2)
        else (ok true, (run (channel_command iface) w2).1))

  -- `confirm`, if one of the ways worked
  abbrev pub confirm_if : Name → Bool × W → Result Bool × W
  confirm_if iface (worked, w) = if not worked then (ok false, w) else confirm iface w

  -- `enter_monitor` behind its first report
  abbrev pub enter_from : Name → Info → W → Result Bool × W
  enter_from iface i w =
      if not (i.itype == codes "monitor")
      then confirm_if iface (set_monitor iface w)
      else confirm iface w

  -- `enter_monitor`, without what it logs
  unfoldable pub enter_monitor : Name → W → Result Bool × W
  enter_monitor iface w =
      and_then (iface_info iface (detach iface w)) (λ i w1. enter_from iface i w1)

  unfoldable pub verify_and_configure : Name → W → Result Bool × W
  verify_and_configure iface w =
      let (good, w1) = verify iface w in if good then enter_monitor iface w1 else (ok false, w1)

  abbrev pub modules : List Name
  modules =
      codes "mt7925u"
      ∷ codes "mt7925_common"
      ∷ codes "mt792x_lib"
      ∷ codes "mt76_usb"
      ∷ codes "mt76"
      ∷ []

  -- `reload_driver`, without what it logs and its sleep
  unfoldable pub reload_driver : W → Bool × W
  reload_driver w =
      if not (which (codes "modprobe") w)
      then (false, w)
      else let (r, w1) = run (codes "modprobe" ∷ codes "-r" ∷ modules) w in
        if not (nat_beq r.code 0) && has_text (codes "in use") (r.stderr ++ r.stdout)
        then (false, w1)
        else let (r2, w2) = run (codes "modprobe" ∷ codes "mt7925u" ∷ []) w1 in
          (nat_beq r2.code 0, w2)
