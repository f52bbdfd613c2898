-- ===== src/Adapter/Usable.antt =====
-- An adapter that is taken for usable is in monitor mode.
use wifipi.Prelude.{
  arith, refl, sym, eq_iff, ap, ◌==◌, not, Bool-cases, ◌≢◌, if◌then◌else◌, false, inl, inr, ◌≡◌,
  Bool, List, true, ◌∷◌, [], list_eq,
}
use wifipi.Prelude.Result.{Result, ok, err, and_then}
use wifipi.Routes.Entry.{Name}
use wifipi.Text.{codes, has_text}
use wifipi.Adapter.{
  enter_from, confirm_if, Completed, Info, iface_info, sys_path, verify, channel_command, confirm,
  enter_monitor, verify_and_configure,
}

not_true : ok false ≢ ok true
not_true h = cc

module _ {W : Type 0} (run : List Name → W → Completed × W) (exists : Name → W → Bool)
    (realpath : Name → W → Name) (which : Name → W → Bool) (iface : Name) where
  -- A system that reported the interface in monitor mode, right before the channel was set.
  abbrev pub IsMonitor : W → Type 0
  IsMonitor after =
      (w : W) × (i : Info) × ((iface_info run exists realpath which iface w).0 ≡ ok i)
      × (i.itype ≡ codes "monitor")
      × (after
          ≡ (run (channel_command run exists realpath which iface)
              (iface_info run exists realpath which iface w).1).1)

  -- What `verify` finds of an interface.
  pub record IsWireless (w : W) : Type 0 where
    pub there : exists (sys_path run exists realpath which iface []) w ≡ true
    pub wireless : exists (sys_path run exists realpath which iface (codes "/phy80211")) w ≡ true
    pub usb :
        has_text
          (codes "usb")
          (realpath (sys_path run exists realpath which iface (codes "/device")) w)
        ≡ true
    pub monitor : has_text (codes "monitor") (run (codes "iw" ∷ codes "phy" ∷ []) w).0.stdout ≡ true

  verify-IsWireless : (w : W) → (verify run exists realpath which iface w).0 ≡ true → IsWireless w
  unfolding verify
  verify-IsWireless w h = ground arith

  -- the test behind the report, at the state that the report left
  abbrev checked : Info → W → Result Bool × W
  checked i w =
      if not (i.itype == codes "monitor")
      then (ok false, w)
      else (ok true, (run (channel_command run exists realpath which iface) w).1)

  checked-IsMonitor :
      (w : W) (r : Result Info × W)
      → iface_info run exists realpath which iface w ≡ r
      → (and_then r checked).0 ≡ ok true
      → IsMonitor (and_then r checked).1
  checked-IsMonitor w (err e, w1) same h = cc
  checked-IsMonitor w (ok i, w1) same h = elim (Bool-cases (i.itype == codes "monitor")) [
    | inl monitor ↦ (
      w,
      i,
      ap (λ (p : Result Info × W). p.0) same,
      (eq_iff i.itype (codes "monitor")).0 monitor,
      rw monitor (
          ap
            (λ (p : Result Info × W). (run (channel_command run exists realpath which iface) p.1).1)
            (sym same)),
    )
    | inr other ↦ absurd (not_true (rw other at h))
  ]

  confirm-IsMonitor :
      (w : W)
      → (confirm run exists realpath which iface w).0 ≡ ok true
      → IsMonitor (confirm run exists realpath which iface w).1
  unfolding confirm
  confirm-IsMonitor w h = checked-IsMonitor _ _ refl h

  confirm_if-IsMonitor :
      (b : Bool × W)
      → (confirm_if run exists realpath which iface b).0 ≡ ok true
      → IsMonitor (confirm_if run exists realpath which iface b).1
  confirm_if-IsMonitor (true, w) h = confirm-IsMonitor w h
  confirm_if-IsMonitor (false, w) h = absurd (not_true h)

  enter_from-IsMonitor :
      (r : Result Info × W)
      → (and_then r (enter_from run exists realpath which iface)).0 ≡ ok true
      → IsMonitor (and_then r (enter_from run exists realpath which iface)).1
  enter_from-IsMonitor (err e, w) h = cc
  enter_from-IsMonitor (ok i, w) h = elim (Bool-cases (i.itype == codes "monitor")) [
    | inl monitor ↦ rw monitor (confirm-IsMonitor w (rw monitor at h))
    | inr other ↦ rw other (confirm_if-IsMonitor _ (rw other at h))
  ]

  -- An interface that verify_and_configure takes for usable exists, is a wireless one on USB, and its
  -- driver lists monitor mode; after the set-up the system reported its type as monitor, and nothing
  -- was run after that report but the setting of the channel.
  pub verify_and_configure-IsMonitor :
      (w : W)
      → (verify_and_configure run exists realpath which iface w).0 ≡ ok true
      → IsWireless w × IsMonitor (verify_and_configure run exists realpath which iface w).1
  unfolding verify_and_configure enter_monitor
  verify_and_configure-IsMonitor w h =
      elim (Bool-cases (verify run exists realpath which iface w).0) [
        | inl good ↦ (
          verify-IsWireless w good,
          rw (verify_and_configure, good)
              (enter_from-IsMonitor _ (rw (verify_and_configure, good) at h)),
        )
        | inr bad ↦ absurd (not_true (rw (verify_and_configure, bad) at h))
      ]
