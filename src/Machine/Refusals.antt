-- ===== src/Machine/Refusals.antt =====
-- What the commands 20 to 49 (fw/src/protocol_common.cpp) may not do while something moves.
use astro_uni_board.Base.{ℕ, ◌≡◌, ◌≢◌, refl, true, false, arith}
use astro_uni_board.Base.Int.{ℤ}
use astro_uni_board.Settings.{AxisId}
use astro_uni_board.Focuser.{focuser_halt}
use astro_uni_board.Rotator.{rotator_halt}
use astro_uni_board.Protocol.{Text}
use astro_uni_board.Machine.{Machine, World, status_any_busy}
use astro_uni_board.Machine.Common.{cmd_save, cmd_identify, halt_all, protocol_common}
use astro_uni_board.Machine.Drivers.{set_threshold}
use astro_uni_board.Machine.CommonCases.{CommonKept, protocol_common-Kept}

-- The configuration is untouched and the board goes on.
pub record Untouched (m c : Machine) : Type 0 where
  pub same_settings : c.settings ≡ m.settings
  pub same_foc_regs : c.tmc.foc_regs ≡ m.tmc.foc_regs
  pub same_rot_regs : c.tmc.rot_regs ≡ m.tmc.rot_regs
  pub same_leds : c.leds ≡ m.leds
  pub goes_on : c.running ≡ m.running

untouched : (m : Machine) → Untouched m m
untouched m = record {
  same_settings = refl;
  same_foc_regs = refl;
  same_rot_regs = refl;
  same_leds = refl;
  goes_on = refl;
}

threshold-Untouched :
    (axis : AxisId) (v : ℤ) (m : Machine)
    → status_any_busy m ≡ true
    → Untouched m (set_threshold axis v m).0
unfolding set_threshold
threshold-Untouched axis v m moving = record {
  same_settings = ground (arith, moving);
  same_foc_regs = ground (arith, moving);
  same_rot_regs = ground (arith, moving);
  same_leds = ground (arith, moving);
  goes_on = ground (arith, moving);
}

common-Kept : (w : World) (m : Machine) → status_any_busy m ≡ true → CommonKept (Untouched m) w m
unfolding cmd_save cmd_identify halt_all focuser_halt rotator_halt
common-Kept w m moving =
    let never : status_any_busy m ≢ false = λ free. absurd (cc (moving, free)) in
    record {
      stays = untouched m;
      reboots = λ how free. absurd (never free);
      saves = record {
        same_settings = refl;
        same_foc_regs = refl;
        same_rot_regs = refl;
        same_leds = refl;
        goes_on = refl;
      };
      resets = λ free. absurd (never free);
      halts = record {
        same_settings = refl;
        same_foc_regs = refl;
        same_rot_regs = refl;
        same_leds = refl;
        goes_on = refl;
      };
      identifies = record {
        same_settings = refl;
        same_foc_regs = refl;
        same_rot_regs = refl;
        same_leds = refl;
        goes_on = refl;
      };
      clears = record {
        same_settings = refl;
        same_foc_regs = refl;
        same_rot_regs = refl;
        same_leds = refl;
        goes_on = refl;
      };
      thresholds = λ axis v. threshold-Untouched axis v m moving;
      dims = λ p free. absurd (never free);
      drives = λ a fine free. absurd (never free);
    }

-- While an axis moves or a rotator sequence runs, no command 20 to 49, whatever its parameters,
-- restarts the board or changes a setting, a driver's registers or the LEDs.
pub busy_refuses :
    (w : World) (cmd : ℕ) (params : Text) (m : Machine)
    → status_any_busy m ≡ true
    → Untouched m (protocol_common w cmd params m).0
busy_refuses w cmd params m moving =
    protocol_common-Kept (Untouched m) w m (common-Kept w m moving) cmd params
