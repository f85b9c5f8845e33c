-- ===== src/Lib.antt =====
-- The firmware of the board, fw/src: a focuser and a rotator on two stepper axes that share one step
-- timer, driven by a host over a serial protocol, with positions and settings kept in an EEPROM.
--
-- Base: numbers, integers, machine words, tests and lists that the other modules share.
-- Errors: error_codes.h. Settings: settings.h and settings.cpp.
-- Wrap: rotator_wrap.cpp, the turn of a requested angle that the cable allows.
-- Calc: rotator_calc.cpp, steps and centidegrees, and the plans of an IMU home.
-- MoveGuard: move_guard.cpp, which moves are refused while a position is not trustworthy.
-- Axis: axis.cpp. A method of the class Axis is a function from an Axis to the new one; isrStep, cut
--   into count_step and after_step, is one interrupt, and Axis/Delays is its ramp. Axis/Events puts
--   interrupts and calls of the main loop in any order.
-- StepTimer: step_timer.cpp, the timer whose interrupt calls isrStep.
-- Nv: the position ring of nv_store.cpp. Nv/Slot is one slot and its CRC, Nv/Ring the scan at boot,
--   Nv/Store the operations; the EEPROM is the list of the slots in it. Nv/Records is the bytes of the
--   settings and of the IMU calibration, a header and a payload (Nv/Transfers: the chunked transfers,
--   Nv/Saved: a save), and Nv/Sane which settings are taken.
-- Board: the state that the focuser code works on, and what the rest of the board answers to it.
-- Focuser: focuser.cpp. Focuser/Limits keeps the soft limits, Focuser/Moves is about one move, and
--   Focuser/Saves about the position across a restart.
-- Rotator: rotator.cpp, the moves and their end. Rotator/Sequences is IMU home and calibration and
--   the rest of that file; Rotator/Moves, Rotator/Homing, Rotator/Course and Rotator/Range are about
--   them.
-- Tmc: tmc2209.cpp, the driver registers (Tmc/Current: the currents) and the idle poll; Tmc/Checks is
--   the watch of a running move, Tmc/Watch, Tmc/Silence and Tmc/Stats are about it.
-- Env: env_sht31.cpp, the sensors' state machine (Env/Supply: how often their supply is cut), and
--   Env/Selection the sensor that is reported. Leds: leds.cpp, patterns and dimming.
-- Imu: the IMU over a type of single-precision numbers. Imu/Geometry is imu_math.cpp, Imu/Driver
--   imu_mpu6000.cpp, Imu/Stored its record of nv_store.cpp; Imu/Settling, Imu/Captures, Imu/Kept and
--   Imu/Restart are about the filter, the captures and the way of a calibration through the EEPROM.
-- Housekeeping: housekeeping.cpp. Boot: bootloader.cpp and diag.cpp (Boot/Carried: what a reset
--   carries over). Clock: clock_config.cpp.
-- Protocol: protocol.cpp, lines, parameters and the routing of commands. Protocol/FocuserBlock is
--   protocol_focuser.cpp, and Protocol/RotatorBlock is protocol_rotator.cpp; Protocol/FocuserHistory
--   puts the focuser commands, the loop and the motor together (Protocol/FocuserTrust: when its
--   position is trusted again). Protocol/FocuserCases and
--   Protocol/RotatorCases list the operations behind the commands of a block, for proofs.
-- Machine: the state of the whole board, and what each part sees of it. Machine/Status is status.cpp,
--   Machine/Drivers and Machine/Common protocol_common.cpp, Machine/EnvBlock protocol_env.cpp,
--   Machine/Loop and Machine/Start the loop and the start of main.cpp, Machine/Actions everything that
--   can happen in any order. Machine/Exclusive and Machine/Owner are about the two motors,
--   Machine/SaneCommands and Machine/Sane about the settings, Machine/Refusals about commands during a move,
--   Machine/Locked about the identify gate, Machine/Calibrating and Machine/Turning about
--   calibrations and the cable-wrap range, and Machine/Lifetime joins them from the start on.
-- Examples: the theorems at concrete values, and tests.
--
-- An axis counts steps; the focuser and the rotator give it targets, save its position some time
-- after it stops, and mark it as moving before it starts, so that a power loss is seen at the next
-- start. The rotator's targets come from Wrap and Calc.
--
-- Positions and int64_t values are unbounded integers; uint32_t counters and delays wrap. A run of
-- the interrupts (isr_run) takes a number of interrupts as fuel; the theorems on it say how many are
-- enough: one for each step, and one more where the driver was off. ticks_to_step takes a number of
-- timer interrupts, one for each 32768 ticks and one more.
--
-- What the hardware answers is an argument: `World` in Machine, `Around` and `Nearby` in the focuser
-- and the rotator. A move may call tmcApply; the state of both drivers after it is such an answer, so
-- that the theorems on the whole board hold for any.
--
-- Not modelled: the float start delay of a ramp and the floating-point conversion of a measurement
-- (parameters), pins, the TMCStepper library and the I2C bus (what they answer is an argument, as is what the EEPROM stores of
-- the bytes of a record that it acknowledges),
-- the packing of a settings struct into its bytes, the printing of replies, and
-- registers of the chip. The laws of single-precision numbers are not assumed, so no theorem says how
-- exact an angle of the IMU is. In Machine, the IMU and the samples of Housekeeping are answers of the
-- world.
pub mod Base
pub mod Wrap
pub mod Calc
pub mod Errors
pub mod MoveGuard
pub mod Axis
pub mod Settings
pub mod StepTimer
pub mod Nv
pub mod Board
pub mod Focuser
pub mod Rotator
pub mod Tmc
pub mod Leds
pub mod Imu
pub mod Housekeeping
pub mod Boot
pub mod Clock
pub mod Env
pub mod Protocol
pub mod Machine
pub mod Examples
