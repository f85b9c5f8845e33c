-- ===== src/Env.antt =====
-- fw/src/env_sht31.cpp and env_sht31.h: the two temperature and humidity sensors on one switched
-- supply, measured by a state machine of the main loop. What the I2C bus and the clock answer during a
-- pass is an argument; the floating-point conversion of a measurement is a parameter.
pub mod Supply
pub mod Selection
use Prim.Native.Nat.{bit_xor, bit_and}
use astro_uni_board.Base.{
  ℕ, suc, ◌+◌, ◌*◌, ◌%◌, Bool, true, false, not, ◌&&◌, ◌||◌, Option, none, some, List, [], ◌∷◌, ltb,
  leb, ◌==◌, if◌then◌else◌,
}
use astro_uni_board.Base.Int.{ℤ, pos, negsuc}
use astro_uni_board.Base.Word.{sub32}

pub data ShtStatus : Type 0 where
  sht_ok sht_no_ack sht_bad_crc sht_no_data : ShtStatus

-- Temperature, humidity and dew point, in tenths.
pub record Climate : Type 0 where
  pub t_deci : ℤ
  pub rh_deci : ℕ
  pub dew_deci : ℤ

pub record ShtReading : Type 0 where
  pub status : ShtStatus
  pub climate : Climate

pub data EnvState : Type 0 where
  st_power_up st_idle st_measuring st_power_off : EnvState

-- One sensor's part of the arrays.
pub record Sensor : Type 0 where
  pub reading : ShtReading
  pub triggered : Bool
  pub seen : Bool
  pub fails : ℕ

pub record Env : Type 0 where
  pub onboard : Sensor
  pub external : Sensor
  pub state : EnvState
  pub since : ℕ
  pub last_start : ℕ
  pub power_cycles : ℕ
  pub powered : Bool  -- PIN_SHT_PWR

abbrev pub is_sht_ok : ShtStatus → Bool
is_sht_ok sht_ok = true
is_sht_ok _ = false

-- CRC-8 with the polynomial 0x31, from 0xFF.
crc8_bit : ℕ → ℕ
crc8_bit c = if bit_and c 0x80 == 0 then c * 2 % 256 else bit_xor (c * 2) 0x31 % 256

crc8_loop : ℕ → List ℕ → ℕ
unfolding crc8_bit
crc8_loop c [] = c
crc8_loop c (b ∷ bs) =
    crc8_loop
      (crc8_bit
        (crc8_bit (crc8_bit (crc8_bit (crc8_bit (crc8_bit (crc8_bit (crc8_bit (bit_xor c b)))))))))
      bs

unfoldable pub crc8 : List ℕ → ℕ
unfolding crc8_loop
crc8 bytes = crc8_loop 0xFF bytes

-- The six bytes of an answer.
pub record Frame : Type 0 where
  pub t_high : ℕ
  pub t_low : ℕ
  pub t_crc : ℕ
  pub rh_high : ℕ
  pub rh_low : ℕ
  pub rh_crc : ℕ

-- What the bus and the clock answer during a pass of `envUpdate`.
pub record EnvAnswers : Type 0 where
  pub now : ℕ
  pub entered : ℕ  -- millis() in `enter`
  pub onboard_acks : Bool
  pub external_acks : Bool
  pub onboard_frame : Option Frame
  pub external_frame : Option Frame

abbrev with_status : ShtStatus → Sensor → Sensor
with_status s x = record x { reading = record (x.reading) { status = s } }

-- `startMeasurement`, and what is done with its result.
unfoldable pub start_measurement : Bool → Sensor → Sensor
start_measurement acks x =
    let x' : Sensor = record x { triggered = acks } in
    if acks then x' else with_status sht_no_ack x'

unfoldable pub crc_ok : Frame → Bool
unfolding crc8
crc_ok f = crc8 (f.t_high ∷ f.t_low ∷ []) == f.t_crc && crc8 (f.rh_high ∷ f.rh_low ∷ []) == f.rh_crc

-- A sensor is seen again, or fails once more.
unfoldable pub tallied : Sensor → Sensor
tallied x =
    if is_sht_ok x.reading.status
    then record x { seen = true; fails = 0 }
    else if x.seen
    then record x { fails = (x.fails + 1) % 256 }
    else x

abbrev pub fails_before_cycle : ℕ
fails_before_cycle = 3

-- `++fails[i] >= FAILS_BEFORE_CYCLE` of the sensor that was tallied.
unfoldable pub is_hung : Sensor → Bool
is_hung x = not (is_sht_ok x.reading.status) && x.seen && leb fails_before_cycle x.fails

abbrev pub enter : EnvState → ℕ → Env → Env
enter s at e = record e { state = s; since = at }

abbrev no_fails : Sensor → Sensor
no_fails x = record x { fails = 0 }

-- The end of the case `ST_MEASURING`.
unfoldable pub after_reads : ℕ → Env → Env
unfolding tallied is_hung
after_reads at e =
    let a = tallied e.onboard in
    let b = tallied e.external in
    if is_hung a || is_hung b
    then enter st_power_off at (record e {
      onboard = no_fails a;
      external = no_fails b;
      power_cycles = (e.power_cycles + 1) % 65536;
      powered = false;
    })
    else enter st_idle at (record e { onboard = a; external = b })

module _ (convert : ℕ → ℕ → Climate) where
  unfoldable pub read_measurement : Option Frame → Sensor → Sensor
  read_measurement none x = with_status sht_no_ack x
  read_measurement (some f) x =
      let r : ShtReading = record {
        status = sht_ok;
        climate = convert (f.t_high * 256 + f.t_low) (f.rh_high * 256 + f.rh_low);
      } in
      if crc_ok f then record x { reading = r } else with_status sht_bad_crc x

  unfoldable pub read_triggered : Option Frame → Sensor → Sensor
  unfolding read_measurement
  read_triggered f x = if x.triggered then read_measurement f x else x

  abbrev pub measure : EnvAnswers → Env → Env
  measure w e = record e {
    onboard = start_measurement w.onboard_acks e.onboard;
    external = start_measurement w.external_acks e.external;
    last_start = w.now;
  }

  abbrev pub read_both : EnvAnswers → Env → Env
  read_both w e = record e {
    onboard = read_triggered w.onboard_frame e.onboard;
    external = read_triggered w.external_frame e.external;
  }

  abbrev pub in_state : EnvState → EnvAnswers → Env → Env
  in_state st_power_up w e = if leb 2 (sub32 w.now e.since) then enter st_idle w.entered e else e
  in_state st_idle w e =
      if ltb (sub32 w.now e.last_start) 2000 then e else enter st_measuring w.entered (measure w e)
  in_state st_measuring w e =
      if ltb (sub32 w.now e.since) 20 then e else after_reads w.entered (read_both w e)
  in_state st_power_off w e =
      if ltb (sub32 w.now e.since) 100
      then e
      else enter st_power_up w.entered (record e { powered = true })

  unfoldable pub env_update : EnvAnswers → Env → Env
  env_update w e = in_state e.state w e

-- `envBegin`, from the values that the variables start with.
unfoldable pub env_begin : ℕ → ℕ → Env
env_begin now entered =
    let x : Sensor = record {
      reading = record {
        status = sht_no_data;
        climate = record { t_deci = pos 0; rh_deci = 0; dew_deci = pos 0 };
      };
      triggered = false;
      seen = false;
      fails = 0;
    } in
    record {
      onboard = x;
      external = x;
      state = st_power_up;
      since = entered;
      last_start = sub32 now 2000;
      power_cycles = 0;
      powered = true;
    }

pub data EnvSensor : Type 0 where
  env_onboard env_external : EnvSensor

abbrev pub env_reading : Env → EnvSensor → ShtReading
env_reading e env_onboard = e.onboard.reading
env_reading e env_external = e.external.reading

-- `envSelected`; `none` is -1, and `select` is `settings.envSelect`.
unfoldable pub env_selected : ℕ → Env → Option EnvSensor
env_selected select e =
    let onb = is_sht_ok e.onboard.reading.status in
    let ext = is_sht_ok e.external.reading.status in
    if select == 1
    then (if onb then some env_onboard else none)
    else if select == 2
    then (if ext then some env_external else none)
    else if ext
    then some env_external
    else (if onb then some env_onboard else none)
