-- ===== src/Env/Selection.antt =====
-- Which sensor `envSelected` of fw/src/env_sht31.cpp takes.
use astro_uni_board.Base.{ℕ, ◌≡◌, Bool, true, false, none, some, arith, ◌==◌, if◌then◌else◌}
use astro_uni_board.Env.{
  Env, EnvSensor, env_onboard, env_external, env_reading, env_selected, is_sht_ok,
}

abbrev allows : ℕ → EnvSensor → Bool
allows select env_onboard = if select == 2 then false else true
allows select env_external = if select == 1 then false else true

-- The sensor that is reported has a good reading and is one that the setting allows.
pub selected_sound :
    (select : ℕ) (e : Env) (s : EnvSensor)
    → env_selected select e ≡ some s
    → (is_sht_ok (env_reading e s).status ≡ true) × (allows select s ≡ true)
unfolding env_selected
selected_sound select e env_onboard h = ground (arith, h)
selected_sound select e env_external h = ground (arith, h)

-- None is reported only where no sensor that the setting allows has a good reading.
pub selected_complete :
    (select : ℕ) (e : Env) (s : EnvSensor)
    → env_selected select e ≡ none
    → allows select s ≡ true
    → is_sht_ok (env_reading e s).status ≡ false
unfolding env_selected
selected_complete select e env_onboard h a = ground (arith, h, a)
selected_complete select e env_external h a = ground (arith, h, a)
