-- ===== src/Config/Sound.antt =====
-- internal/config/config.go: the configurations that Load returns.
use rom_server_poc.Prelude.{
  ℕ, zero, suc, ◌/◌, ◌≤◌, ◌<◌, ◌≡◌, refl, sym, ◌∙◌, ap, ◌||◌, Bool-cases, inl, inr, [], arith, ltb,
}
use rom_server_poc.Prelude.Result.{ok, >>=-eq-ok, ok-ne-err, ok-inj}
use rom_server_poc.Prelude.Decimal.{ℤ, pos, negsuc, format_int}
use rom_server_poc.Config.{
  Config, Variables, DotEnv, load_env, env, env_int, join_host_port, valid_hz, valid_port, second,
  settings, load,
}

valid_hz-ok : (n : ℤ) (hz : ℕ) → valid_hz n ≡ ok hz → (n ≡ pos hz) × (1 ≤ hz)
valid_hz-ok (pos zero) hz e = absurd (ok-ne-err (sym e))
valid_hz-ok (pos (suc n)) hz e = let same : suc n ≡ hz = cc in (ap pos same, omega arith)
valid_hz-ok (negsuc n) hz e = absurd (ok-ne-err (sym e))

valid_port-ok :
    (n : ℤ) (port : ℕ) → valid_port n ≡ ok port → (n ≡ pos port) × (1 ≤ port) × (port ≤ 65535)
valid_port-ok (pos n) port e = elim (Bool-cases (ltb n 1 || ltb 65535 n)) [
  | inl out ↦ absurd (ok-ne-err (sym (rw out at e)))
  | inr within ↦
      let same : n ≡ port = let h = rw within at e in cc in
      (ap pos same, ground arith, ground arith)
]
valid_port-ok (negsuc n) port e = absurd (ok-ne-err (sym e))

-- The two numbers of the environment that Load checks, and what it makes of them.
pub record Checked (dotenv : DotEnv) (real : Variables) (cfg : Config) : Type 0 where
  pub vars : Variables
  pub hz : ℕ
  pub port : ℕ
  pub loaded : load_env dotenv real ≡ ok vars
  pub tick : env_int vars "ROM_TICK_HZ" (pos 20) ≡ ok (pos hz)
  pub tick_positive : 1 ≤ hz
  pub interval : cfg.tick_interval ≡ second / hz
  pub listens : env_int vars "ROM_GAME_PORT" (pos 17701) ≡ ok (pos port)
  pub port_low : 1 ≤ port
  pub port_high : port ≤ 65535
  pub address :
      cfg.game_listen_addr ≡ join_host_port (env vars "ROM_GAME_HOST" []) (format_int (pos port))

-- A configuration that Load returns has the tick rate and the port of the environment, or their
-- defaults: the rate is at least 1, the interval is a second divided by it, and the port, from 1 to
-- 65535, stands in decimal behind the host in the listening address.
pub load-Checked :
    (dotenv : DotEnv) (real : Variables) (cfg : Config)
    → load dotenv real ≡ ok cfg
    → Checked dotenv real cfg
unfolding load
load-Checked dotenv real cfg e =
    let (vars, loaded, e₁) = >>=-eq-ok (load_env dotenv real) _ e in
    let (tick, tick_read, e₂) = >>=-eq-ok (env_int vars "ROM_TICK_HZ" (pos 20)) _ e₁ in
    let (hz, hz_valid, e₃) = >>=-eq-ok (valid_hz tick) _ e₂ in
    let (world, world_read, e₄) = >>=-eq-ok (env_int vars "ROM_WORLD_ID" (pos 1)) _ e₃ in
    let (number, port_read, e₅) = >>=-eq-ok (env_int vars "ROM_GAME_PORT" (pos 17701)) _ e₄ in
    let (port, port_valid, e₆) = >>=-eq-ok (valid_port number) _ e₅ in
    let (tick_same, at_least) = valid_hz-ok tick hz hz_valid in
    let (port_same, low, high) = valid_port-ok number port port_valid in
    let same = ok-inj e₆ in
    record {
      vars = vars;
      hz = hz;
      port = port;
      loaded = loaded;
      tick = tick_read ∙ ap ok tick_same;
      tick_positive = at_least;
      interval = sym (ap (λ (c : Config). c.tick_interval) same);
      listens = port_read ∙ ap ok port_same;
      port_low = low;
      port_high = high;
      address = sym (ap (λ (c : Config). c.game_listen_addr) same);
    }

hz-valid : (hz : ℕ) → 1 ≤ hz → valid_hz (pos hz) ≡ ok hz
hz-valid zero h = absurd (omega arith)
hz-valid (suc n) h = refl

port-valid : (port : ℕ) → 1 ≤ port → port ≤ 65535 → valid_port (pos port) ≡ ok port
port-valid port low high = ground arith

fast_quotient : (hz : ℕ) → second < hz → second / hz ≡ 0
fast_quotient hz h = grind arith

-- The other way: numbers that pass the checks are taken.
load-settings :
    (dotenv : DotEnv) (real vars : Variables) (hz port : ℕ) (world : ℤ)
    → load_env dotenv real ≡ ok vars
    → env_int vars "ROM_TICK_HZ" (pos 20) ≡ ok (pos hz)
    → 1 ≤ hz
    → env_int vars "ROM_WORLD_ID" (pos 1) ≡ ok world
    → env_int vars "ROM_GAME_PORT" (pos 17701) ≡ ok (pos port)
    → 1 ≤ port
    → port ≤ 65535
    → load dotenv real ≡ ok (settings vars hz world port)
unfolding load
load-settings dotenv real vars hz port world loaded tick some_hz read listens low high =
    rw loaded (
      rw tick
        (rw (hz-valid hz some_hz) (rw read (rw listens (rw (port-valid port low high) refl)))))

settings-tick :
    (vars : Variables) (hz port : ℕ) (world : ℤ)
    → (settings vars hz world port).tick_interval ≡ second / hz
unfolding settings
settings-tick vars hz port world = refl

-- If ROM_TICK_HZ is above 1000000000, and the world id and the port are valid, then Load succeeds,
-- with a tick interval of 0.
pub load-zero_tick :
    (dotenv : DotEnv) (real vars : Variables) (hz port : ℕ) (world : ℤ)
    → load_env dotenv real ≡ ok vars
    → env_int vars "ROM_TICK_HZ" (pos 20) ≡ ok (pos hz)
    → second < hz
    → env_int vars "ROM_WORLD_ID" (pos 1) ≡ ok world
    → env_int vars "ROM_GAME_PORT" (pos 17701) ≡ ok (pos port)
    → 1 ≤ port
    → port ≤ 65535
    → (cfg : Config) × (load dotenv real ≡ ok cfg) × (cfg.tick_interval ≡ 0)
load-zero_tick dotenv real vars hz port world loaded tick fast read listens low high = (
  settings vars hz world port,
  load-settings dotenv real vars hz port world loaded tick (omega arith) read listens low high,
  settings-tick vars hz port world ∙ fast_quotient hz fast,
)
