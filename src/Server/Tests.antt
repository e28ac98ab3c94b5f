-- ===== src/Server/Tests.antt =====
-- One connection waits in Recv while the server is told to stop.
use rom_server_poc.Prelude.{◌≡◌, ◌≢◌, refl, true, false, some, [], ◌∷◌}
use rom_server_poc.Prelude.Result.{ok}
use rom_server_poc.Prelude.Decimal.{pos}
use rom_server_poc.Config.{Config, level_info}
use rom_server_poc.Server.{
  Phase, handshaking, checking, receiving, accepting, draining, returned, Server, start, server,
  keyed, waits, greets, greeting, reader, takes, phase_of, set_phase, inside, peer, cancel,
  close_listener, accept, accept_failed, moves,
}
use rom_server_poc.Server.Counted.{Reach, begin, next}
use rom_server_poc.Server.Drain.{Quiet, here, further, idle_blocks}
use rom_server_poc.Server.Phases.{total}
use rom_server_poc.Server.Shutdown.{Returns, shutdown-Returns}

abbrev settings : Config
settings = record {
  game_listen_addr = [];
  region_internal_url = [];
  consume_session = false;
  database_url = [];
  world_id = pos 1;
  tick_interval = 1;
  auth_timeout = 1;
  log_level = level_info;
}

abbrev started : Server
started = record { cancelled = false; listening = true; main = accepting; conns = []; wg = 0 }

abbrev with_conn : Phase → Server
with_conn p = record {
  cancelled = false;
  listening = true;
  main = accepting;
  conns = p ∷ [];
  wg = 1;
}

started-Reach : Reach started
unfolding start
started-Reach = begin (ok settings) true true started refl

waiting-Reach : Reach (with_conn receiving)
unfolding set_phase phase_of
waiting-Reach =
    next
      (next
        (next (next started-Reach (accept started refl refl))
          (moves (with_conn handshaking) server 0 handshaking greeting inside refl refl greets))
        (moves (with_conn greeting) reader 0 greeting checking (takes 0) refl refl keyed))
      (moves (with_conn checking) server 0 checking receiving inside refl refl waits)

abbrev stopping : Server
stopping = record {
  cancelled = true;
  listening = true;
  main = draining;
  conns = receiving ∷ [];
  wg = 1;
}

not_peer : inside ≢ peer 0
not_peer e = cc

stopping-Quiet : Quiet 0 (with_conn receiving) stopping
stopping-Quiet =
    further (further here not_peer (cancel (with_conn receiving))) not_peer
      (accept_failed (record (with_conn receiving) { cancelled = true }) refl)

idle_blocks_example : (phase_of 0 stopping.conns ≡ some receiving) × (stopping.main ≢ returned)
unfolding phase_of
idle_blocks_example = idle_blocks 0 waiting-Reach refl stopping-Quiet

-- The listener is closed, and one connection has just been accepted.
abbrev closing : Server
closing = record (with_conn handshaking) { cancelled = true; listening = false }

closing-Reach : Reach closing
closing-Reach =
    next (next (next started-Reach (accept started refl refl)) (cancel (with_conn handshaking)))
      (close_listener (record (with_conn handshaking) { cancelled = true }) refl)

shutdown-Returns_example : Returns closing
unfolding total
shutdown-Returns_example =
    shutdown-Returns closing-Reach (record { told = refl; closed = refl; none_wait = refl })
