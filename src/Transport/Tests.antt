-- ===== src/Transport/Tests.antt =====
-- A message over a keyed connection.
use rom_server_poc.Prelude.{ℕ, ◌≡◌, refl, some, List, [], ◌∷◌, ◌++◌, arith}
use rom_server_poc.Prelude.Result.{ok}
use rom_server_poc.Protocol.Catalog.{lookup, lookup_name}
use rom_server_poc.Protocol.Value.{num, uint64, Values, empty, entry}
use rom_server_poc.Protocol.Codec.{encode, owner_of}
use rom_server_poc.Protocol.Codec.Received.{FieldsSendable, received_fields, received_value}
use rom_server_poc.Protocol.Samples.{sample_floats}
use rom_server_poc.Protocol.Messages.{server_catalog}
use rom_server_poc.Protocol.Messages.Enter.{c2s_enter_world}
use rom_server_poc.Protocol.Messages.Distinct.{server_catalog-PrefixesKnown}
use rom_server_poc.Transport.Rabbit.{Rabbit}
use rom_server_poc.Transport.Handshake.{Conn}
use rom_server_poc.Transport.Wire.{send, recv, recv-send}

abbrev sample_cipher : Rabbit
sample_cipher = record {
  x = 1 ∷ 2 ∷ 3 ∷ 4 ∷ 5 ∷ 6 ∷ 7 ∷ 8 ∷ [];
  c = 9 ∷ 10 ∷ 11 ∷ 12 ∷ 13 ∷ 14 ∷ 15 ∷ 16 ∷ [];
  b = 1;
  buf = [];
}

abbrev both_ends : Conn
both_ends = record { c2s = sample_cipher; s2c = sample_cipher; socket_uid = 1; connection_key = 2 }

abbrev third_slot : Values
third_slot = entry "m_playerSlotIndex" (num uint64 2) empty

recv-send_example :
    (bytes : List ℕ) × (after : Conn) × (heard : Conn) × (ws : Values) × (send sample_floats
        server_catalog 4 both_ends "C2S_EnterWorld" third_slot
      ≡ ok (bytes, after))
    × (received_fields
          (received_value sample_floats server_catalog 4)
          (owner_of c2s_enter_world)
          c2s_enter_world.fields
          third_slot
          empty
        ≡ ok ws)
    × (recv sample_floats server_catalog 4 both_ends (bytes ++ 9 ∷ [])
        ≡ ok (record { message = some c2s_enter_world; fields = ws; tail = [] }, 9 ∷ [], heard))
    × (heard.c2s ≡ after.s2c)
    × (after.s2c.buf ≡ [])
unfolding lookup lookup_name encode FieldsSendable
recv-send_example =
    recv-send sample_floats server_catalog 4 server_catalog-PrefixesKnown both_ends both_ends
      "C2S_EnterWorld" c2s_enter_world third_slot (0xED ∷ 0x77 ∷ 0x84 ∷ 0x0A ∷ 2 ∷ []) (9 ∷ []) refl
      refl refl refl (omega arith) (omega arith, tt) refl (omega arith)
