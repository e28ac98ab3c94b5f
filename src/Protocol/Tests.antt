-- ===== src/Protocol/Tests.antt =====
-- The catalog of the handlers' messages, and messages that go over the wire.
use rom_server_poc.Prelude.{ℕ, inl, ◌≡◌, refl, some, List, [], ◌∷◌, arith}
use rom_server_poc.Prelude.Result.{ok}
use rom_server_poc.Protocol.Catalog.{lookup, lookup_name}
use rom_server_poc.Protocol.Value.{Value, num, uint64, text, Values, empty, entry}
use rom_server_poc.Protocol.Utf16.{utf16_encode}
use rom_server_poc.Protocol.Samples.{sample_floats}
use rom_server_poc.Protocol.Messages.{server_catalog}
use rom_server_poc.Protocol.Messages.Enter.{c2s_enter_world}
use rom_server_poc.Protocol.Primitives.{string_prim, encode_prim, decode_prim}
use rom_server_poc.Protocol.Primitives.RoundTrip.{received_prim, decode_prim-encode_prim}
use rom_server_poc.Protocol.Codec.{encode, decode, owner_of}
use rom_server_poc.Protocol.Codec.Received.{received_fields, received_value, FieldsSendable}
use rom_server_poc.Protocol.Messages.Distinct.{
  server_catalog-PrefixesKnown, server_catalog-DistinctLayouts,
}
use rom_server_poc.Protocol.Codec.RoundTrip.{decode-encode}
use rom_server_poc.Protocol.Zero.{zero_values}
use rom_server_poc.Protocol.Zero.Complete.{encode-zero_values}

abbrev enter_values : Values
enter_values = entry "m_playerSlotIndex" (num uint64 2) empty

decode-encode_example :
    (ws : Values) × (received_fields
        (received_value sample_floats server_catalog 4)
        (owner_of c2s_enter_world)
        c2s_enter_world.fields
        enter_values
        empty
      ≡ ok ws)
    × (decode sample_floats server_catalog 4 (0xED ∷ 0x77 ∷ 0x84 ∷ 0x0A ∷ 2 ∷ [])
        ≡ ok (record { message = some c2s_enter_world; fields = ws; tail = [] }))
unfolding lookup lookup_name encode FieldsSendable
decode-encode_example =
    decode-encode sample_floats server_catalog server_catalog-PrefixesKnown 4 "C2S_EnterWorld"
      c2s_enter_world enter_values (0xED ∷ 0x77 ∷ 0x84 ∷ 0x0A ∷ 2 ∷ []) refl refl (omega arith)
      (omega arith, tt) refl

abbrev zero_slot : Values
zero_slot = entry "m_playerSlotIndex" (num uint64 0) empty

encode-zero_values_example :
    (body : List ℕ) × (encode sample_floats server_catalog 4 "C2S_EnterWorld" zero_slot ≡ ok body)
unfolding lookup_name zero_values
encode-zero_values_example =
    encode-zero_values sample_floats server_catalog server_catalog-DistinctLayouts 4
      "C2S_EnterWorld" c2s_enter_world zero_slot refl (tt, tt) refl

decode_prim-encode_prim_example :
    (w : Value) × (received_prim sample_floats string_prim (text (65 ∷ 66 ∷ [])) ≡ ok w)
    × (decode_prim sample_floats string_prim (2 ∷ 0 ∷ 0 ∷ 0 ∷ 65 ∷ 0 ∷ 66 ∷ 0 ∷ 9 ∷ [])
        ≡ some (w, 9 ∷ []))
unfolding encode_prim utf16_encode
decode_prim-encode_prim_example =
    decode_prim-encode_prim sample_floats string_prim (text (65 ∷ 66 ∷ []))
      (2 ∷ 0 ∷ 0 ∷ 0 ∷ 65 ∷ 0 ∷ 66 ∷ 0 ∷ []) (9 ∷ []) tt
      ((inl (omega arith), (inl (omega arith), tt)), omega arith) refl
