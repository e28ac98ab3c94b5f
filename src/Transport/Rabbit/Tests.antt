-- ===== src/Transport/Rabbit/Tests.antt =====
-- The golden keystreams of internal/transport/rabbit_test.go.
use rom_server_poc.Prelude.{
  ℕ, ◌*◌, ◌+◌, ◌≡◌, refl, List, [], ◌∷◌, ◌++◌, ◌^◌, length, none, some, arith,
}
use rom_server_poc.Transport.Rabbit.{
  rotate_left32, rabbit_g, count_up, g_words, mix, next, next_n, block, refill, fill, keystream,
  key_words, key_setup, rabbit_a, fold_state, xor_words, iv_words, iv_setup, new_rabbit,
}
use rom_server_poc.Prelude.Bytes.{from_le}
use rom_server_poc.Transport.Rabbit.Counters.{wide}
use rom_server_poc.Transport.Rabbit.Words.{next_counters, new_rabbit-IsState}
use rom_server_poc.Transport.Rabbit.Stream.{keystream_lem, blocks, rounds}

abbrev key16 : List ℕ
key16 = 0 ∷ 1 ∷ 2 ∷ 3 ∷ 4 ∷ 5 ∷ 6 ∷ 7 ∷ 8 ∷ 9 ∷ 10 ∷ 11 ∷ 12 ∷ 13 ∷ 14 ∷ 15 ∷ []

abbrev iv8 : List ℕ
iv8 = 0xAA ∷ 0xBB ∷ 0xCC ∷ 0xDD ∷ 1 ∷ 2 ∷ 3 ∷ 4 ∷ []

-- Read as a little-endian number, so the text of the golden value is reversed by bytes.
golden_sequential :
    from_le (keystream 64 (new_rabbit key16 none)).0
    ≡ 0x6f25d811e2bf334cdd4441694b9ca496544fc9c7c84c3ce051248fcc64d804709dc4518cb0481f937f025e7e49266f2ee55f6e2ee997af5a1702f02b234f4008
unfolding new_rabbit key_setup key_words fold_state iv_setup next_n next count_up g_words mix
    rabbit_g rotate_left32 keystream fill refill block
golden_sequential = refl

golden_with_iv :
    from_le (keystream 16 (new_rabbit key16 (some iv8))).0 ≡ 0xc02a97bc34207722cc88ad0ed12c0849
unfolding new_rabbit key_setup key_words fold_state iv_setup iv_words xor_words next_n next count_up
    g_words mix rabbit_g rotate_left32 keystream fill refill block
golden_with_iv = refl

next_counters_example :
    wide (next (new_rabbit key16 none)).c + 2 ^ 256 * (next (new_rabbit key16 none)).b
    ≡ wide (new_rabbit key16 none).c + wide rabbit_a + (new_rabbit key16 none).b
next_counters_example =
    next_counters (new_rabbit key16 none) (new_rabbit-IsState key16 none (omega arith) tt)

keystream_lem_example :
    (length (keystream 5 (new_rabbit key16 none)).0 ≡ 5)
    × ((keystream 5 (new_rabbit key16 none)).0 ++ (keystream 5 (new_rabbit key16 none)).1.buf
        ≡ (new_rabbit key16 none).buf
          ++ blocks (rounds 5 (new_rabbit key16 none)) (new_rabbit key16 none))
keystream_lem_example = keystream_lem 5 (new_rabbit key16 none)
