-- ===== src/Protocol/Messages/Lobby.antt =====
-- internal/protocol/catalog_gen.go: the messages of the lobby.
use rom_server_poc.Prelude.{[], ◌∷◌}
use rom_server_poc.Protocol.Catalog.{Message, field}

abbrev pub c2s_set_options : Message
c2s_set_options = record {
  name = "C2S_SetOptions";
  dir = "C2S";
  id = 0x0F5C0EFA;
  fields = field "m_optionValues" "System.UInt32" ∷ [];
}

abbrev pub c2s_waiting_user_count : Message
c2s_waiting_user_count = record {
  name = "C2S_WaitingUserCount";
  dir = "C2S";
  id = 0x0EFBF0B4;
  fields = [];
}

abbrev pub s2c_waiting_user_count : Message
s2c_waiting_user_count = record {
  name = "S2C_WaitingUserCount";
  dir = "S2C";
  id = 0x2A1BF607;
  fields =
      field "m_waitingNumber" "System.Int32"
      ∷ field "m_waitingUserCount" "System.Int32"
      ∷ field "m_elapsedTime" "System.Int32"
      ∷ field "m_rewardItemIndex" "System.Int32"
      ∷ field "m_rewardItemCount" "System.Int32"
      ∷ field "m_estimatedTime" "System.Int32"
      ∷ field "m_nowServerTime" "System.Int64"
      ∷ [];
}

abbrev pub c2s_player_list : Message
c2s_player_list = record { name = "C2S_PlayerList"; dir = "C2S"; id = 0x2C5F6EBA; fields = [] }

abbrev pub s2c_player_list : Message
s2c_player_list = record {
  name = "S2C_PlayerList";
  dir = "S2C";
  id = 0x173B37EF;
  fields =
      field "m_maxSlotCount" "System.Byte"
      ∷ field "m_playerList" "System.Collections.Generic.List<Protocol.LobbyPlayerInfo>"
      ∷ field "m_enableStoarge" "System.Boolean"
      ∷ [];
}

abbrev pub c2s_create_player : Message
c2s_create_player = record {
  name = "C2S_CreatePlayer";
  dir = "C2S";
  id = 0x3A009026;
  fields =
      field "m_name" "System.Char[]"
      ∷ field "m_classType" "System.Byte"
      ∷ field "m_headType" "System.Byte"
      ∷ [];
}

abbrev pub s2c_create_player : Message
s2c_create_player = record {
  name = "S2C_CreatePlayer";
  dir = "S2C";
  id = 0x16AF8260;
  fields = field "m_result" "System.Int32" ∷ field "m_player" "Protocol.LobbyPlayerInfo" ∷ [];
}
