-- ===== src/Protocol/Messages/Enter.antt =====
-- internal/protocol/catalog_gen.go: the messages of the way into the world.
use rom_server_poc.Prelude.{[], ◌∷◌}
use rom_server_poc.Protocol.Catalog.{Message, field}

abbrev pub c2s_enter_world : Message
c2s_enter_world = record {
  name = "C2S_EnterWorld";
  dir = "C2S";
  id = 0x0A8477ED;
  fields = field "m_playerSlotIndex" "System.Byte" ∷ [];
}

abbrev pub s2c_enter_world : Message
s2c_enter_world = record {
  name = "S2C_EnterWorld";
  dir = "S2C";
  id = 0x31AFB19A;
  fields = field "m_result" "System.Int32" ∷ field "m_playerSlotIndex" "System.Byte" ∷ [];
}

abbrev pub s2c_enter_world_complete : Message
s2c_enter_world_complete = record {
  name = "S2C_EnterWorldComplete";
  dir = "S2C";
  id = 0x13DFE454;
  fields =
      field "m_result" "System.Int32"
      ∷ field "m_myPlayerInfo" "Protocol.MyPlayerInfo"
      ∷ field "m_warpToken" "System.Int64"
      ∷ [];
}

abbrev pub c2s_map_enter : Message
c2s_map_enter = record {
  name = "C2S_MapEnter";
  dir = "C2S";
  id = 0x25FCD5AD;
  fields =
      field "m_mapIndex" "System.Int32"
      ∷ field "m_batchIndex" "System.Int32"
      ∷ field "m_warpToken" "System.Int64"
      ∷ [];
}

abbrev pub s2c_map_enter : Message
s2c_map_enter = record {
  name = "S2C_MapEnter";
  dir = "S2C";
  id = 0x37ED9D11;
  fields =
      field "m_result" "System.Int32"
      ∷ field "m_sourcePacketID" "System.Int32"
      ∷ field "m_mapIndex" "System.Int32"
      ∷ field "m_layerIndex" "System.Int32"
      ∷ field "m_startPos" "Protocol.Vector"
      ∷ field "m_dir" "System.Single"
      ∷ field "m_serverID" "System.Int32"
      ∷ field "m_serverTick" "System.Int64"
      ∷ [];
}

abbrev pub c2s_map_enter_pre_complete : Message
c2s_map_enter_pre_complete = record {
  name = "C2S_MapEnterPreComplete";
  dir = "C2S";
  id = 0x00B131E9;
  fields = [];
}

abbrev pub s2c_map_enter_pre_complete : Message
s2c_map_enter_pre_complete = record {
  name = "S2C_MapEnterPreComplete";
  dir = "S2C";
  id = 0x26FC6EE4;
  fields = [];
}

abbrev pub c2s_map_enter_complete : Message
c2s_map_enter_complete = record {
  name = "C2S_MapEnterComplete";
  dir = "C2S";
  id = 0x2D0C11E8;
  fields = [];
}

abbrev pub s2c_map_enter_complete : Message
s2c_map_enter_complete = record {
  name = "S2C_MapEnterComplete";
  dir = "S2C";
  id = 0x1D23867A;
  fields =
      field "m_result" "System.Int32"
      ∷ field "m_playerOID" "System.Int64"
      ∷ field "m_remainTime" "System.Int32"
      ∷ field "m_randomTeleportRemainSec" "System.Int32"
      ∷ [];
}

abbrev pub c2s_player_load_first_call : Message
c2s_player_load_first_call = record {
  name = "C2S_PlayerLoadFirstCall";
  dir = "C2S";
  id = 0x0D3307ED;
  fields = [];
}

abbrev pub s2c_player_load_first_call : Message
s2c_player_load_first_call = record {
  name = "S2C_PlayerLoadFirstCall";
  dir = "S2C";
  id = 0x334D1A49;
  fields = field "m_result" "System.Int32" ∷ [];
}

abbrev pub s2c_move_notice : Message
s2c_move_notice = record {
  name = "S2C_MoveNotice";
  dir = "S2C";
  id = 0x0287FBAD;
  fields =
      field "m_seq" "System.Int32"
      ∷ field "m_objectType" "System.Byte"
      ∷ field "m_objectOID" "System.Int64"
      ∷ field "m_moveType" "System.Byte"
      ∷ field "m_walkType" "System.Byte"
      ∷ field "m_speed" "System.Single"
      ∷ field "m_currentPos" "Protocol.Vector"
      ∷ field "m_moveDir" "Protocol.Vector"
      ∷ field "m_movePath" "System.Collections.Generic.List<Protocol.Vector>"
      ∷ [];
}
